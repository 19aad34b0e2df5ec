-- ===== src/Cmd/Startup.antt =====
-- How to prove what holds of every call that main of cmd/main.go makes.
use api_extension.Prelude.{
  ℕ, suc, zero, List, [], ◌∷◌, ok, ◌≡◌, ◌≢◌, arith, ◌⊎◌, bind-holds, lift, Exec, ◌>>=◌,
}
use api_extension.Text.{Text, eq_iff}
use api_extension.Cmd.{
  Stat, present, Exit, check_file, unable_to_start_manager, unable_to_set_up_health_check,
  unable_to_set_up_ready_check, unable_to_add_api_server,
}
use api_extension.Cmd.Main.{
  Flags, Action, get_config, new_manager, add_healthz_check, add_readyz_check, add_server,
  start_manager, Platform, manager_options, api_server, get_config_or_die, or_exit, run_manager,
  main,
}

-- A file of the flags after its check: none is named or the named file is empty, and none is left, or
-- the named file has content, and it is left.
abbrev pub IsChecked : (Text → Text) → (Text → Stat) → Text → Text → Type 0
IsChecked clean stat flag file =
    ((file ≡ []) × ((flag ≡ []) ⊎ (stat (clean flag) ≡ present zero)))
    ⊎ ((file ≡ flag) × ((flag ≢ []) × ((n : ℕ) × (stat (clean flag) ≡ present (suc n)))))

check_file-IsChecked :
    (clean : Text → Text) (stat : Text → Stat) (flag file : Text)
    → check_file clean stat flag ≡ ok file
    → IsChecked clean stat flag file
unfolding check_file
check_file-IsChecked clean stat flag file h = ground (arith, eq_iff flag [])

module _ {KubeConfig Duration : Type 0} (platform : Platform KubeConfig Duration)
    (flags : Flags Duration) (P : List (Action KubeConfig Duration) → Type 0) where
  abbrev pub Keeps : Action KubeConfig Duration → Type 0
  Keeps call = (h : List (Action KubeConfig Duration)) → P h → P (call ∷ h)

  get_config_or_die-holds :
      (h : List (Action KubeConfig Duration))
      → P (get_config ∷ h)
      → P (get_config_or_die platform h).1
  unfolding get_config_or_die
  get_config_or_die-holds h p = ground arith

  -- The call that `or_exit` makes, and then the rest.
  or_exit-holds :
      {B : Type 0} (call : Action KubeConfig Duration) (exit : Exit)
      (f : Unit {0} → Exec (List (Action KubeConfig Duration)) Exit B)
      (h : List (Action KubeConfig Duration))
      → P (call ∷ h)
      → (P (call ∷ h) → P (f tt (call ∷ h)).1)
      → P ((or_exit platform call exit >>= f) h).1
  or_exit-holds call exit f h p rest =
      bind-holds P (or_exit platform call exit) f h p λ _ _ p. rest p

  run_manager-holds :
      (cert_file key_file ca_file : Text)
      → Keeps get_config
      → ((config : KubeConfig) → Keeps (new_manager config (manager_options flags)))
      → Keeps add_healthz_check
      → Keeps add_readyz_check
      → ((config : KubeConfig)
          → Keeps (add_server (api_server flags config cert_file key_file ca_file)))
      → Keeps start_manager
      → (h : List (Action KubeConfig Duration)) → P h
      → P (run_manager platform flags cert_file key_file ca_file h).1
  unfolding run_manager
  run_manager-holds cert_file key_file ca_file got made health ready added started h p =
      bind-holds P (get_config_or_die platform) _ h (get_config_or_die-holds h (got h p))
        λ config _ p.
          let h₁ = (get_config_or_die platform h).1 in
          let h₂ = new_manager config (manager_options flags) ∷ h₁ in
          let h₃ = add_healthz_check ∷ h₂ in
          let h₄ = add_readyz_check ∷ h₃ in
          or_exit-holds (new_manager config (manager_options flags)) unable_to_start_manager _ h₁
            (made config h₁ p)
            λ p.
              or_exit-holds add_healthz_check unable_to_set_up_health_check _ h₂ (health h₂ p) λ p.
                or_exit-holds add_readyz_check unable_to_set_up_ready_check _ h₃ (ready h₃ p) λ p.
                  bind-holds P (get_config_or_die platform) _ h₄
                    (get_config_or_die-holds h₄ (got h₄ p))
                    λ config' _ p.
                      let s = api_server flags config' cert_file key_file ca_file in
                      let h₅ = (get_config_or_die platform h₄).1 in
                      or_exit-holds (add_server s) unable_to_add_api_server _ h₅
                        (added config' h₅ p) λ p. started (add_server s ∷ h₅) p

  -- What the calls keep that main makes with checked files, main keeps.
  pub main-holds :
      Keeps get_config
      → ((config : KubeConfig) → Keeps (new_manager config (manager_options flags)))
      → Keeps add_healthz_check
      → Keeps add_readyz_check
      → ((config : KubeConfig) (cert_file key_file ca_file : Text)
          → IsChecked (λ file. file) platform.stat flags.harikube_cert_file cert_file
          → IsChecked platform.clean platform.stat flags.harikube_key_file key_file
          → IsChecked platform.clean platform.stat flags.harikube_ca_file ca_file
          → Keeps (add_server (api_server flags config cert_file key_file ca_file)))
      → Keeps start_manager
      → (h : List (Action KubeConfig Duration)) → P h
      → P (main platform flags h).1
  unfolding main
  main-holds got made health ready added started h p =
      bind-holds P (lift (check_file (λ file. file) platform.stat flags.harikube_cert_file)) _ h p
        λ cert_file e₁ p.
          bind-holds P (lift (check_file platform.clean platform.stat flags.harikube_key_file)) _ h
            p
            λ key_file e₂ p.
              bind-holds P (lift (check_file platform.clean platform.stat flags.harikube_ca_file)) _
                h p
                λ ca_file e₃ p.
                  run_manager-holds cert_file key_file ca_file got made health ready
                    (λ config.
                      added config cert_file key_file ca_file (check_file-IsChecked _ _ _ _ e₁)
                        (check_file-IsChecked _ _ _ _ e₂) (check_file-IsChecked _ _ _ _ e₃))
                    started h p
