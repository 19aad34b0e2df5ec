-- ===== src/Server/Cleanup.antt =====
-- What Start leaves behind: the socket and its listener, and how it has reached the store.
use api_extension.Prelude.{
  Bool, true, false, Option, none, some, List, [], ◌∷◌, ok, ◌≡◌, refl, arith, All, bind-holds, ap,
  lift, perform, ◌∙◌, Exec, if◌then◌else◌,
}
use api_extension.Text.{text, ◌==◌}
use api_extension.Server.{client_config}
use api_extension.Server.Tls.{IsPlain, client_config-eq-none_iff}
use api_extension.Server.Start.{
  SearchApiServer, Host, Action, connect_auth, connect_discovery, connect_store, make_server,
  remove_socket, listen, serve, close_listener, wait, shut_down, start_server, remove_stale,
  listen_on_socket, after_wake, serve_until_done, serve_socket, tls_info, server_config, start,
}

if-holds :
    {W E A : Type 0} (P : W → Type 0) (b : Bool) (m n : Exec W E A) (w : W)
    → P (m w).1
    → P (n w).1
    → P ((if b then m else n) w).1
if-holds P true m n w p q = p
if-holds P false m n w p q = q

-- How far the socket is from being gone: nobody listens and it was asked to be removed since anyone
-- did, a listener is open, or the listener is closed and the file may be there. `misused` is for a
-- call that has no place there: a removal or a second listener under an open listener, and serving or
-- closing without one.
pub data Socket : Type 0 where
  clear bound released misused : Socket

module _ {KubeConfig Config : Type 0} where
  unfoldable pub step : Socket → Action KubeConfig Config → Socket
  step clear remove_socket = clear
  step clear (listen true) = bound
  step clear (listen false) = clear
  step clear serve = misused
  step clear close_listener = misused
  step clear wait = misused
  step clear shut_down = misused
  step clear a = clear
  step bound remove_socket = misused
  step bound (listen b) = misused
  step bound close_listener = released
  step bound a = bound
  step released remove_socket = clear
  step released (listen b) = misused
  step released close_listener = misused
  step released serve = misused
  step released a = released
  step misused a = misused

  -- The state of the socket after a run.
  unfoldable pub socket_after : List (Action KubeConfig Config) → Socket
  unfolding step
  socket_after [] = clear
  socket_after (a ∷ h) = step (socket_after h) a

  serve_until_done-bound :
      (host : Host KubeConfig Config) (h : List (Action KubeConfig Config))
      → socket_after h ≡ bound
      → socket_after (serve_until_done host h).1 ≡ bound
  unfolding serve_until_done after_wake socket_after step
  serve_until_done-bound host h e = ground arith

  serve_socket-clear :
      (host : Host KubeConfig Config) (h : List (Action KubeConfig Config))
      → socket_after h ≡ clear
      → socket_after (serve_socket host h).1 ≡ clear
  unfolding serve_socket remove_stale listen_on_socket socket_after step
  serve_socket-clear host h e =
      ground (arith, serve_until_done-bound host (listen true ∷ remove_socket ∷ h))

  -- A connection to the store that a run has made has TLS, or has no https URL.
  abbrev pub IsSecure : Action KubeConfig Config → Type 0
  IsSecure (connect_store urls none) = All IsPlain urls
  IsSecure a = Unit {0}

  serve_socket-AreSecure :
      (host : Host KubeConfig Config) (h : List (Action KubeConfig Config))
      → All IsSecure h
      → All IsSecure (serve_socket host h).1
  unfolding serve_socket remove_stale listen_on_socket serve_until_done after_wake
  serve_socket-AreSecure host h e = ground arith

module _ {KubeConfig Config Duration : Type 0} (host : Host KubeConfig Config)
    (s : SearchApiServer KubeConfig Duration) where
  -- What each part of Start keeps, Start keeps.
  start-holds :
      (P : List (Action KubeConfig Config) → Type 0)
      → ((h : List (Action KubeConfig Config)) → P h → P (connect_auth s.kube_config ∷ h))
      → ((tls : Option Config)
          → client_config host.tls (tls_info s) s.harikube_urls ≡ ok tls
          → (h : List (Action KubeConfig Config)) → P h
          → P (connect_store s.harikube_urls tls ∷ h))
      → ((h : List (Action KubeConfig Config)) → P h → P (connect_discovery s.kube_config ∷ h))
      → ((h : List (Action KubeConfig Config)) → P h → P (make_server (server_config s) ∷ h))
      → ((h : List (Action KubeConfig Config)) → P h → P (serve_socket host h).1)
      → ((h : List (Action KubeConfig Config)) → P h → P (start_server ∷ h))
      → (h : List (Action KubeConfig Config)) → P h
      → P (start host s h).1
  unfolding start
  start-holds P auth store discovery made socket started h p =
      let h₁ = connect_auth s.kube_config ∷ h in
      bind-holds P (lift (client_config host.tls (tls_info s) s.harikube_urls)) _ h p λ tls e p.
        let h₂ = connect_store s.harikube_urls tls ∷ h₁ in
        let h₃ = connect_discovery s.kube_config ∷ h₂ in
        let h₄ = make_server (server_config s) ∷ h₃ in
        bind-holds P (perform host.answer (connect_auth s.kube_config)) _ h (auth h p) λ _ _ p.
          bind-holds P (perform host.answer (connect_store s.harikube_urls tls)) _ h₁
            (store tls e h₁ p)
            λ _ _ p.
              bind-holds P (perform host.answer (connect_discovery s.kube_config)) _ h₂
                (discovery h₂ p)
                λ _ _ p.
                  let p₄ = made h₃ p in
                  if-holds P (s.port == text "-1") (serve_socket host)
                    (perform host.answer start_server) h₄ (socket h₄ p₄) (started h₄ p₄)

  -- However Start ends, and whatever the libraries and the system answer, it has served only on an open
  -- listener, has closed the listener it opened, and has asked for the removal of the socket after
  -- that.
  pub start-clear :
      (h : List (Action KubeConfig Config))
      → socket_after h ≡ clear
      → socket_after (start host s h).1 ≡ clear
  unfolding socket_after step
  start-clear =
      let keep : (a : Action KubeConfig Config)
          → step clear a ≡ clear
          → (h : List (Action KubeConfig Config)) → socket_after h ≡ clear
          → socket_after (a ∷ h) ≡ clear =
        λ a q h e. ap (λ t. step t a) e ∙ q in
      start-holds (λ h. socket_after h ≡ clear) (keep _ refl) (λ tls _. keep _ refl) (keep _ refl)
        (keep _ refl) (serve_socket-clear host) (keep _ refl)

  store-IsSecure :
      (tls : Option Config)
      → client_config host.tls (tls_info s) s.harikube_urls ≡ ok tls
      → IsSecure {KubeConfig = KubeConfig} (connect_store s.harikube_urls tls)
  store-IsSecure none e = ((client_config-eq-none_iff host.tls (tls_info s) s.harikube_urls).0 e).1
  store-IsSecure (some c) e = tt

  -- Start never reaches a store at an https URL without TLS, whatever the libraries and the system
  -- answer.
  pub start-AreSecure :
      (h : List (Action KubeConfig Config)) → All IsSecure h → All IsSecure (start host s h).1
  start-AreSecure =
      start-holds (All IsSecure) (λ h p. (tt, p)) (λ tls e h p. (store-IsSecure tls e, p))
        (λ h p. (tt, p)) (λ h p. (tt, p)) (serve_socket-AreSecure host) (λ h p. (tt, p))
