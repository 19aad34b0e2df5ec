-- ===== src/Cmd/Servers.antt =====
-- The servers that main of cmd/main.go hands to the manager.
use api_extension.Prelude.{zero, false, List, [], ◌∷◌, err, ◌≡◌, refl, arith, All, ◌⊎◌, Result}
use api_extension.Text.{Text, text, eq_iff}
use api_extension.Text.Strings.{trim_space}
use api_extension.Server.{TlsInfo, client_config}
use api_extension.Server.Tls.{IsPlain, any_https-eq-false, IsPartial}
use api_extension.Server.Start.{SearchApiServer, Host, start, tls_info}
use api_extension.Server.Start as Server
use api_extension.Cmd.{Stat, present, split_comma_separated}
use api_extension.Cmd.Main.{
  Flags, TlsOption, disable_http2, Action, new_manager, add_server, Platform, tls_opts,
  webhook_server_options, metrics_server_options, manager_options, api_server, main,
}
use api_extension.Cmd.Startup.{IsChecked, main-holds}

client_config-missing :
    {Config : Type 0} (tls : TlsInfo → Result Text Config) (info : TlsInfo) (urls : List Text)
    → IsPartial info
    → ¬ All IsPlain urls
    → client_config tls info urls ≡ err (text "missing harikube TLS config")
unfolding client_config
client_config-missing tls info urls h k =
    let plain = any_https-eq-false urls in
    ground (
      arith,
      plain,
      eq_iff info.cert_file [],
      eq_iff info.key_file [],
      eq_iff info.trusted_ca_file [],
    )

-- A flag that names no file, or an empty one.
abbrev pub IsUnset : (Text → Text) → (Text → Stat) → Text → Type 0
IsUnset clean stat flag = (flag ≡ []) ⊎ (stat (clean flag) ≡ present zero)

IsChecked-unset :
    (clean : Text → Text) (stat : Text → Stat) (flag file : Text)
    → IsChecked clean stat flag file
    → IsUnset clean stat flag
    → file ≡ []
IsChecked-unset clean stat flag file h k = ground arith

module _ {KubeConfig Config Duration : Type 0} where
  start-missing :
      (host : Host KubeConfig Config) (s : SearchApiServer KubeConfig Duration)
      (run : List (Server.Action KubeConfig Config)) (e : Text)
      → client_config host.tls (tls_info s) s.harikube_urls ≡ err e
      → start host s run ≡ (err e, run)
  unfolding start
  start-missing host s run e h = rw h refl

  -- A server that does not start: it returns the error before its first call.
  abbrev pub IsRefused :
      Host KubeConfig Config
      → List (Server.Action KubeConfig Config)
      → Action KubeConfig Duration
      → Type 0
  IsRefused host run (add_server s) =
      start host s run ≡ (err (text "missing harikube TLS config"), run)
  IsRefused host run call = Unit {0}

  -- Where a URL of the flag is https, and one of the three flags of the files of HariKube names none or
  -- an empty file, every server that main hands to the manager fails to start with the same error,
  -- before it has called anything.
  pub main-AreRefused :
      (platform : Platform KubeConfig Duration) (flags : Flags Duration)
      (host : Host KubeConfig Config) (run : List (Server.Action KubeConfig Config))
      → ¬ All IsPlain (split_comma_separated (trim_space flags.harikube_urls))
      → IsUnset (λ file. file) platform.stat flags.harikube_cert_file
        ⊎ (IsUnset platform.clean platform.stat flags.harikube_key_file
            ⊎ IsUnset platform.clean platform.stat flags.harikube_ca_file)
      → All (IsRefused host run) (main platform flags []).1
  unfolding api_server
  main-AreRefused platform flags host run secure unset =
      main-holds platform flags (All (IsRefused host run)) (λ h p. (tt, p)) (λ _ h p. (tt, p))
        (λ h p. (tt, p)) (λ h p. (tt, p))
        (λ config cert_file key_file ca_file c k a h p.
          let s = api_server flags config cert_file key_file ca_file in
          let partial : IsPartial (tls_info s) = ground (
            arith,
            IsChecked-unset (λ file. file) platform.stat flags.harikube_cert_file cert_file c,
            IsChecked-unset platform.clean platform.stat flags.harikube_key_file key_file k,
            IsChecked-unset platform.clean platform.stat flags.harikube_ca_file ca_file a,
          ) in
          (
            start-missing host s run (text "missing harikube TLS config")
                (client_config-missing host.tls (tls_info s) s.harikube_urls partial secure),
            p,
          ))
        (λ h p. (tt, p)) [] tt

-- What a server makes of NextProtos, which by then may hold anything.
abbrev pub next_protos_of : List TlsOption → List Text → List Text
next_protos_of [] protos = protos
next_protos_of (o ∷ opts) protos = next_protos_of opts (o protos)

module _ {KubeConfig Duration : Type 0} where
  -- The webhook and the metrics server of a manager speak nothing but HTTP/1.1.
  abbrev pub IsHttp1 : List Text → Action KubeConfig Duration → Type 0
  IsHttp1 protos (new_manager config o) =
      (next_protos_of o.webhook_server.tls_opts protos ≡ text "http/1.1" ∷ [])
      × (next_protos_of o.metrics.tls_opts protos ≡ text "http/1.1" ∷ [])
  IsHttp1 protos call = Unit {0}

  -- Unless HTTP/2 is enabled, both servers of every manager that main makes speak nothing but HTTP/1.1.
  pub main-AreHttp1 :
      (platform : Platform KubeConfig Duration) (flags : Flags Duration) (protos : List Text)
      → flags.enable_http2 ≡ false
      → All (IsHttp1 protos) (main platform flags []).1
  unfolding manager_options webhook_server_options metrics_server_options tls_opts disable_http2
  main-AreHttp1 platform flags protos off =
      main-holds platform flags (All (IsHttp1 protos)) (λ h p. (tt, p))
        (λ config h p. ((rw off refl, rw off refl), p)) (λ h p. (tt, p)) (λ h p. (tt, p))
        (λ config cert_file key_file ca_file c k a h p. (tt, p)) (λ h p. (tt, p)) [] tt
