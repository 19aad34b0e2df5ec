-- ===== src/Cmd/Main.antt =====
-- cmd/main.go: main, from the values of the flags to the start of the manager.
-- A run is the list of the calls of controller-runtime that it has made, the last one first.
use api_extension.Prelude.{
  Bool, true, false, Option, none, some, List, [], ◌∷◌, if◌then◌else◌, ok, err, Exec, lift, ◌>>=◌,
  ◌>>◌, perform,
}
use api_extension.Text.{Text, text, ◌==◌}
use api_extension.Text.Strings.{trim_space}
use api_extension.Decision.Handler.{default_decision_maker_url}
use api_extension.Server.Start.{SearchApiServer}
use api_extension.Cmd.{
  Stat, Exit, unable_to_start_manager, unable_to_set_up_health_check, unable_to_set_up_ready_check,
  unable_to_add_api_server, problem_running_manager, no_kube_config, check_file,
  split_comma_separated, split_comma_separated_preserve_empty,
}

-- The variables of the flags.
pub record Flags (Duration : Type 0) : Type 0 where
  pub metrics_addr : Text
  pub metrics_cert_path : Text
  pub metrics_cert_name : Text
  pub metrics_cert_key : Text
  pub webhook_cert_path : Text
  pub webhook_cert_name : Text
  pub webhook_cert_key : Text
  pub enable_leader_election : Bool
  pub probe_addr : Text
  pub secure_metrics : Bool
  pub enable_http2 : Bool
  pub api_server_port : Text
  pub api_server_cert_file : Text
  pub api_server_key_file : Text
  pub core_resources : Text
  pub harikube_urls : Text
  pub harikube_cert_file : Text
  pub harikube_key_file : Text
  pub harikube_ca_file : Text
  pub harikube_skip_verify : Bool
  pub decision_maker_url : Text
  pub decision_maker_timeout : Duration

-- The values of the flags that the command line does not set. `timeout` is
-- DefaultDecisionMakerTimeout().
unfoldable pub default_flags : {Duration : Type 0} → Duration → Flags Duration
default_flags timeout = record {
  metrics_addr = text "0";
  metrics_cert_path = [];
  metrics_cert_name = text "tls.crt";
  metrics_cert_key = text "tls.key";
  webhook_cert_path = [];
  webhook_cert_name = text "tls.crt";
  webhook_cert_key = text "tls.key";
  enable_leader_election = false;
  probe_addr = text ":8081";
  secure_metrics = true;
  enable_http2 = false;
  api_server_port = text ":7443";
  api_server_cert_file = [];
  api_server_key_file = [];
  core_resources = [];
  harikube_urls = [];
  harikube_cert_file = [];
  harikube_key_file = [];
  harikube_ca_file = [];
  harikube_skip_verify = false;
  decision_maker_url = default_decision_maker_url;
  decision_maker_timeout = timeout;
}

-- A `func(*tls.Config)`, by what it makes of NextProtos, the one field that main's sets.
abbrev pub TlsOption : Type 0
TlsOption = List Text → List Text

unfoldable pub disable_http2 : TlsOption
disable_http2 next_protos = text "http/1.1" ∷ []

-- webhook.Options
pub record WebhookOptions : Type 0 where
  pub tls_opts : List TlsOption
  pub cert_dir : Text
  pub cert_name : Text
  pub key_name : Text

-- metricsserver.Options. `authenticated` is a FilterProvider, filters.WithAuthenticationAndAuthorization.
pub record MetricsOptions : Type 0 where
  pub bind_address : Text
  pub secure_serving : Bool
  pub tls_opts : List TlsOption
  pub authenticated : Bool
  pub cert_dir : Text
  pub cert_name : Text
  pub key_name : Text

-- ctrl.Options; the scheme is that of init.
pub record ManagerOptions : Type 0 where
  pub metrics : MetricsOptions
  pub webhook_server : WebhookOptions
  pub health_probe_bind_address : Text
  pub leader_election : Bool
  pub leader_election_id : Text

pub data Action (KubeConfig Duration : Type 0) : Type 0 where
  get_config : Action KubeConfig Duration
  new_manager : KubeConfig → ManagerOptions → Action KubeConfig Duration
  add_healthz_check add_readyz_check : Action KubeConfig Duration
  add_server : SearchApiServer KubeConfig Duration → Action KubeConfig Duration
  start_manager : Action KubeConfig Duration

-- The system and controller-runtime: os.Stat, filepath.Clean, ctrl.GetConfigOrDie, which exits the
-- program where it has no configuration, and whether the other calls fail.
pub record Platform (KubeConfig Duration : Type 0) : Type 0 where
  pub stat : Text → Stat
  pub clean : Text → Text
  pub kube_config : List (Action KubeConfig Duration) → Option KubeConfig
  pub fails : Action KubeConfig Duration → List (Action KubeConfig Duration) → Bool

module _ {Duration : Type 0} (flags : Flags Duration) where
  unfoldable pub tls_opts : List TlsOption
  tls_opts = if flags.enable_http2 then [] else disable_http2 ∷ []

  unfoldable pub webhook_server_options : WebhookOptions
  unfolding tls_opts
  webhook_server_options = record {
    tls_opts = tls_opts;
    cert_dir = flags.webhook_cert_path;
    cert_name = if flags.webhook_cert_path == [] then [] else flags.webhook_cert_name;
    key_name = if flags.webhook_cert_path == [] then [] else flags.webhook_cert_key;
  }

  unfoldable pub metrics_server_options : MetricsOptions
  unfolding tls_opts
  metrics_server_options = record {
    bind_address = flags.metrics_addr;
    secure_serving = flags.secure_metrics;
    tls_opts = tls_opts;
    authenticated = flags.secure_metrics;
    cert_dir = flags.metrics_cert_path;
    cert_name = if flags.metrics_cert_path == [] then [] else flags.metrics_cert_name;
    key_name = if flags.metrics_cert_path == [] then [] else flags.metrics_cert_key;
  }

  unfoldable pub manager_options : ManagerOptions
  unfolding webhook_server_options metrics_server_options
  manager_options = record {
    metrics = metrics_server_options;
    webhook_server = webhook_server_options;
    health_probe_bind_address = flags.probe_addr;
    leader_election = flags.enable_leader_election;
    leader_election_id = text "b201d9ae.harikube.info";
  }

  -- apiserver.New, with the files that the checks left.
  unfoldable pub api_server :
      {KubeConfig : Type 0} → KubeConfig → Text → Text → Text → SearchApiServer KubeConfig Duration
  api_server config cert_file key_file ca_file = record {
    kube_config = config;
    port = flags.api_server_port;
    cert_file = flags.api_server_cert_file;
    key_file = flags.api_server_key_file;
    core_resources = split_comma_separated_preserve_empty flags.core_resources;
    harikube_urls = split_comma_separated (trim_space flags.harikube_urls);
    harikube_cert_file = cert_file;
    harikube_key_file = key_file;
    harikube_ca_file = ca_file;
    harikube_skip_verify = flags.harikube_skip_verify;
    decision_maker_url = flags.decision_maker_url;
    decision_maker_timeout = flags.decision_maker_timeout;
  }

module _ {KubeConfig Duration : Type 0} (platform : Platform KubeConfig Duration) where
  unfoldable pub get_config_or_die : Exec (List (Action KubeConfig Duration)) Exit KubeConfig
  get_config_or_die h = elim (platform.kube_config h) [
    | some config ↦ (ok config, get_config ∷ h)
    | none ↦ (err no_kube_config, get_config ∷ h)
  ]

  -- `if err := call(); err != nil { …; os.Exit(1) }`
  abbrev pub or_exit :
      Action KubeConfig Duration → Exit → Exec (List (Action KubeConfig Duration)) Exit (Unit {0})
  or_exit call exit = perform (λ a h. if platform.fails a h then some exit else none) call

  -- main, from the calls of controller-runtime on.
  unfoldable pub run_manager :
      Flags Duration → Text → Text → Text → Exec (List (Action KubeConfig Duration)) Exit (Unit {0})
  unfolding get_config_or_die
  run_manager flags cert_file key_file ca_file = do
    config ← get_config_or_die
    or_exit (new_manager config (manager_options flags)) unable_to_start_manager
    or_exit add_healthz_check unable_to_set_up_health_check
    or_exit add_readyz_check unable_to_set_up_ready_check
    config ← get_config_or_die
    or_exit (add_server (api_server flags config cert_file key_file ca_file))
        unable_to_add_api_server
    or_exit start_manager problem_running_manager

  -- main, once the flags are parsed.
  unfoldable pub main : Flags Duration → Exec (List (Action KubeConfig Duration)) Exit (Unit {0})
  unfolding run_manager
  main flags = do
    cert_file ← lift (check_file (λ file. file) platform.stat flags.harikube_cert_file)
    key_file ← lift (check_file platform.clean platform.stat flags.harikube_key_file)
    ca_file ← lift (check_file platform.clean platform.stat flags.harikube_ca_file)
    run_manager flags cert_file key_file ca_file
