-- ===== src/Server/Start.antt =====
-- internal/apiserver/server.go: what Start does between its first call and its return.
-- A run is the list of the calls that it has made, the last one first. What a call answers is up to
-- the libraries and the system: a function of the call and of those before it.
use api_extension.Prelude.{
  Bool, true, false, Option, none, some, List, [], ◌∷◌, ◌++◌, if◌then◌else◌, Result, ok, err, Exec,
  lift, ◌>>=◌, ◌>>◌, perform, note, deferred,
}
use api_extension.Text.{Text, text, ◌==◌}
use api_extension.Server.{TlsInfo, client_config, group, version}

-- metav1.APIResource, as the four kinds fill it.
pub record ApiResource : Type 0 where
  pub name : Text
  pub singular_name : Text
  pub namespaced : Bool
  pub kind : Text
  pub verbs : List Text

abbrev pub counts : ApiResource
counts = record {
  name = text "counts";
  singular_name = text "count";
  namespaced = true;
  kind = text "Count";
  verbs = text "list" ∷ [];
}

abbrev pub transaction_requests : ApiResource
transaction_requests = record {
  name = text "transactionrequests";
  singular_name = text "transactionrequest";
  namespaced = true;
  kind = text "TransactionRequest";
  verbs = text "create" ∷ [];
}

abbrev pub queries : ApiResource
queries = record {
  name = text "queries";
  singular_name = [];
  namespaced = true;
  kind = text "Query";
  verbs = text "create" ∷ [];
}

abbrev pub decision_requests : ApiResource
decision_requests = record {
  name = text "decisionrequests";
  singular_name = text "decisionrequest";
  namespaced = true;
  kind = text "DecisionRequest";
  verbs = text "create" ∷ [];
}

-- kaf.ServerConfig
pub record ServerConfig : Type 0 where
  pub port : Text
  pub cert_file : Text
  pub key_file : Text
  pub group : Text
  pub version : Text
  pub api_kinds : List ApiResource

-- searchAPIServer, as New fills it. The configuration of the API server's client and a duration are
-- values of libraries.
pub record SearchApiServer (KubeConfig Duration : Type 0) : Type 0 where
  pub kube_config : KubeConfig
  pub port : Text
  pub cert_file : Text
  pub key_file : Text
  pub core_resources : List Text
  pub harikube_urls : List Text
  pub harikube_cert_file : Text
  pub harikube_key_file : Text
  pub harikube_ca_file : Text
  pub harikube_skip_verify : Bool
  pub decision_maker_url : Text
  pub decision_maker_timeout : Duration

-- The calls of Start. `connect_store` is clientv3.New with the endpoints and the TLS configuration,
-- `serve` the goroutine that runs srv.Serve, `wait` the select, and `start_server` s.Server.Start.
-- A listener that net.Listen gives is in the list as `listen true`, a failure as `listen false`.
pub data Action (KubeConfig Config : Type 0) : Type 0 where
  connect_auth connect_discovery : KubeConfig → Action KubeConfig Config
  connect_store : List Text → Option Config → Action KubeConfig Config
  make_server : ServerConfig → Action KubeConfig Config
  remove_socket : Action KubeConfig Config
  listen : Bool → Action KubeConfig Config
  serve close_listener wait shut_down start_server : Action KubeConfig Config

-- What os.Remove answers: nil, os.ErrNotExist, or another error.
pub data Removal : Type 0 where
  removed not_exist : Removal
  not_removed : Text → Removal

-- What srv.Serve answers: nil, http.ErrServerClosed, or another error.
pub data Served : Type 0 where
  served server_closed : Served
  serve_failed : Text → Served

-- The branch of the select: the channel of errors, after srv.Serve has returned, or the end of the
-- context. Where both are ready the runtime chooses.
pub data Wake : Type 0 where
  from_server : Served → Wake
  context_done : Wake

-- The libraries and the system. `tls` is TLSInfo.ClientConfig of etcd's transport package; `answer`
-- is the error of each call that gives just an error.
pub record Host (KubeConfig Config : Type 0) : Type 0 where
  pub tls : TlsInfo → Result Text Config
  pub answer : Action KubeConfig Config → List (Action KubeConfig Config) → Option Text
  pub remove : List (Action KubeConfig Config) → Removal
  pub listen_error : List (Action KubeConfig Config) → Option Text
  pub woken : List (Action KubeConfig Config) → Wake

module _ {KubeConfig Config : Type 0} (host : Host KubeConfig Config) where
  -- The first os.Remove: a socket that is not there is no error.
  unfoldable pub remove_stale : Exec (List (Action KubeConfig Config)) Text (Unit {0})
  remove_stale h = elim (host.remove h) [
    | removed ↦ (ok tt, remove_socket ∷ h)
    | not_exist ↦ (ok tt, remove_socket ∷ h)
    | not_removed e ↦ (err e, remove_socket ∷ h)
  ]

  -- net.Listen
  unfoldable pub listen_on_socket : Exec (List (Action KubeConfig Config)) Text (Unit {0})
  listen_on_socket h = elim (host.listen_error h) [
    | none ↦ (ok tt, listen true ∷ h)
    | some e ↦ (err (text "failed to listen on unix socket: " ++ e), listen false ∷ h)
  ]

  -- What the channel gives: the error of srv.Serve, or nil from a channel that was closed.
  unfoldable pub channel_error : Served → Result Text (Unit {0})
  channel_error served = ok tt
  channel_error server_closed = ok tt
  channel_error (serve_failed e) = err e

  unfoldable pub after_wake : Wake → Exec (List (Action KubeConfig Config)) Text (Unit {0})
  unfolding channel_error
  after_wake (from_server r) = lift (channel_error r)
  after_wake context_done = perform host.answer shut_down

  -- The goroutine, the select, and the shutdown at the end of the context.
  unfoldable pub serve_until_done : Exec (List (Action KubeConfig Config)) Text (Unit {0})
  unfolding after_wake
  serve_until_done h = after_wake (host.woken (serve ∷ h)) (wait ∷ serve ∷ h)

  -- The branch of the port "-1".
  unfoldable pub serve_socket : Exec (List (Action KubeConfig Config)) Text (Unit {0})
  unfolding remove_stale listen_on_socket serve_until_done
  serve_socket =
      deferred remove_socket
        do remove_stale; listen_on_socket; deferred close_listener serve_until_done

module _ {KubeConfig Duration : Type 0} (s : SearchApiServer KubeConfig Duration) where
  -- The transport.TLSInfo of clientConfig.
  abbrev pub tls_info : TlsInfo
  tls_info = record {
    cert_file = s.harikube_cert_file;
    key_file = s.harikube_key_file;
    trusted_ca_file = s.harikube_ca_file;
    insecure_skip_verify = s.harikube_skip_verify;
  }

  abbrev pub server_config : ServerConfig
  server_config = record {
    port = s.port;
    cert_file = s.cert_file;
    key_file = s.key_file;
    group = group;
    version = version;
    api_kinds = counts ∷ transaction_requests ∷ queries ∷ decision_requests ∷ [];
  }

module _ {KubeConfig Config Duration : Type 0} (host : Host KubeConfig Config)
    (s : SearchApiServer KubeConfig Duration) where
  -- Start
  unfoldable pub start : Exec (List (Action KubeConfig Config)) Text (Unit {0})
  unfolding serve_socket
  start = do
    tls ← lift (client_config host.tls (tls_info s) s.harikube_urls)
    perform host.answer (connect_auth s.kube_config)
    perform host.answer (connect_store s.harikube_urls tls)
    perform host.answer (connect_discovery s.kube_config)
    note (make_server (server_config s))
    if s.port == text "-1" then serve_socket host else perform host.answer start_server
