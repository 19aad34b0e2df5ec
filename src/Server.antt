-- ===== src/Server.antt =====
-- internal/apiserver/server.go: the API group and the TLS configuration of the HariKube client.
pub mod Tls
pub mod Serving
pub mod Start
pub mod Cleanup
pub mod History
pub mod Accounts
pub mod Sharing
pub mod Queries
pub mod Replies
use api_extension.Prelude.{
  Bool, false, ◌||◌, Option, none, some, List, [], ◌∷◌, if◌then◌else◌, Result, ok, err, and_then,
}
use api_extension.Text.{Text, text, ◌==◌}
use api_extension.Text.Strings.{has_prefix}

-- Group and Version
unfoldable pub group : Text
unfolding text
group = text "apiserver.api-extension.harikube.info"

unfoldable pub version : Text
unfolding text
version = text "v1"

-- transport.TLSInfo, as clientConfig fills it.
pub record TlsInfo : Type 0 where
  pub cert_file : Text
  pub key_file : Text
  pub trusted_ca_file : Text
  pub insecure_skip_verify : Bool

unfoldable pub any_https : List Text → Bool
any_https [] = false
any_https (url ∷ urls) = has_prefix url (text "https://") || any_https urls

-- clientConfig. `tls` is TLSInfo.ClientConfig of etcd's transport package, and `none` no TLS at all.
unfoldable pub client_config :
    {Config : Type 0}
    → (TlsInfo → Result Text Config)
    → TlsInfo
    → List Text
    → Result Text (Option Config)
unfolding any_https
client_config tls info urls =
    if info.cert_file == [] || info.key_file == [] || info.trusted_ca_file == []
    then if any_https urls then err (text "missing harikube TLS config") else ok none
    else and_then (tls info) (λ config. ok (some config))
