-- ===== src/Tests/Texts.antt =====
-- The theorems on keys, paths, headers and flags, at small texts.
use api_extension.Prelude.{true, ◌≡◌, ◌↔◌, refl, false, some, [], ◌∷◌, ◌++◌, arith, All, ok}
use api_extension.Text.{text, ◌==◌}
use api_extension.Text.Strings.{has_prefix}
use api_extension.Text.Laws.{Lacks}
use api_extension.Api.{CountResponse}
use api_extension.Kube.{Gvk, Mapping, namespaced}
use api_extension.Helper.{contains, etcd_key}
use api_extension.Count.Covers.{Reaches, count_prefix-Reaches_iff}
use api_extension.Count.Handler.{count_namespace, count_prefix}
use api_extension.Server.{TlsInfo}
use api_extension.Transaction.{create, update}
use api_extension.Transaction.Resource.{resource_key}
use api_extension.Transaction.Keys.{resource_key-injective}
use api_extension.Tests.World.{shelf_codec, pods}

abbrev deployment : Gvk
deployment = record { group = text "apps"; version = text "v1"; kind = text "Deployment" }

abbrev deployments : Mapping
deployments = record pods { group = text "apps"; resource = text "deployments" }

no_slashes : All (Lacks b'/') (text "apps" ∷ text "deployments" ∷ text "a" ∷ [])
unfolding text
no_slashes = omega arith

no_slashes_either : All (Lacks b'/') (text "deployments" ∷ text "a" ∷ text "a" ∷ [])
unfolding text
no_slashes_either = omega arith

key_of_deployments :
    etcd_key shelf_codec deployment (text "a") (some deployments) []
    ≡ ok (text "/registry/apps/deployments/a/")
unfolding etcd_key contains text ◌==◌
key_of_deployments = refl

prefix_of_deployments :
    count_prefix shelf_codec [] (text "Deployment") deployments (text "a")
    ≡ ok (text "/registry/apps/deployments/a/")
unfolding count_prefix count_namespace etcd_key contains text ◌==◌
prefix_of_deployments = refl

count_prefix-Reaches_iff_example :
    (has_prefix
        (resource_key (text "/registry/apps/deployments/a/") (text "a") update)
        (text "/registry/apps/deployments/a/")
      ≡ true)
    ↔ ((text "deployments" ≡ text "deployments")
        × Reaches namespaced (text "a") namespaced (text "a"))
count_prefix-Reaches_iff_example =
    count_prefix-Reaches_iff shelf_codec [] (text "Deployment") deployments deployments deployment
      (text "a") (text "a") (text "a") (text "/registry/apps/deployments/a/")
      (text "/registry/apps/deployments/a/") update prefix_of_deployments key_of_deployments refl
      no_slashes no_slashes_either

a_free : Lacks b'/' (text "a")
unfolding text
a_free = omega arith

abbrev no_files : TlsInfo
no_files = record {
  cert_file = [];
  key_file = [];
  trusted_ca_file = [];
  insecure_skip_verify = false;
}

abbrev counted : CountResponse
counted = record {
  metadata = record {
    api_version = [];
    kind = [];
    namespace = [];
    name = [];
    creation_timestamp = 0;
    resource_version = [];
  };
  count = 3;
}

resource_key-injective_example :
    (text "/registry/pods/a/" ++ text "p#create" ≡ text "/registry/pods/a/" ++ text "p#create")
    × (create ≡ create)
resource_key-injective_example =
    resource_key-injective (text "/registry/pods/a/") (text "p#create") (text "/registry/pods/a/")
      (text "p#create") create create refl
