-- ===== src/Transaction/DryRun.antt =====
-- The dry run that validates an object.
use api_extension.Prelude.{◌≤◌, ◌<◌, ◌≡◌, ◌≢◌, ◌↔◌, ◌⊎◌, inl, inr, arith, [], ok, Result-cases}
use api_extension.Text.{Text, eq_iff}
use api_extension.Http.{ClientResponse}
use api_extension.Kube.{Mapping, root, Codec}
use api_extension.Transaction.{Operation, update}
use api_extension.Transaction.Resource.{read_response, transaction_resource_api_path}

-- A dry run gives an object's text exactly when its response could be read and has a status from 200
-- to 299, and then it gives the response's body; any other status is an error.
pub read_response-eq-ok_iff :
    (codec : Codec) (response : ClientResponse) (body : Text)
    → (read_response codec response ≡ ok body)
      ↔ ((response.body ≡ ok body) × (200 ≤ response.status_code) × (response.status_code < 300))
unfolding read_response
read_response-eq-ok_iff codec response body = (λ h. ground arith, λ h. ground arith)

-- A path for a dry run exists exactly when an update has a name and a namespaced object a namespace.
pub api_path-ok_iff :
    (resource : Mapping) (namespace : Text) (op : Operation) (name : Text)
    → ((path : Text) × (transaction_resource_api_path resource namespace op name ≡ ok path))
      ↔ (((op ≢ update) ⊎ (name ≢ [])) × ((resource.scope ≡ root) ⊎ (namespace ≢ [])))
unfolding transaction_resource_api_path
api_path-ok_iff resource namespace op name = (
  λ h. (ground (arith, eq_iff name []), ground (arith, eq_iff namespace [])),
  λ h. elim (Result-cases (transaction_resource_api_path resource namespace op name)) [
    | inl (path, e) ↦ (path, e)
    | inr (x, e) ↦ absurd (ground (arith, eq_iff name [], eq_iff namespace []))
  ],
)
