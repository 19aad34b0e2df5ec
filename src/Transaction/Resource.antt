-- ===== src/Transaction/Resource.antt =====
-- internal/apiserver/transaction.go: transactionResourceMap, with the dry run of
-- validateAndDefaultTransactionResource.
use api_extension.Prelude.{
  ℕ, ◌++◌, Bool, true, false, not, ◌&&◌, ◌||◌, Option, none, some, List, [], ◌∷◌, if◌then◌else◌,
  ltb, leb, Result, ok, err, and_then, map_err, Exec, pure, fail, lift, with_err, ◌>>=◌,
}
use api_extension.Text.{Text, text, ◌==◌}
use api_extension.Text.Strings.{trim_space}
use api_extension.Value.{Fields}
use api_extension.Http.{ClientRequest, ClientResponse}
use api_extension.Kube.{
  Gvk, Mapping, Backend, Codec, RestClient, no_client, other_client, rest_client,
}
use api_extension.Helper.{is_root, get_resource, etcd_key}
use api_extension.Transaction.{
  Operation, update, delete, operation_name, api_version_of, kind_of, gvk_of,
}

abbrev pub is_update : Operation → Bool
is_update update = true
is_update _ = false

abbrev pub is_delete : Operation → Bool
is_delete delete = true
is_delete _ = false

abbrev missing_name : Operation → Text
missing_name op = text "missing metadata.name in " ++ operation_name op ++ text " resource"

-- The part of the path in front of the resource's name.
unfoldable pub api_base : Mapping → Text
api_base resource =
    if resource.group == []
    then text "/api/" ++ resource.version
    else text "/apis/" ++ resource.group ++ text "/" ++ resource.version

-- transactionResourceAPIPath, for a mapping that is not nil.
unfoldable pub transaction_resource_api_path : Mapping → Text → Operation → Text → Result Text Text
unfolding api_base
transaction_resource_api_path resource namespace op name =
    if is_update op && name == []
    then err (missing_name op)
    else if not (is_root resource.scope) && namespace == []
    then err (text "missing namespace for " ++ resource.resource ++ text " resource")
    else ok (
        api_base resource
        ++ (if is_root resource.scope then [] else text "/namespaces/" ++ namespace)
        ++ text "/"
        ++ resource.resource
        ++ (if is_update op then text "/" ++ name else []))

-- A status from 200 to 299.
unfoldable pub is_success : ℕ → Bool
is_success code = not (ltb code 200 || leb 300 code)

abbrev message_of : Result Text Text → Text
message_of (ok message) = message
message_of (err e) = []

-- The error of a response that is no success: the message of its Status, or its text, or its status
-- line.
unfoldable pub response_error : Codec → ClientResponse → Text → Text
response_error codec response body =
    let message = message_of (codec.unmarshal_status body) in
    let trimmed = trim_space body in
    if not (message == [])
    then message
    else if not (trimmed == [])
    then trimmed
    else text "validation request failed: " ++ response.status

-- What is made of a response: an error of reading its body, then its status.
unfoldable pub read_response : Codec → ClientResponse → Result Text Text
unfolding is_success
read_response codec response = and_then response.body λ body.
    if is_success response.status_code then ok body else err (response_error codec response body)

unfoldable pub validation_request : Text → Operation → Text → Text → ClientRequest
validation_request url op path body = record {
  method = if is_update op then text "PUT" else text "POST";
  endpoint = url;
  path = path;
  query =
      (text "dryRun", text "All" ∷ [])
      ∷ (text "fieldValidation", text "Strict" ∷ [])
      ∷ (text "fieldManager", text "api-extension-transaction" ∷ [])
      ∷ [];
  header =
      (text "Accept", text "application/json" ∷ [])
      ∷ (text "Content-Type", text "application/json" ∷ [])
      ∷ [];
  body = body;
}

-- The path and the body of a dry run.
unfoldable pub dry_run_parts :
    Codec → Mapping → Operation → Text → Fields → Result Text (Text × Text)
dry_run_parts codec resource op namespace obj =
    and_then (transaction_resource_api_path resource namespace op (codec.get_name obj)) λ path.
      and_then (map_err (λ e. text "marshal resource: " ++ e) (codec.json_marshal obj))
        λ body. ok (path, body)

module _ {World : Type 0} (env : Backend World) (codec : Codec) where
  -- executeTransactionValidationRequest, for a client that is not nil.
  unfoldable pub execute_validation_request :
      RestClient → Operation → Text → Text → Exec World Text Text
  execute_validation_request (rest_client url) op path body = do
    response ← env.http_do (validation_request url op path body)
    lift (read_response codec response)
  execute_validation_request (other_client name) op path body =
      fail (text "unsupported REST client " ++ name)
  execute_validation_request no_client op path body = fail (text "unsupported REST client <nil>")

  -- The dry run of an object at a path, and the object that comes back.
  unfoldable pub send_object : RestClient → Operation → Text → Text → Exec World Text Fields
  send_object client op path body = do
    answer ← execute_validation_request client op path body
    lift (map_err (λ e. text "decode validated resource: " ++ e) (codec.unmarshal_object answer))

  abbrev pub dry_run : RestClient → Mapping → Operation → Text → Fields → Exec World Text Fields
  dry_run client resource op namespace obj = do
    parts ← lift (dry_run_parts codec resource op namespace obj)
    send_object client op parts.0 parts.1

  -- validateAndDefaultTransactionResource. The object that it returns is never nil.
  unfoldable pub validate_and_default :
      RestClient → Mapping → Operation → Text → Fields → Exec World Text Fields
  validate_and_default no_client resource op namespace obj = pure obj
  validate_and_default client resource op namespace obj = dry_run client resource op namespace obj

-- The namespace of an object: its own, or that of the request; none for a cluster-wide resource.
unfoldable pub object_namespace : Codec → Mapping → Text → Fields → Text
object_namespace codec resource namespace obj =
    if is_root resource.scope
    then []
    else if codec.get_namespace obj == []
    then namespace
    else codec.get_namespace obj

-- The object with the namespace of the request put in, where it has none of its own.
unfoldable pub with_namespace : Codec → Mapping → Text → Fields → Fields
with_namespace codec resource namespace obj =
    if not (is_root resource.scope) && codec.get_namespace obj == [] && not (namespace == [])
    then codec.set_namespace namespace obj
    else obj

-- `resources[key] = value`
unfoldable pub put_resource : Text → Text → List (Text × Text) → List (Text × Text)
put_resource k v [] = (k, v) ∷ []
put_resource k v ((j, u) ∷ m) = if j == k then (j, v) ∷ m else (j, u) ∷ put_resource k v m

-- The key of a write: the key of the object, and the operation behind a `#`.
unfoldable pub resource_key : Text → Text → Operation → Text
resource_key prefix name op = prefix ++ name ++ text "#" ++ operation_name op

-- The end of transactionResourceMap: the key and the value of a checked object.
unfoldable pub store_object :
    Codec
    → List Text
    → Operation
    → Gvk
    → Mapping
    → Text
    → Fields
    → List (Text × Text)
    → Result Text (List (Text × Text))
store_object codec core op gvk resource namespace obj resources =
    and_then
      (map_err (λ e. text "failed to build etcd key for " ++ codec.gvk_string gvk ++ text ": " ++ e)
        (etcd_key codec gvk namespace (some resource) core))
      λ prefix.
        if codec.get_name obj == []
        then err (missing_name op)
        else and_then
            (map_err
              (λ e. text "failed to marshal " ++ operation_name op ++ text " resource: " ++ e)
              (codec.yaml_marshal obj))
            λ value. ok (put_resource (resource_key prefix (codec.get_name obj) op) value resources)

module _ {World : Type 0} (env : Backend World) (codec : Codec) (client : RestClient)
    (core : List Text) where
  -- A create or an update is validated and defaulted by a dry run, and a delete is taken as it is.
  unfoldable pub checked_object : Operation → Mapping → Text → Fields → Exec World Text Fields
  checked_object delete resource namespace obj = pure obj
  checked_object op resource namespace obj =
      with_err (λ e. text "failed to validate " ++ operation_name op ++ text " resource: " ++ e)
        (validate_and_default env codec client resource op namespace obj)

  unfoldable pub map_object :
      Operation
      → Text
      → Fields
      → Gvk
      → Mapping
      → List (Text × Text)
      → Exec World Text (List (Text × Text))
  map_object op namespace obj gvk resource resources =
      let ns = object_namespace codec resource namespace obj in
      do
        checked ← checked_object op resource ns (with_namespace codec resource namespace obj)
        let ns' = if is_delete op then ns else object_namespace codec resource ns checked
        lift (store_object codec core op gvk resource ns' checked resources)

  abbrev pub map_found :
      Operation
      → Text
      → Fields
      → Gvk
      → List (Text × Text)
      → Result Text (Option Mapping)
      → Exec World Text (List (Text × Text))
  map_found op namespace obj gvk resources (err e) =
      fail (text "failed to get resource mapping for " ++ codec.gvk_string gvk ++ text ": " ++ e)
  map_found op namespace obj gvk resources (ok none) =
      fail (text "resource not found for " ++ codec.gvk_string gvk)
  map_found op namespace obj gvk resources (ok (some resource)) =
      map_object op namespace obj gvk resource resources

  abbrev pub map_decoded :
      Operation
      → Text
      → List (Text × Text)
      → Result Text Fields
      → Exec World Text (List (Text × Text))
  map_decoded op namespace resources (err e) = fail e
  map_decoded op namespace resources (ok obj) =
      if api_version_of obj == []
      then fail (text "missing apiVersion in " ++ operation_name op ++ text " resource")
      else if kind_of obj == []
      then fail (text "missing kind in " ++ operation_name op ++ text " resource")
      else λ w.
          let (found, w') = get_resource env (gvk_of obj) w in
          map_found op namespace obj (gvk_of obj) resources found w'

  -- transactionResourceMap: the new map of resources, or an error.
  unfoldable pub transaction_resource_map :
      Operation → Text → Text → List (Text × Text) → Exec World Text (List (Text × Text))
  transaction_resource_map op namespace entry resources =
      map_decoded op namespace resources (codec.decode_object entry)
