-- ===== src/Transaction.antt =====
-- internal/apiserver/transaction.go: the request, its namespace, and the keys of the store.
pub mod Resource
pub mod Authorize
pub mod Handler
pub mod Reviews
pub mod Cache
pub mod Frame
pub mod Commits
pub mod Created
pub mod Effect
pub mod Ledger
pub mod Puts
pub mod Mapped
pub mod Written
pub mod Granted
pub mod Last
pub mod Keys
pub mod Paths
pub mod Generated
pub mod Names
pub mod DryRun
pub mod Asked
pub mod Audit
pub mod Documents
use api_extension.Prelude.{
  ℕ, ◌++◌, Bool, true, false, not, ◌&&◌, Option, none, some, List, [], ◌∷◌, if◌then◌else◌, Result,
  ok, err, and_then, map_err,
}
use api_extension.Text.{Text, text, ◌==◌}
use api_extension.Text.Strings.{split, trim_slash, trim_space}
use api_extension.Value.{Value, Fields, string_or_empty, lookup}
use api_extension.Http.{Request, bad_request}
use api_extension.Kube.{Gvk, Codec, TransactionPayload}

-- transactionOperationCreate, transactionOperationUpdate, transactionOperationDelete
pub data Operation : Type 0 where
  create update delete : Operation

-- The text of an operation, which is also the verb of its access review.
unfoldable pub operation_name : Operation → Text
unfolding text
operation_name create = text "create"
operation_name update = text "update"
operation_name delete = text "delete"

-- transactionRequest
pub record TransactionRequest : Type 0 where
  pub name : Text
  pub namespace : Text
  pub create : List Text
  pub update : List Text
  pub delete : List Text

-- marshalEntries
unfoldable pub marshal_entries : Codec → List Fields → Result Text (List Text)
marshal_entries codec [] = ok []
marshal_entries codec (entry ∷ entries) =
    and_then (codec.yaml_marshal entry)
      λ bytes. and_then (marshal_entries codec entries) λ rest. ok (bytes ∷ rest)

abbrev prefixed : Text → Text → Text
prefixed p e = p ++ e

-- decodeTransactionRequest
unfoldable pub decode_transaction_request : Codec → Text → Result Text TransactionRequest
decode_transaction_request codec body = and_then (codec.unmarshal_transaction body) λ payload.
    and_then
      (map_err (prefixed (text "marshal create resources: "))
        (marshal_entries codec payload.create))
      λ creates.
        and_then
          (map_err (prefixed (text "marshal update resources: "))
            (marshal_entries codec payload.update))
          λ updates.
            and_then
              (map_err (prefixed (text "marshal delete resources: "))
                (marshal_entries codec payload.delete))
              λ deletes. ok (record {
                name = string_or_empty (lookup (text "name") payload.metadata);
                namespace = string_or_empty (lookup (text "namespace") payload.metadata);
                create = creates;
                update = updates;
                delete = deletes;
              })

-- The loop of transactionRequestNamespace.
unfoldable pub find_namespace : List Text → Text
find_namespace [] = []
find_namespace (p ∷ []) = []
find_namespace (p ∷ q ∷ ps) =
    if p == text "namespaces" && not (q == []) then q else find_namespace (q ∷ ps)

-- transactionRequestNamespace
unfoldable pub transaction_request_namespace : Text → Text
unfolding find_namespace
transaction_request_namespace path = find_namespace (split (trim_slash path) b'/')

-- transactionStorageKey
unfoldable pub transaction_storage_key : Text → Text → Text
transaction_storage_key namespace name =
    text "/harikube/transaction/" ++ namespace ++ text "/" ++ name

-- The results of parseTransactionAndNamespace: a status other than 0 with its message, a plain
-- error, or the request with its namespace.
pub data Parsed : Type 0 where
  rejected : ℕ → Text → Parsed
  failed : Text → Parsed
  parsed : TransactionRequest → Text → Parsed

-- The namespace that the caller or the path names, before that of the body.
unfoldable pub path_namespace : Text → Text → Text
path_namespace namespace path =
    if namespace == [] then transaction_request_namespace path else namespace

-- The end of parseTransactionAndNamespace.
unfoldable pub settle_namespace : TransactionRequest → Text → Parsed
settle_namespace transaction namespace =
    if not (transaction.namespace == [])
      && not (namespace == [])
      && not (transaction.namespace == namespace)
    then rejected bad_request (text "metadata.namespace does not match request namespace")
    else parsed transaction (if namespace == [] then transaction.namespace else namespace)

unfoldable pub parse_body : Codec → Text → Text → Text → Parsed
unfolding settle_namespace path_namespace
parse_body codec namespace path body =
    if trim_space body == []
    then rejected bad_request (text "empty body")
    else elim (decode_transaction_request codec body) [
      | err e ↦ failed e
      | ok transaction ↦ settle_namespace transaction (path_namespace namespace path)
    ]

-- parseTransactionAndNamespace. The message of a failed read is dropped.
unfoldable pub parse_transaction_and_namespace : Codec → Request → Text → Parsed
unfolding parse_body
parse_transaction_and_namespace codec r namespace = elim r.body [
  | err e ↦ rejected bad_request []
  | ok body ↦ parse_body codec namespace r.path body
]

abbrev gvk_of_parts : Text → List Text → Gvk
gvk_of_parts kind [] = record { group = []; version = []; kind = kind }
gvk_of_parts kind (p ∷ []) = record { group = []; version = p; kind = kind }
gvk_of_parts kind (p ∷ q ∷ ps) = record { group = p; version = q; kind = kind }

-- The GroupVersionKind of an entry: a third part of the apiVersion is ignored.
unfoldable pub parse_gvk : Text → Text → Gvk
parse_gvk api_version kind = gvk_of_parts kind (split api_version b'/')

-- `apiVersion, _ := obj.Object["apiVersion"].(string)`, and so for `kind`.
unfoldable pub api_version_of : Fields → Text
api_version_of obj = string_or_empty (lookup (text "apiVersion") obj)

unfoldable pub kind_of : Fields → Text
kind_of obj = string_or_empty (lookup (text "kind") obj)

unfoldable pub gvk_of : Fields → Gvk
unfolding parse_gvk
gvk_of obj = parse_gvk (api_version_of obj) (kind_of obj)
