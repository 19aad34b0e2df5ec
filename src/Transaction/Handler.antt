-- ===== src/Transaction/Handler.antt =====
-- internal/apiserver/transaction.go: the commit, and the handler of getTransactionHandler.
use api_extension.Prelude.{
  ℕ, ◌++◌, not, Option, none, some, List, [], ◌∷◌, if◌then◌else◌, Result, ok, err, and_then,
  map_err, Exec, pure, fail, lift, with_err, ◌>>=◌, ◌>>◌,
}
use api_extension.Text.{Text, text, ◌==◌}
use api_extension.Text.Strings.{decimal}
use api_extension.Value.{Fields, end, field, object, string, bytes}
use api_extension.Http.{
  Values, Request, Reply, error, silent, bad_request, forbidden, internal_server_error,
  status_created,
}
use api_extension.Api.{
  TransactionResponse, transaction_response, transaction, Column, group_version,
}
use api_extension.Kube.{TxnResponse, Backend, Codec, RestClient}
use api_extension.Helper.{response_content, table_response, write_response}
use api_extension.Transaction.{
  Operation, create, update, delete, TransactionRequest, transaction_storage_key, rejected, failed,
  parsed, Parsed, parse_transaction_and_namespace,
}
use api_extension.Transaction.Resource.{transaction_resource_map}
use api_extension.Transaction.Authorize.{transaction_authorize_all}

abbrev resource_fields : List (Text × Text) → Fields
resource_fields [] = end
resource_fields ((k, v) ∷ m) = field k (bytes v) (resource_fields m)

-- The object that buildTransactionCommitPayload encodes. `specs` holds `spec` once more.
unfoldable pub commit_payload : Text → Text → List (Text × Text) → Fields
commit_payload namespace name resources =
    let spec = object (field (text "resources") (object (resource_fields resources)) end) in
    field (text "apiVersion") (string group_version) (
      field (text "kind") (string (text "Transaction")) (
        field (text "metadata")
          (object
            (field (text "name") (string name) (field (text "namespace") (string namespace) end)))
          (field (text "spec") spec (field (text "specs") spec end))))

-- buildTransactionCommitPayload
unfoldable pub build_transaction_commit_payload :
    Codec → Text → Text → List (Text × Text) → Result Text Text
unfolding commit_payload
build_transaction_commit_payload codec namespace name resources =
    codec.json_marshal (commit_payload namespace name resources)

abbrev name_column : Column
name_column = record { name = text "Name"; type = text "string"; format = text "name" }

abbrev error_column : Column
error_column = record { name = text "Error"; type = text "string"; format = [] }

-- The object of the answer.
unfoldable pub response_of : Text → Text → ℕ → ℕ → TransactionResponse
response_of namespace name revision time = record {
  metadata = record {
    api_version = group_version;
    kind = text "TransactionResponse";
    namespace = namespace;
    name = name;
    creation_timestamp = time;
    resource_version = decimal revision;
  };
  error = [];
}

abbrev pub internal : Text → Reply
internal e = error e internal_server_error

abbrev pub silent_on_err : Result Text Reply → Reply
silent_on_err (ok reply) = reply
silent_on_err (err e) = silent

-- The answer to a request that was committed.
unfoldable pub answer : Codec → Values → TransactionResponse → Result Reply Reply
answer codec header resp =
    let (content_type, details) = response_content header in
    and_then
      (map_err internal (
        table_response codec details resp.metadata.resource_version
          (name_column ∷ error_column ∷ []) (string resp.metadata.name ∷ string resp.error ∷ [])
          (transaction_response resp)))
      λ table. ok (
        silent_on_err (
          write_response codec status_created
            (elim table [ none ↦ transaction resp | some container ↦ container ]) content_type))

-- The outcome of a commit: an error, nothing stored, or a comparison that failed.
unfoldable pub check_commit : Result Text (Option TxnResponse) → Result Reply TxnResponse
check_commit (err e) = err (internal e)
check_commit (ok none) = err (internal (text "transaction not stored"))
check_commit (ok (some resp)) =
    if resp.succeeded then ok resp else err (internal (text "transaction failed"))

module _ {World : Type 0} (env : Backend World) (codec : Codec) where
  -- transactionCommit
  unfoldable pub transaction_commit :
      Text → Text → List (Text × Text) → Exec World Text (Option TxnResponse)
  transaction_commit namespace name resources = do
    payload ← lift (build_transaction_commit_payload codec namespace name resources)
    env.commit (record { key = transaction_storage_key namespace name; value = payload })

  -- The name of the transaction: of the body, of the call, or made from the clock.
  unfoldable pub transaction_name : TransactionRequest → Text → World → Text × World
  transaction_name request name w =
      if not (request.name == [])
      then (request.name, w)
      else if not (name == [])
      then (name, w)
      else (text "txn-" ++ decimal (env.now w).0, (env.now w).1)

  abbrev reading : (World → ℕ × World) → Exec World Reply ℕ
  reading clock w = (ok (clock w).0, (clock w).1)

  -- The answer to the outcome of a commit.
  unfoldable pub answer_commit :
      Text → Text → Values → Result Text (Option TxnResponse) → Exec World Reply Reply
  unfolding check_commit
  answer_commit namespace txn_name header committed = do
    resp ← lift (check_commit committed)
    time ← reading env.now
    lift (answer codec header (response_of namespace txn_name resp.revision time))

  -- From the name to the answer, for the resources of a transaction.
  unfoldable pub commit_and_answer :
      TransactionRequest → Text → Text → Values → List (Text × Text) → Exec World Reply Reply
  commit_and_answer request namespace name header [] w =
      (err (error (text "empty transaction spec") bad_request), w)
  commit_and_answer request namespace name header (r ∷ rs) w =
      let (txn_name, w₁) = transaction_name request name w in
      let (committed, w₂) = transaction_commit namespace txn_name (r ∷ rs) w₁ in
      answer_commit namespace txn_name header committed w₂

-- The reply that was written, early or at the end.
abbrev pub sent : Result Reply Reply → Reply
sent (ok reply) = reply
sent (err reply) = reply

-- The answers to an error of the authorization, and to one of an entry.
abbrev pub refusal : Text → Reply
refusal e = error (text "resource forbidden") forbidden

abbrev pub rejection : Text → Reply
rejection e = error e bad_request

module _ {World : Type 0} (env : Backend World) (codec : Codec) (client : RestClient)
    (core : List Text) where
  unfoldable pub map_entries :
      Operation → Text → List Text → List (Text × Text) → Exec World Text (List (Text × Text))
  map_entries op namespace [] resources = pure resources
  map_entries op namespace (entry ∷ entries) resources = do
    resources' ← transaction_resource_map env codec client core op namespace entry resources
    map_entries op namespace entries resources'

  -- The loop over the three operations.
  unfoldable pub map_operations : TransactionRequest → Text → Exec World Text (List (Text × Text))
  map_operations request namespace = do
    created ← map_entries create namespace request.create []
    updated ← map_entries update namespace request.update created
    map_entries delete namespace request.delete updated

  -- The loop over the operations, and what follows it.
  unfoldable pub map_and_commit : TransactionRequest → Text → Text → Values → Exec World Reply Reply
  map_and_commit request namespace name header = do
    resources ← with_err rejection (map_operations request namespace)
    commit_and_answer env codec request namespace name header resources

  -- The handler, from the parsed request on.
  unfoldable pub process : TransactionRequest → Text → Text → Values → Exec World Reply Reply
  process request namespace name header = do
    with_err refusal (transaction_authorize_all env codec header request namespace)
    map_and_commit request namespace name header

  abbrev pub process_parsed : Text → Values → Parsed → Exec World Reply Reply
  process_parsed name header (rejected status message) = fail (error message status)
  process_parsed name header (failed e) = fail (error e bad_request)
  process_parsed name header (parsed request namespace) = process request namespace name header

  -- The CreateHandler of getTransactionHandler.
  unfoldable pub create_handler : Text → Text → Request → World → Reply × World
  create_handler namespace name r w =
      let (result, w') =
        process_parsed name r.header (parse_transaction_and_namespace codec r namespace) w in
      (sent result, w')
