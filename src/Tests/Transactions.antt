-- ===== src/Tests/Transactions.antt =====
-- The theorems on transactions, at the small server.
use api_extension.Prelude.{
  ◌≤◌, ℕ, ◌≡◌, ◌≢◌, refl, Bool, true, none, some, List, [], ◌∷◌, ◌++◌, ◌&&◌, All, ok,
}
use api_extension.Text.{Text, text, ◌==◌}
use api_extension.Text.Strings.{
  cut, decimal, decimal_from, has_prefix, is_space, join, split, trim_func, trim_left, trim_right,
  trim_slash, trim_space,
}
use api_extension.Value.{string_or_empty, lookup, insert, is_empty}
use api_extension.Http.{content, values, get}
use api_extension.Api.{group_version}
use api_extension.Helper.{
  contains, etcd_key, content_details_table_v1, content_details_table_v1beta1, get_resource,
  is_yaml, response_content, subject_access_review, table_response, write_response,
}
use api_extension.Transaction.{
  api_version_of, decode_transaction_request, find_namespace, gvk_of, kind_of, marshal_entries,
  operation_name, parse_body, parse_gvk, parse_transaction_and_namespace, path_namespace,
  settle_namespace, transaction_request_namespace, transaction_storage_key, TransactionRequest,
  Operation, create, update, delete, parsed,
}
use api_extension.Transaction.Resource.{
  api_base, checked_object, dry_run_parts, execute_validation_request, is_success, map_object,
  object_namespace, put_resource, read_response, resource_key, response_error, send_object,
  store_object, transaction_resource_api_path, transaction_resource_map, validate_and_default,
  validation_request, with_namespace,
}
use api_extension.Transaction.Authorize.{
  attributes_of, auth_key, authorize_group, authorize_key, authorize_object, cached,
  metadata_namespace, or_else_text, review_key, review_namespace, same_key,
  transaction_authorize_all, AuthKey,
}
use api_extension.Transaction.Handler.{
  answer, answer_commit, build_transaction_commit_payload, check_commit, commit_and_answer,
  commit_payload, create_handler, map_and_commit, map_entries, map_operations, process, response_of,
  transaction_commit, transaction_name,
}
use api_extension.Transaction.Created.{IsCreated, create_handler-IsCreated}
use api_extension.Transaction.Ledger.{Step, ledger, create_handler-Step}
use api_extension.Decision.Handler.{maker_request}
use api_extension.Server.Serving.{Call, transaction, query, decision, count, serve, serve_all}
use api_extension.Server.Accounts.{Run, register, answered, requested, serve_all-Run}
use api_extension.Server.Replies.Contract.{Contract, serve-Contract}
use api_extension.Server.History.{serve_all-once}
use api_extension.Transaction.Mapped.{IsMapped, map_operations-IsMapped}
use api_extension.Transaction.Last.{value_of, last_of, AreWritten, map_operations-last_of}
use api_extension.Transaction.Names.{Agrees, parse-Agrees, create_handler-occupied}
use api_extension.Transaction.Reviews.{IsClearedEntry, transaction_authorize_all-IsCleared}
use api_extension.Transaction.Cache.{is_ok, all, permits, transaction_authorize_all-eq-permits}
use api_extension.Kube.{Gvk}
use api_extension.Tests.World.{Shelf, shelf, shelf_store, shelf_codec, call, ann, pods, api, find}

abbrev pub wanted : TransactionRequest
wanted = record {
  name = text "t";
  namespace = text "a";
  create = text "pod" ∷ [];
  update = [];
  delete = [];
}

-- What the code computes at the small server.
pub runs :
    ((create_handler shelf shelf_codec api [] (text "a") [] call []).0
      ≡ content 201 (some (text "application/json")) (text "reply"))
    × (parse_transaction_and_namespace shelf_codec call (text "a") ≡ parsed wanted (text "a"))
    × ((transaction_authorize_all shelf shelf_codec ann wanted (text "a") []).0
        ≡ ok (
            (
              record {
                group = [];
                resource = text "pods";
                verb = text "create";
                namespace = text "a";
              },
              true,
            )
            ∷ []))
    × ((map_operations shelf shelf_codec api [] wanted (text "a") []).0
        ≡ ok ((text "/registry//pods/a/p#create", text "pod") ∷ []))
unfolding text ◌==◌ cut decimal decimal_from has_prefix is_space join split trim_func trim_left
    trim_right trim_slash trim_space string_or_empty lookup insert is_empty values get group_version
    contains etcd_key content_details_table_v1 content_details_table_v1beta1 get_resource is_yaml
    response_content subject_access_review table_response write_response api_version_of
    decode_transaction_request find_namespace gvk_of kind_of marshal_entries operation_name
    parse_body parse_gvk parse_transaction_and_namespace path_namespace settle_namespace
    transaction_request_namespace transaction_storage_key api_base checked_object dry_run_parts
    execute_validation_request is_success map_object object_namespace put_resource read_response
    resource_key response_error send_object store_object transaction_resource_api_path
    transaction_resource_map validate_and_default validation_request with_namespace attributes_of
    auth_key authorize_group authorize_key authorize_object cached metadata_namespace or_else_text
    review_key review_namespace same_key transaction_authorize_all answer answer_commit
    build_transaction_commit_payload check_commit commit_and_answer commit_payload create_handler
    map_and_commit map_entries map_operations process response_of transaction_commit
    transaction_name find
runs = (refl, refl, refl, refl)

abbrev after : Text → List (Text × Text) → List (Text × Text)
after name w = (create_handler shelf shelf_codec api [] (text "a") name call w).1

create_handler-IsCreated_example :
    (◌≡◌ {A = ℕ} 201 201)
    × ((request : TransactionRequest) × (space : Text) × (parse_transaction_and_namespace
            shelf_codec call
            (text "a")
          ≡ parsed request space)
        × IsCreated shelf_store shelf_codec api [] ann space [] request [] (after [] []))
create_handler-IsCreated_example =
    create_handler-IsCreated shelf_store shelf_codec api [] (text "a") [] call [] 201
      (some (text "application/json")) (text "reply") runs.0

-- The store that holds the transaction "t" of the namespace "a" already.
abbrev pub full : List (Text × Text)
full = (transaction_storage_key (text "a") (text "t"), text "old") ∷ []

pub there : find (transaction_storage_key (text "a") (text "t")) full ≡ some (text "old")
unfolding find text ◌==◌ transaction_storage_key
there = refl

pub named : wanted.name ≢ []
unfolding text
named = cc

create_handler-occupied_example :
    (create_handler shelf shelf_codec api [] (text "a") [] call full).0 ≢ content 201 none []
create_handler-occupied_example =
    create_handler-occupied shelf_store shelf_codec api [] (text "a") [] call full wanted (text "a")
      (text "old") runs.1 named there 201 none []

parse-Agrees_example :
    (body : Text) × (call.body ≡ ok body)
    × (trim_space body ≢ [])
    × (decode_transaction_request shelf_codec body ≡ ok wanted)
    × Agrees (path_namespace (text "a") call.path) wanted (text "a")
parse-Agrees_example = parse-Agrees shelf_codec call (text "a") wanted (text "a") runs.1

transaction_authorize_all-IsCleared_example :
    All (IsClearedEntry shelf shelf_codec ann [] create (text "a")) wanted.create
    × All (IsClearedEntry shelf shelf_codec ann [] update (text "a")) wanted.update
    × All (IsClearedEntry shelf shelf_codec ann [] delete (text "a")) wanted.delete
transaction_authorize_all-IsCleared_example =
    transaction_authorize_all-IsCleared shelf shelf_codec ann wanted (text "a") [] _ runs.2

stable_maps : (gvk : Gvk) (w : List (Text × Text)) → (get_resource shelf gvk w).0 ≡ ok (some pods)
unfolding get_resource
stable_maps gvk w = refl

stable_reviews :
    (k : AuthKey) (w : List (Text × Text))
    → (subject_access_review shelf (attributes_of k) ann w).0 ≡ ok true
unfolding subject_access_review text get values ◌==◌
stable_reviews k w = refl

abbrev permits_all : Operation → Text → Bool
permits_all op entry = permits (λ gvk. ok (some pods)) (λ k. true) shelf_codec op (text "a") entry

transaction_authorize_all-eq-permits_example :
    is_ok (transaction_authorize_all shelf shelf_codec ann wanted (text "a") []).0 ≡ (
      all (permits_all create) wanted.create
      && (all (permits_all update) wanted.update && all (permits_all delete) wanted.delete))
transaction_authorize_all-eq-permits_example =
    transaction_authorize_all-eq-permits shelf shelf_codec ann (λ gvk. ok (some pods)) (λ k. true)
      stable_maps stable_reviews wanted (text "a") []

abbrev mapped : List (Text × Text)
mapped = (text "/registry//pods/a/p#create", text "pod") ∷ []

map_operations-IsMapped_example :
    All (IsMapped shelf shelf_codec api [] [] create (text "a") mapped) wanted.create
    × All (IsMapped shelf shelf_codec api [] [] update (text "a") mapped) wanted.update
    × All (IsMapped shelf shelf_codec api [] [] delete (text "a") mapped) wanted.delete
map_operations-IsMapped_example =
    map_operations-IsMapped shelf shelf_codec api [] wanted (text "a") [] mapped runs.3

map_operations-last_of_example :
    (creates : List (Text × Text)) × (updates : List (Text × Text)) × (deletes : List (Text × Text))
    × AreWritten shelf shelf_codec api [] [] (text "a") create wanted.create creates
    × AreWritten shelf shelf_codec api [] [] (text "a") update wanted.update updates
    × AreWritten shelf shelf_codec api [] [] (text "a") delete wanted.delete deletes
    × ((k : Text) → value_of k mapped ≡ last_of k (creates ++ (updates ++ deletes)))
map_operations-last_of_example =
    map_operations-last_of shelf shelf_codec api [] [] (text "a") wanted mapped runs.3

create_handler-Step_example :
    Step
      (create_handler shelf shelf_codec api [] (text "a") [] call []).0
      (ledger shelf_store [])
      (ledger shelf_store (after [] []))
create_handler-Step_example =
    create_handler-Step shelf_store shelf_codec api [] (text "a") [] call []

-- The decision maker of the small server writes nothing.
pub maker_keeps :
    (endpoint body : Text) (w : Shelf) (k : Text)
    → find k (shelf.http_do (maker_request endpoint body) w).1 ≡ find k w
maker_keeps endpoint body w k = refl

-- A query, a count, a decision and the transaction once more.
abbrev pub calls : List Call
calls =
    query (text "a") (text "q") call
    ∷ count (text "a") call
    ∷ decision (text "a") [] call
    ∷ transaction (text "a") [] call
    ∷ []

serve_all-once_example :
    (create_handler shelf shelf_codec api []
      (text "a")
      []
      call
      (serve_all shelf shelf_codec api [] [] calls (after [] []))).0
    ≢ content 201 none []
serve_all-once_example =
    serve_all-once shelf_store maker_keeps shelf_codec api [] [] (text "a") [] call [] calls
      (text "a") [] call wanted wanted (text "a") runs.1 runs.1 named refl 201
      (some (text "application/json")) (text "reply") runs.0 201 none []

serve_all-Run_example :
    (n : ℕ) × Run n
      (register shelf_store [])
      (register shelf_store (serve_all shelf shelf_codec api [] [] calls []))
    × (answered shelf shelf_codec api [] [] calls [] ≤ n)
    × (n ≤ requested calls)
serve_all-Run_example = serve_all-Run shelf_store maker_keeps shelf_codec api [] [] calls []

serve-Contract_example :
    Contract
      (transaction (text "a") [] call)
      (serve shelf shelf_codec api [] [] (transaction (text "a") [] call) []).0
serve-Contract_example =
    serve-Contract shelf shelf_codec api [] [] (transaction (text "a") [] call) []
