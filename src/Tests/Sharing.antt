-- ===== src/Tests/Sharing.antt =====
-- Calls of the small server among other clients of its store, and what it commits.
use api_extension.Prelude.{◌≡◌, ◌≢◌, refl, none, some, List, [], ◌∷◌, All, ok, ok_inj, inl}
use api_extension.Kube.{Codec, Gvk}
use api_extension.Value.{Fields}
use api_extension.Text.{Text, text, ◌==◌}
use api_extension.Text.Strings.{
  cut, decimal, decimal_from, has_prefix, is_space, join, split, trim_func, trim_left, trim_right,
  trim_slash, trim_space,
}
use api_extension.Value.{string_or_empty, lookup, insert, is_empty}
use api_extension.Http.{content, values, get}
use api_extension.Api.{group_version}
use api_extension.Helper.{
  contains, etcd_key, content_details_table_v1, content_details_table_v1beta1, get_resource,
  is_yaml, response_content, subject_access_review, table_response, write_response,
}
use api_extension.Transaction.{
  TransactionRequest, parsed, api_version_of, decode_transaction_request, find_namespace, gvk_of,
  kind_of, marshal_entries, operation_name, parse_body, parse_gvk, parse_transaction_and_namespace,
  path_namespace, settle_namespace, transaction_request_namespace, transaction_storage_key,
}
use api_extension.Transaction.Resource.{
  api_base, checked_object, dry_run_parts, execute_validation_request, is_success, map_object,
  object_namespace, put_resource, read_response, resource_key, response_error, send_object,
  store_object, transaction_resource_api_path, transaction_resource_map, validate_and_default,
  validation_request, with_namespace,
}
use api_extension.Transaction.Authorize.{
  attributes_of, auth_key, authorize_group, authorize_key, authorize_object, cached,
  metadata_namespace, or_else_text, review_key, review_namespace, same_key,
  transaction_authorize_all,
}
use api_extension.Transaction.Handler.{
  answer, answer_commit, build_transaction_commit_payload, check_commit, commit_and_answer,
  commit_payload, create_handler, map_and_commit, map_entries, map_operations, process, response_of,
  transaction_commit, transaction_name,
}
use api_extension.Server.Serving.{serve_all}
use api_extension.Server.Sharing.{serve_all-retains, serve_all-unrepeated}
use api_extension.Transaction.Granted.{Reads, IsAuthorized, create_handler-IsAuthorized}
use api_extension.Transaction.Created.{IsCreated}
use api_extension.Kube.Interference.{interrupt, shared, Keeps}
use api_extension.Transaction.Commits.{create_handler-Kept}
use api_extension.Tests.World.{Shelf, shelf, shelf_store, shelf_codec, call, api, find, ann, pods}
use api_extension.Tests.Transactions.{wanted, calls, runs, maker_keeps, named, there, full}

-- Before the first call of a handler, another client commits a transaction "s", and later a third one
-- does so once more.
abbrev other : Shelf → Shelf
other w =
    (create_handler shelf shelf_codec api [] (text "a") [] (record call { body = ok (text "s") })
      w).1

abbrev others : List (Shelf → Shelf)
others = other ∷ other ∷ []

others_keep : All (Keeps shelf_store (transaction_storage_key (text "a") (text "t"))) others
others_keep =
    let one = create_handler-Kept shelf_store shelf_codec api [] (text "a") [] _ in
    let step : Keeps shelf_store (transaction_storage_key (text "a") (text "t")) other =
      λ w. one w (transaction_storage_key (text "a") (text "t")) in
    (step, (step, tt))

serve_all-retains_example :
    find
      (transaction_storage_key (text "a") (text "t"))
      (serve_all (shared shelf) shelf_codec api [] [] calls (full, others)).0
    ≡ some (text "old")
serve_all-retains_example =
    serve_all-retains shelf_store maker_keeps shelf_codec api [] [] calls full others (text "a")
      (text "t") (text "old") others_keep there

answered_amid :
    (create_handler (shared shelf) shelf_codec api [] (text "a") [] call ([], others)).0
    ≡ content 201 (some (text "application/json")) (text "reply")
unfolding text ◌==◌ cut decimal decimal_from has_prefix is_space join split trim_func trim_left
    trim_right trim_slash trim_space string_or_empty lookup insert is_empty values get group_version
    contains etcd_key content_details_table_v1 content_details_table_v1beta1 get_resource is_yaml
    response_content subject_access_review table_response write_response api_version_of
    decode_transaction_request find_namespace gvk_of kind_of marshal_entries operation_name
    parse_body parse_gvk parse_transaction_and_namespace path_namespace settle_namespace
    transaction_request_namespace transaction_storage_key api_base checked_object dry_run_parts
    execute_validation_request is_success map_object object_namespace put_resource read_response
    resource_key response_error send_object store_object transaction_resource_api_path
    transaction_resource_map validate_and_default validation_request with_namespace attributes_of
    auth_key authorize_group authorize_key authorize_object cached metadata_namespace or_else_text
    review_key review_namespace same_key transaction_authorize_all answer answer_commit
    build_transaction_commit_payload check_commit commit_and_answer commit_payload create_handler
    map_and_commit map_entries map_operations process response_of transaction_commit
    transaction_name find interrupt
answered_amid = refl

serve_all-unrepeated_example :
    (create_handler (shared shelf) shelf_codec api [] (text "a") [] call (
      serve_all
        (shared shelf)
        shelf_codec
        api
        []
        []
        calls
        (create_handler (shared shelf) shelf_codec api [] (text "a") [] call ([], others)).1)).0
    ≢ content 201 none []
serve_all-unrepeated_example =
    serve_all-unrepeated shelf_store maker_keeps shelf_codec api [] [] (text "a") [] call
      ([], others) calls (text "a") [] call wanted wanted (text "a") runs.1 runs.1 named refl
      others_keep 201 (some (text "application/json")) (text "reply") answered_amid 201 none []

-- Objects that have no namespace of their own.
abbrev bare : Codec
bare = record shelf_codec { get_namespace = λ m. [] }

one_mapping : (gvk : Gvk) (w : Shelf) → (get_resource shelf gvk w).0 ≡ ok (some pods)
unfolding get_resource
one_mapping gvk w = refl

pod-Reads : (entry : Text) (obj : Fields) → bare.decode_object entry ≡ ok obj → Reads bare obj
unfolding lookup metadata_namespace text ◌==◌ string_or_empty
pod-Reads entry obj h = rw (← (ok_inj h)) refl

committed :
    (create_handler shelf bare api [] (text "a") [] call []).0
    ≡ content 201 (some (text "application/json")) (text "reply")
unfolding text ◌==◌ cut decimal decimal_from has_prefix is_space join split trim_func trim_left
    trim_right trim_slash trim_space string_or_empty lookup insert is_empty values get group_version
    contains etcd_key content_details_table_v1 content_details_table_v1beta1 get_resource is_yaml
    response_content subject_access_review table_response write_response api_version_of
    decode_transaction_request find_namespace gvk_of kind_of marshal_entries operation_name
    parse_body parse_gvk parse_transaction_and_namespace path_namespace settle_namespace
    transaction_request_namespace transaction_storage_key api_base checked_object dry_run_parts
    execute_validation_request is_success map_object object_namespace put_resource read_response
    resource_key response_error send_object store_object transaction_resource_api_path
    transaction_resource_map validate_and_default validation_request with_namespace attributes_of
    auth_key authorize_group authorize_key authorize_object cached metadata_namespace or_else_text
    review_key review_namespace same_key transaction_authorize_all answer answer_commit
    build_transaction_commit_payload check_commit commit_and_answer commit_payload create_handler
    map_and_commit map_entries map_operations process response_of transaction_commit
    transaction_name find
committed = refl

create_handler-IsAuthorized_example :
    (request : TransactionRequest) × (space : Text) × (parse_transaction_and_namespace bare call
        (text "a")
      ≡ parsed request space)
    × ((c : IsCreated shelf_store bare api [] ann space [] request []
          (create_handler shelf bare api [] (text "a") [] call []).1)
        × All
            (IsAuthorized shelf_store bare
              (text "https://api")
              []
              (λ gvk. ok (some pods))
              one_mapping
              pod-Reads
              (λ op resource ns obj checked w scoped h. inl refl)
              ann
              []
              space)
            c.resources)
create_handler-IsAuthorized_example =
    create_handler-IsAuthorized shelf_store bare (text "https://api") [] (λ gvk. ok (some pods))
      one_mapping pod-Reads (λ op resource ns obj checked w scoped h. inl refl) (text "a") [] call
      [] 201 (some (text "application/json")) (text "reply") committed
