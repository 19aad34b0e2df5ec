-- ===== src/Transaction/Authorize.antt =====
-- internal/apiserver/transaction.go: transactionAuthorizeAll, with its cache of answers.
use api_extension.Prelude.{
  ◌++◌, Bool, true, false, ◌&&◌, ◌||◌, Option, none, some, List, [], ◌∷◌, if◌then◌else◌, Result, ok,
  err, Exec, pure, fail, with_err, ◌>>=◌,
}
use api_extension.Text.{Text, text, ◌==◌}
use api_extension.Value.{Value, Fields, object, mapping, lookup, lookup_entry, string_or_empty}
use api_extension.Http.{Values}
use api_extension.Kube.{Mapping, Attributes, Backend, Codec}
use api_extension.Helper.{is_root, subject_access_review, get_resource}
use api_extension.Transaction.{
  Operation, create, update, delete, operation_name, TransactionRequest, api_version_of, kind_of,
  gvk_of,
}

-- authKey
pub record AuthKey : Type 0 where
  pub group : Text
  pub resource : Text
  pub verb : Text
  pub namespace : Text

unfoldable pub same_key : AuthKey → AuthKey → Bool
same_key j k =
    j.group == k.group && j.resource == k.resource && j.verb == k.verb && j.namespace == k.namespace

-- `cache[key]`: whether the answer that was given allowed the request.
unfoldable pub cached : AuthKey → List (AuthKey × Bool) → Option Bool
unfolding same_key
cached k [] = none
cached k ((j, allowed) ∷ cache) = if same_key j k then some allowed else cached k cache

-- `metadata.namespace` of an object, under either type of map.
unfoldable pub metadata_namespace : Option Value → Option Value
metadata_namespace (some (object m)) = lookup (text "namespace") m
metadata_namespace (some (mapping m)) = lookup_entry (text "namespace") m
metadata_namespace _ = none

unfoldable pub or_else_text : Text → Text → Text
or_else_text s t = if s == [] then t else s

-- The namespace in which the access to an entry is reviewed.
unfoldable pub review_namespace : Mapping → Text → Fields → Text
unfolding metadata_namespace or_else_text
review_namespace resource namespace obj =
    if is_root resource.scope
    then []
    else or_else_text (string_or_empty (metadata_namespace (lookup (text "metadata") obj)))
        namespace

unfoldable pub auth_key : Operation → Mapping → Text → Fields → AuthKey
auth_key op resource namespace obj = record {
  group = (gvk_of obj).group;
  resource = resource.resource;
  verb = operation_name op;
  namespace = review_namespace resource namespace obj;
}

-- The review of a key. The version is not given.
unfoldable pub attributes_of : AuthKey → Attributes
attributes_of k = record {
  namespace = k.namespace;
  verb = k.verb;
  group = k.group;
  version = [];
  resource = k.resource;
}

-- The errors of a refused and of a failed review.
abbrev pub forbidden_error : Codec → AuthKey → Text
forbidden_error codec k =
    text "forbidden: "
    ++ k.verb
    ++ text " "
    ++ k.resource
    ++ text " in namespace "
    ++ codec.quote k.namespace

abbrev pub review_error : AuthKey → Text → Text
review_error k e =
    text "authorization check failed for " ++ k.group ++ text " " ++ k.resource ++ text ": " ++ e

abbrev Cache : Type 0
Cache = List (AuthKey × Bool)

module _ {World : Type 0} (env : Backend World) (codec : Codec) (headers : Values) where
  -- A review that is not in the cache, and its answer put there.
  unfoldable pub review_key :
      AuthKey → List (AuthKey × Bool) → Exec World Text (List (AuthKey × Bool))
  review_key k cache = do
    allowed ← with_err (review_error k) (subject_access_review env (attributes_of k) headers)
    if allowed then pure ((k, true) ∷ cache) else fail (forbidden_error codec k)

  abbrev pub from_cache :
      AuthKey → List (AuthKey × Bool) → Option Bool → Exec World Text (List (AuthKey × Bool))
  from_cache k cache (some true) = pure cache
  from_cache k cache (some false) = fail (forbidden_error codec k)
  from_cache k cache none = review_key k cache

  unfoldable pub authorize_key :
      AuthKey → List (AuthKey × Bool) → Exec World Text (List (AuthKey × Bool))
  authorize_key k cache = from_cache k cache (cached k cache)

  -- An object whose kind has no mapping, or whose mapping cannot be had, is passed over.
  abbrev pub authorize_mapped :
      Operation
      → Text
      → Fields
      → List (AuthKey × Bool)
      → Result Text (Option Mapping)
      → Exec World Text (List (AuthKey × Bool))
  authorize_mapped op namespace obj cache (err e) = pure cache
  authorize_mapped op namespace obj cache (ok none) = pure cache
  authorize_mapped op namespace obj cache (ok (some resource)) =
      authorize_key (auth_key op resource namespace obj) cache

  unfoldable pub authorize_object :
      Operation → Text → Fields → List (AuthKey × Bool) → Exec World Text (List (AuthKey × Bool))
  authorize_object op namespace obj cache =
      if api_version_of obj == [] || kind_of obj == [] then pure cache else λ w.
      let (found, w') = get_resource env (gvk_of obj) w in
      authorize_mapped op namespace obj cache found w'

  abbrev pub authorize_decoded :
      Operation
      → Text
      → List (AuthKey × Bool)
      → Result Text Fields
      → Exec World Text (List (AuthKey × Bool))
  authorize_decoded op namespace cache (err e) = fail e
  authorize_decoded op namespace cache (ok obj) = authorize_object op namespace obj cache

  -- The inner loop, over the entries of one operation.
  unfoldable pub authorize_group :
      Operation → Text → List Text → List (AuthKey × Bool) → Exec World Text (List (AuthKey × Bool))
  authorize_group op namespace [] cache = pure cache
  authorize_group op namespace (entry ∷ entries) cache = do
    cache' ← authorize_decoded op namespace cache (codec.decode_object entry)
    authorize_group op namespace entries cache'

  -- transactionAuthorizeAll. It starts with no answers, and gives back those that it got.
  unfoldable pub transaction_authorize_all :
      TransactionRequest → Text → Exec World Text (List (AuthKey × Bool))
  transaction_authorize_all transaction namespace = do
    created ← authorize_group create namespace transaction.create []
    updated ← authorize_group update namespace transaction.update created
    authorize_group delete namespace transaction.delete updated
