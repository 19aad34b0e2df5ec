-- ===== src/Count/Handler.antt =====
-- internal/apiserver/count.go: the ListHandler of getCountHandler.
use api_extension.Prelude.{
  ℕ, ◌++◌, not, Option, none, some, List, [], ◌∷◌, if◌then◌else◌, Result, ok, err, and_then,
  map_err, Exec, fail, lift, ◌>>=◌, ◌>>◌,
}
use api_extension.Text.{Text, text, ◌==◌}
use api_extension.Text.Strings.{decimal}
use api_extension.Value.{string, number}
use api_extension.Http.{
  Values, Request, Reply, error, silent, get, status_ok, bad_request, not_found,
  internal_server_error,
}
use api_extension.Api.{CountResponse, count_response, count_list, Column, Container, group_version}
use api_extension.Kube.{
  Mapping, Attributes, GetOption, with_count_only, with_prefix, with_label_selector,
  with_field_selector, GetResponse, Backend, Codec,
}
use api_extension.Helper.{
  is_root, get_resource, etcd_key, response_content, table_response, write_response,
}
use api_extension.Query.{require_access}
use api_extension.Count.{Selection, parse_field_selectors, parse_gvk}

abbrev pub internal : Text → Reply
internal e = error e internal_server_error

-- The access that a count needs. The namespace is that of the call, for every scope.
unfoldable pub count_attributes : Text → Mapping → Attributes
count_attributes namespace resource = record {
  namespace = namespace;
  verb = text "list";
  group = resource.group;
  version = resource.version;
  resource = resource.resource;
}

unfoldable pub count_namespace : Mapping → Text → Text
count_namespace resource namespace = if is_root resource.scope then [] else namespace

-- The prefix of the keys that are counted, from the group and version of the mapping.
unfoldable pub count_prefix : Codec → List Text → Text → Mapping → Text → Result Text Text
count_prefix codec core kind resource namespace =
    etcd_key codec (record { group = resource.group; version = resource.version; kind = kind })
      (count_namespace resource namespace) (some resource) core

unfoldable pub count_options : Text → Text → List GetOption
count_options labels fields =
    with_count_only
    ∷ with_prefix
    ∷ ((if not (labels == []) then with_label_selector labels ∷ [] else [])
        ++ (if not (fields == []) then with_field_selector fields ∷ [] else []))

abbrev name_column : Column
name_column = record { name = text "Name"; type = text "string"; format = text "name" }

abbrev count_column : Column
count_column = record { name = text "Count"; type = text "integer"; format = [] }

-- The object of the answer.
unfoldable pub response_of : Text → Text → GetResponse → ℕ → CountResponse
response_of namespace kind resp time = record {
  metadata = record {
    api_version = group_version;
    kind = text "CountResponse";
    namespace = namespace;
    name = kind;
    creation_timestamp = time;
    resource_version = decimal resp.revision;
  };
  count = resp.count;
}

abbrev list_of : CountResponse → Container
list_of resp = count_list (record {
  api_version = group_version;
  kind = text "CountResponseList";
  resource_version = resp.metadata.resource_version;
  items = resp ∷ [];
})

abbrev pub silent_on_err : Result Text Reply → Reply
silent_on_err (ok reply) = reply
silent_on_err (err e) = silent

unfoldable pub answer : Codec → Values → CountResponse → Result Reply Reply
answer codec header resp =
    let (content_type, details) = response_content header in
    and_then
      (map_err internal (
        table_response codec details resp.metadata.resource_version
          (name_column ∷ count_column ∷ [])
          (string resp.metadata.name ∷ number (decimal resp.count) ∷ []) (count_response resp)))
      λ table. ok (
        silent_on_err (
          write_response codec status_ok
            (elim table [ none ↦ list_of resp | some container ↦ container ]) content_type))

abbrev pub check_count : Result Text (Option GetResponse) → Result Reply GetResponse
check_count (err e) = err (internal e)
check_count (ok none) = err (error (text "prefix not found") not_found)
check_count (ok (some resp)) = ok resp

abbrev pub check_mapping : Result Text (Option Mapping) → Result Reply Mapping
check_mapping (err e) = err (internal e)
check_mapping (ok none) = err (error (text "resource not found") not_found)
check_mapping (ok (some resource)) = ok resource

module _ {World : Type 0} (env : Backend World) (codec : Codec) (core : List Text) where
  -- A call whose result is checked by `check`.
  abbrev checking :
      {A B : Type 0} → (Result Text A → Result Reply B) → Exec World Text A → Exec World Reply B
  checking check m w = (check (m w).0, (m w).1)

  -- From the mapping of the kind to the answer.
  unfoldable pub count_resource : Text → Request → Selection → Mapping → Exec World Reply Reply
  count_resource namespace r s resource = do
    require_access env codec (count_attributes namespace resource) r.header
    prefix ← lift (map_err internal (count_prefix codec core s.kind resource namespace))
    resp ←
        checking check_count
          (env.get prefix (count_options (get (text "labelSelector") r.query) s.field_selector))
    time ← (λ w. (ok (env.now w).0, (env.now w).1))
    lift (answer codec r.header (response_of (count_namespace resource namespace) s.kind resp time))

  unfoldable pub count_selected : Text → Request → Selection → Exec World Reply Reply
  count_selected namespace r s =
      if s.api_version == []
      then fail (error (text "missing apiVersion") bad_request)
      else if s.kind == []
      then fail (error (text "missing kind") bad_request)
      else do
        resource ← checking check_mapping (get_resource env (parse_gvk s.api_version s.kind))
        count_resource namespace r s resource

  -- The ListHandler of getCountHandler.
  unfoldable pub list_handler : Text → Request → Exec World Reply Reply
  list_handler namespace r =
      count_selected namespace r (parse_field_selectors (get (text "fieldSelector") r.query))
