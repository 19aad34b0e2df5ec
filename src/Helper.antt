-- ===== src/Helper.antt =====
-- internal/apiserver/helper.go: what the handlers share.
pub mod Keys
pub mod Prefixes
pub mod Responses
use api_extension.Prelude.{
  ℕ, ◌++◌, Bool, true, false, not, ◌&&◌, ◌||◌, Option, none, some, List, [], ◌∷◌, if◌then◌else◌,
  Result, ok, err, and_then, Exec,
}
use api_extension.Text.{Text, text, ◌==◌}
use api_extension.Text.Strings.{split, join, cut}
use api_extension.Value.{Value}
use api_extension.Http.{Values, values, get, Reply, content}
use api_extension.Api.{Column, ResponseObject, Table, Container, table}
use api_extension.Kube.{Gvk, Scope, root, namespaced, Mapping, Attributes, Backend, Codec}

abbrev pub is_root : Scope → Bool
is_root root = true
is_root namespaced = false

module _ {World : Type 0} (env : Backend World) where
  -- subjectAccessReview
  unfoldable pub subject_access_review : Attributes → Values → Exec World Text Bool
  subject_access_review attributes headers = env.review (record {
    attributes = attributes;
    user = get (text "X-Remote-User") headers;
    groups = values (text "X-Remote-Group") headers;
  })

  -- The end of getResurce: after an error the cache is reset, and the mapping is asked for again.
  abbrev pub retry :
      Gvk → Result Text (Option Mapping) → World → Result Text (Option Mapping) × World
  retry gvk (ok m) w = (ok m, w)
  retry gvk (err e) w = env.rest_mapping gvk (env.reset w)

  -- getResurce
  unfoldable pub get_resource : Gvk → Exec World Text (Option Mapping)
  get_resource gvk w = retry gvk (env.rest_mapping gvk w).0 (env.rest_mapping gvk w).1

-- `_, ok := coreResources[group]`, for the map that the handlers build from the list.
unfoldable pub contains : Text → List Text → Bool
contains g [] = false
contains g (c ∷ cs) = (c == g) || contains g cs

-- etcdKeyForGroupVersionKind
unfoldable pub etcd_key : Codec → Gvk → Text → Option Mapping → List Text → Result Text Text
etcd_key codec gvk namespace none core =
    err (text "resource mapping is required for " ++ codec.gvk_string gvk)
etcd_key codec gvk namespace (some resource) core = ok (
    text "/registry/"
    ++ (if contains gvk.group core then [] else gvk.group ++ text "/")
    ++ resource.resource
    ++ text "/"
    ++ (if not (is_root resource.scope) && not (namespace == [])
        then namespace ++ text "/"
        else []))

abbrev pub head_or_empty : List Text → Text
head_or_empty [] = []
head_or_empty (p ∷ ps) = p

-- responseContent: the media type and its parameters.
unfoldable pub response_content : Values → Text × Text
response_content headers =
    let named = get (text "Content-Type") headers in
    let accept =
      (if named == []
        then head_or_empty (split (join (values (text "Accept") headers) b',') b',')
        else named) in
    let (content_type, details, found) = cut accept b';' in (content_type, details)

unfoldable pub content_details_table_v1 : Text
unfolding text
content_details_table_v1 = text "as=Table;v=v1;g=meta.k8s.io"

unfoldable pub content_details_table_v1beta1 : Text
unfolding text
content_details_table_v1beta1 = text "as=Table;v=v1beta1;g=meta.k8s.io"

-- The table of `tableResponse` at one version of meta.k8s.io.
abbrev table_of : Text → Text → List Column → List Value → ResponseObject → Text → Container
table_of api_version resource_version columns cells object raw = table (record {
  api_version = api_version;
  kind = text "Table";
  resource_version = resource_version;
  columns = columns;
  cells = cells;
  row_object = object;
  row_raw = raw;
})

-- tableResponse: `none` is the result `(nil, false, nil)`.
unfoldable pub table_response :
    Codec → Text → Text → List Column → List Value → ResponseObject → Result Text (Option Container)
unfolding content_details_table_v1 content_details_table_v1beta1
table_response codec details resource_version columns cells object =
    if not (details == content_details_table_v1) && not (details == content_details_table_v1beta1)
    then ok none
    else and_then (codec.json_object object) λ raw.
      if details == content_details_table_v1
      then ok (some (table_of (text "meta.k8s.io/v1") resource_version columns cells object raw))
      else ok
          (some (table_of (text "meta.k8s.io/v1beta1") resource_version columns cells object raw))

-- The media types that writeResponse answers in YAML.
unfoldable pub is_yaml : Text → Bool
is_yaml content_type =
    content_type == text "application/yaml"
    || content_type == text "application/x-yaml"
    || content_type == text "text/yaml"
    || content_type == text "text/x-yaml"

-- writeResponse. That the client may be gone when the body is written is not modelled.
unfoldable pub write_response : Codec → ℕ → Container → Text → Result Text Reply
unfolding is_yaml
write_response codec status container content_type =
    if is_yaml content_type
    then and_then (codec.yaml_container container)
        (λ raw. ok (content status (some (text "application/yaml")) raw))
    else and_then (codec.json_container container)
        (λ raw. ok (content status (some (text "application/json")) raw))
