-- ===== src/Samples/Defaulting.antt =====
-- config/samples/defaulting-webhook-sensitive-source.go: the patch that sets the label.
use api_extension.Prelude.{
  Bool, true, false, Option, none, some, List, [], ◌∷◌, ◌++◌, if◌then◌else◌, Result, and_then,
  map_err, Exec, lift, ◌>>=◌, pure,
}
use api_extension.Text.{Text, text}
use api_extension.Value.{Value, string, object, Fields, end, lookup}
use api_extension.Samples.{Cluster, Exit, failed_to_build_output, decide}

unfoldable pub label_key : Text
unfolding text
label_key = text "harikube.io/source-contains-sensitive-info"

unfoldable pub label_json_path : Text
unfolding text
label_json_path = text "/metadata/labels/harikube.io~1source-contains-sensitive-info"

-- An operation of a JSON patch. Both that the sample makes are "add".
pub record Operation : Type 0 where
  pub op : Text
  pub path : Text
  pub value : Value

abbrev pub is_present : Option Value → Bool
is_present none = false
is_present (some v) = true

abbrev pub has_labels : Option Value → Bool
has_labels (some (object md)) = is_present (lookup (text "labels") md)
has_labels other = false

unfoldable pub label_value : Bool → Text
label_value contains = if contains then text "true" else text "false"

-- The operations of buildJSONPatchForLabel for an object.
unfoldable pub label_operations : Fields → Bool → List Operation
unfolding label_value
label_operations incoming contains =
    (if has_labels (lookup (text "metadata") incoming)
      then []
      else record { op = text "add"; path = text "/metadata/labels"; value = object end } ∷ [])
    ++ (record { op = text "add"; path = label_json_path; value = string (label_value contains) }
        ∷ [])

-- buildJSONPatchForLabel, with json.Unmarshal into a map and json.Marshal of the operations.
unfoldable pub build_json_patch_for_label :
    (Text → Result Text Fields)
    → (List Operation → Result Text Text)
    → Text
    → Bool
    → Result Text Text
unfolding label_operations
build_json_patch_for_label unmarshal marshal raw contains =
    and_then (unmarshal raw) λ incoming. marshal (label_operations incoming contains)

module _ {World Config Client : Type 0} (cluster : Cluster World Config Client)
    (unmarshal : Text → Result Text Fields) (marshal : List Operation → Result Text Text) where
  -- main: the decision and the patch that it prints.
  unfoldable pub main : Exec World Exit (Bool × Text)
  unfolding build_json_patch_for_label
  main = do
    contains ←
        decide cluster (text "dr-sample-")
          (text "User posted: My password is P@ssw0rd " ++ text "and my SSN is 123-45-6789")
    patch ← lift (
        map_err failed_to_build_output (
          build_json_patch_for_label unmarshal marshal
            (text
              "{\"apiVersion\":\"v1\",\"kind\":\"Pod\",\"metadata\":{\"name\":\"sample\",\"namespace\":\"default\"}}")
            contains))
    pure (contains, patch)
