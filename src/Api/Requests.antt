-- ===== src/Api/Requests.antt =====
-- api/v1/decision_types.go and api/v1/transaction_types.go: the requests as Go types, and the JSON
-- objects that their tags say they are encoded to.
use api_extension.Prelude.{Option, none, some, List, [], ◌∷◌, if◌then◌else◌}
use api_extension.Text.{Text, text, ◌==◌}
use api_extension.Value.{
  Value, null, string, array, object, Items, nil, cons, Fields, end, field, is_empty,
}

-- metav1.TypeMeta by its two texts, and metav1.ObjectMeta by the members that it is encoded to.
pub record Header : Type 0 where
  pub api_version : Text
  pub kind : Text
  pub metadata : Fields

-- DecisionQuestion. A pointer to an apiextensionsv1.JSON is a value, or `none` if it is nil.
pub record DecisionQuestion : Type 0 where
  pub type : Text
  pub instructions : Text
  pub criteria : Option Value

pub record DecisionRequestSpec : Type 0 where
  pub state : Option Value
  pub questions : List (Text × DecisionQuestion)

pub record DecisionRequest : Type 0 where
  pub header : Header
  pub spec : DecisionRequestSpec

-- A [][]byte is a list of byte sequences, of which none is nil, or `none` if it is nil itself.
pub record TransactionRequestSpec : Type 0 where
  pub create : Option (List Text)
  pub update : Option (List Text)
  pub delete : Option (List Text)

pub record TransactionRequest : Type 0 where
  pub header : Header
  pub spec : TransactionRequestSpec

-- The tag `omitempty` on a pointer and on a text, and `omitzero` on the metadata.
unfoldable pub with_pointer : Text → Option Value → Fields → Fields
with_pointer k none m = m
with_pointer k (some v) m = field k v m

unfoldable pub with_text : Text → Text → Fields → Fields
with_text k s m = if s == [] then m else field k (string s) m

unfoldable pub with_object : Text → Fields → Fields → Fields
with_object k n m = if is_empty n then m else field k (object n) m

unfoldable pub with_header : Header → Fields → Fields
unfolding with_text with_object
with_header header m = with_text (text "kind") header.kind (
    with_text (text "apiVersion") header.api_version
      (with_object (text "metadata") header.metadata m))

unfoldable pub question_document : DecisionQuestion → Fields
unfolding with_pointer
question_document q = field (text "type") (string q.type) (
    field (text "instructions") (string q.instructions)
      (with_pointer (text "criteria") q.criteria end))

unfoldable pub questions_document : List (Text × DecisionQuestion) → Fields
unfolding question_document
questions_document [] = end
questions_document ((key, q) ∷ qs) =
    field key (object (question_document q)) (questions_document qs)

unfoldable pub decision_document : DecisionRequest → Fields
unfolding with_header with_pointer questions_document
decision_document r = with_header r.header (
    field (text "spec")
      (object (
        with_pointer (text "state") r.spec.state
          (field (text "questions") (object (questions_document r.spec.questions)) end)))
      end)

-- encoding/json writes a []byte as a text in base64, and a nil slice as null.
module _ (base64 : Text → Text) where
  unfoldable pub byte_items : List Text → Items
  byte_items [] = nil
  byte_items (b ∷ bs) = cons (string (base64 b)) (byte_items bs)

  abbrev pub bytes_document : Option (List Text) → Value
  bytes_document none = null
  bytes_document (some bs) = array (byte_items bs)

  unfoldable pub transaction_document : TransactionRequest → Fields
  unfolding with_header
  transaction_document r = with_header r.header (
      field (text "spec")
        (object (
          field (text "create") (bytes_document r.spec.create) (
            field (text "update") (bytes_document r.spec.update)
              (field (text "delete") (bytes_document r.spec.delete) end))))
        end)
