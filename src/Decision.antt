-- ===== src/Decision.antt =====
-- internal/apiserver/decision.go: the request and its normal form.
pub mod Normal
pub mod Questions
pub mod Fixed
pub mod Requests
pub mod Orders
pub mod Handler
pub mod Answers
pub mod Decoded
pub mod Documents
pub mod Typed
pub mod Quiet
use api_extension.Prelude.{
  ◌++◌, Bool, true, false, ◌||◌, Option, none, some, List, [], ◌∷◌, if◌then◌else◌, Result, ok, err,
  and_then,
}
use api_extension.Text.{Text, text, ◌==◌}
use api_extension.Text.Strings.{trim_space, to_lower}
use api_extension.Value.{
  Value, null, string, array, object, mapping, boolean, number, bytes, Items, nil, cons, Fields,
  end, field, Entries, stop, entry, sprint, lookup, insert, is_empty, string_or_empty,
}
use api_extension.Kube.{Question, Codec}

-- decisionRequest
pub record DecisionRequest : Type 0 where
  pub name : Text
  pub namespace : Text
  pub state : Value
  pub questions : List (Text × Question)

-- normalizeDecisionValue: every map becomes one with text keys. The loop over a
-- `map[interface{}]interface{}` writes into a new map, where a later key that prints alike wins.
unfoldable mutual
  pub normalize_value : Value → Value
  normalize_value (mapping es) = object (normalize_entries es end)
  normalize_value (object m) = object (normalize_fields m)
  normalize_value (array xs) = array (normalize_items xs)
  normalize_value null = null
  normalize_value (boolean b) = boolean b
  normalize_value (number s) = number s
  normalize_value (string s) = string s
  normalize_value (bytes s) = bytes s

  pub normalize_entries : Entries → Fields → Fields
  normalize_entries stop out = out
  normalize_entries (entry k v es) out =
      normalize_entries es (insert (sprint k) (normalize_value v) out)

  pub normalize_fields : Fields → Fields
  normalize_fields end = end
  normalize_fields (field k v m) = field k (normalize_value v) (normalize_fields m)

  pub normalize_items : Items → Items
  normalize_items nil = nil
  normalize_items (cons v xs) = cons (normalize_value v) (normalize_items xs)

unfoldable pub is_blank : Text → Bool
is_blank s = trim_space s == []

-- The loop over the criteria of a choice: options with their trimmed texts, or `none` at a value that
-- is no text or is blank, or at a blank option.
unfoldable pub choice_criteria : Fields → Option Fields
unfolding is_blank
choice_criteria end = some end
choice_criteria (field option (string s) m) =
    if is_blank option || is_blank s then none else elim (choice_criteria m) [
      | none ↦ none
      | some rest ↦ some (field option (string (trim_space s)) rest)
    ]
choice_criteria (field option v m) = none

-- The loop over the criteria of a score.
unfoldable pub score_criteria : Items → Option Items
unfolding is_blank
score_criteria nil = some nil
score_criteria (cons (string s) xs) = if is_blank s then none else elim (score_criteria xs) [
  | none ↦ none
  | some rest ↦ some (cons (string (trim_space s)) rest)
]
score_criteria (cons v xs) = none

abbrev question_error : Text → Text → Text
question_error name what = text "spec.questions." ++ name ++ what

abbrev pub choice_of : Text → Value → Result Text Value
choice_of name (object (field k v m)) = elim (choice_criteria (field k v m)) [
  | none ↦ err (question_error name (text ".criteria must only contain non-empty string values"))
  | some criteria ↦ ok (object criteria)
]
choice_of name _ =
    err (question_error name (text ".criteria must be a non-empty object for choice questions"))

abbrev pub score_of : Text → Value → Result Text Value
score_of name (array (cons v xs)) = elim (score_criteria (cons v xs)) [
  | none ↦ err (question_error name (text ".criteria must only contain non-empty strings"))
  | some criteria ↦ ok (array criteria)
]
score_of name _ =
    err (question_error name (text ".criteria must be a non-empty array for score questions"))

unfoldable pub choice : Text
choice = text "choice"

unfoldable pub score : Text
score = text "score"

unfoldable pub noul : Text
noul = text "noul"

-- The criteria of a question of a type.
unfoldable pub criteria_of : Text → Text → Value → Result Text Value
criteria_of name type criteria =
    if type == choice
    then choice_of name (normalize_value criteria)
    else if type == score
    then score_of name (normalize_value criteria)
    else if type == noul
    then ok null
    else err (question_error name (text ".type must be one of choice, score, noul"))

-- normalizeDecisionQuestion
unfoldable pub normalize_question : Text → Question → Result Text Question
normalize_question name question =
    let type = to_lower (trim_space question.type) in
    let instructions = trim_space question.instructions in
    if type == []
    then err (question_error name (text ".type is required"))
    else if instructions == []
    then err (question_error name (text ".instructions is required"))
    else and_then (criteria_of name type question.criteria)
        λ criteria. ok (record { type = type; instructions = instructions; criteria = criteria })

-- The loop over the questions.
unfoldable pub normalize_questions : List (Text × Question) → Result Text (List (Text × Question))
unfolding is_blank
normalize_questions [] = ok []
normalize_questions ((key, question) ∷ questions) =
    if is_blank key
    then err (text "spec.questions contains an empty key")
    else and_then (normalize_question key question)
        λ normalized. and_then (normalize_questions questions) λ rest. ok ((key, normalized) ∷ rest)

abbrev pub is_nil {ℓ} : {A : Type ℓ} → List A → Bool
is_nil [] = true
is_nil (x ∷ xs) = false

-- decodeDecisionRequest
unfoldable pub decode_decision_request : Codec → Text → Result Text DecisionRequest
decode_decision_request codec body = and_then (codec.unmarshal_decision body) λ payload.
    if is_nil payload.questions
    then err (text "spec.questions is required")
    else and_then (normalize_questions payload.questions) λ questions. ok (record {
      name = trim_space (string_or_empty (lookup (text "name") payload.metadata));
      namespace = trim_space (string_or_empty (lookup (text "namespace") payload.metadata));
      state = normalize_value payload.state;
      questions = questions;
    })
