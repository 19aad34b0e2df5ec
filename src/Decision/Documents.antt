-- ===== src/Decision/Documents.antt =====
-- api/v1/decision_types.go and internal/apiserver/decision.go: how the server reads a decision request of
-- the Go type.
use api_extension.Prelude.{
  ◌≡◌, ◌≢◌, refl, sym, ap, ◌∙◌, false, Option, none, some, List, [], ◌∷◌, All, ok,
}
use api_extension.Text.{Text, text, ◌==◌}
use api_extension.Text.Strings.{trim_space}
use api_extension.Value.{Value, null, object, Fields, end, field, lookup, string_or_empty}
use api_extension.Value.Yaml.{yaml_fields, IsDocument, IsText, IsAny, IsMap, string-yaml_fields}
use api_extension.Kube.{Question, Codec, DecisionPayload}
use api_extension.Api.Headers.{lookup-with_header, metadata-with_header}
use api_extension.Api.Requests.{
  DecisionQuestion, DecisionRequest, with_pointer, question_document, questions_document,
  decision_document,
}
use api_extension.Decision.{
  decode_decision_request, normalize_questions, normalize_question, normalize_value, criteria_of,
  is_nil,
}
use api_extension.Decision.Normal.{normalize_value_idem}
use api_extension.Decision.Decoded.{normalize-yaml_of}
use api_extension.Decision.Fixed.{normalize_question-eq_iff}
use api_extension.Decision.Requests.{IsKeyed}

-- What the decoder into the struct of decodeDecisionRequest makes of an object: it fills each field from
-- the member of its name.
abbrev pub IsQuestion : Value → Question → Type 0
IsQuestion (object m) q =
    IsText (lookup (text "type") m) q.type
    × IsText (lookup (text "instructions") m) q.instructions
    × IsAny (lookup (text "criteria") m) q.criteria
IsQuestion null q = Unit
IsQuestion v q = ⊥

abbrev pub AreQuestions : Fields → List (Text × Question) → Type 0
AreQuestions end [] = Unit {0}
AreQuestions end (q ∷ qs) = ⊥
AreQuestions (field k v m) [] = ⊥
AreQuestions (field k v m) ((j, q) ∷ qs) = (j ≡ k) × IsQuestion v q × AreQuestions m qs

abbrev pub AreAsked : Option Value → List (Text × Question) → Type 0
AreAsked (some (object m)) qs = AreQuestions m qs
AreAsked (some null) qs = qs ≡ []
AreAsked none qs = qs ≡ []
AreAsked (some v) qs = ⊥

abbrev pub IsSpec : Option Value → DecisionPayload → Type 0
IsSpec (some (object m)) p =
    IsAny (lookup (text "state") m) p.state × AreAsked (lookup (text "questions") m) p.questions
IsSpec (some null) p = (p.state ≡ null) × (p.questions ≡ [])
IsSpec none p = (p.state ≡ null) × (p.questions ≡ [])
IsSpec (some v) p = ⊥

abbrev pub IsRead : Fields → DecisionPayload → Type 0
IsRead request p =
    IsMap (lookup (text "metadata") request) p.metadata × IsSpec (lookup (text "spec") request) p

-- A value that may be missing.
abbrev pub or_null : Option Value → Value
or_null none = null
or_null (some v) = v

abbrev pub IsDocument? : Option Value → Type 0
IsDocument? none = Unit
IsDocument? (some v) = IsDocument v

-- The question that the server asks for a question of the Go type.
abbrev pub asked : DecisionQuestion → Question
asked q = record { type = q.type; instructions = q.instructions; criteria = or_null q.criteria }

abbrev pub all_asked : List (Text × DecisionQuestion) → List (Text × Question)
all_asked [] = []
all_asked ((key, q) ∷ qs) = (key, asked q) ∷ all_asked qs

-- A question that is well formed already, under a key that is not blank.
abbrev pub IsReady : Text × DecisionQuestion → Type 0
IsReady (key, q) = IsDocument? q.criteria × IsKeyed (key, asked q)

IsAny-normal :
    (o : Option Value) (v : Value) → IsDocument? o → IsAny o v → normalize_value v ≡ or_null o
unfolding normalize_value
IsAny-normal none v d h = ap normalize_value h
IsAny-normal (some u) v d h = ap normalize_value h ∙ normalize-yaml_of u d

normalize_question-normal :
    (name : Text) (q r : Question)
    → q.type ≡ r.type
    → q.instructions ≡ r.instructions
    → normalize_value q.criteria ≡ normalize_value r.criteria
    → normalize_question name q ≡ normalize_question name r
unfolding normalize_question criteria_of
normalize_question-normal name q r t i c = rw (t, i, c) refl

IsAny-normalize :
    (o : Option Value) (v : Value)
    → IsDocument? o
    → IsAny o v
    → normalize_value v ≡ normalize_value (or_null o)
IsAny-normalize o v d h =
    let e = IsAny-normal o v d h in sym (normalize_value_idem v) ∙ ap normalize_value e

-- A question of the Go type as the decoder reads it.
question_document-IsQuestion :
    (q : DecisionQuestion) (r : Question)
    → IsQuestion (object (question_document q)) r
    → (r.type ≡ q.type) × (r.instructions ≡ q.instructions) × IsAny q.criteria r.criteria
question_document-IsQuestion q r h = from_criteria q.criteria q.type q.instructions r h
  where
    from_criteria :
        (o : Option Value) (t i : Text) (r : Question)
        → IsQuestion
            (object (question_document (record { type = t; instructions = i; criteria = o })))
            r
        → (r.type ≡ t) × (r.instructions ≡ i) × IsAny o r.criteria
    from_criteria none t i r h = unfold question_document with_pointer lookup text ◌==◌ in h
    from_criteria (some v) t i r h = unfold question_document with_pointer lookup text ◌==◌ in h

normalize_questions-all_asked :
    (qs : List (Text × DecisionQuestion)) (rs : List (Text × Question))
    → All IsReady qs
    → AreQuestions (questions_document qs) rs
    → normalize_questions rs ≡ ok (all_asked qs)
unfolding questions_document normalize_questions
normalize_questions-all_asked [] [] ready h = refl
normalize_questions-all_asked [] (r ∷ rs) ready h = absurd h
normalize_questions-all_asked ((key, q) ∷ qs) [] ready h = absurd h
normalize_questions-all_asked ((key, q) ∷ qs) ((j, r) ∷ rs) ((d, (named, well)), ready)
      (same, h, hs) =
    let (t, i, c) = question_document-IsQuestion q r h in
    let one : normalize_question key r ≡ ok (asked q) =
      normalize_question-normal key r (asked q) t i (IsAny-normalize q.criteria r.criteria d c)
      ∙ (normalize_question-eq_iff key (asked q)).0 well in
    rw (same, named, one, normalize_questions-all_asked qs rs ready hs) refl

AreQuestions-some :
    (qs : List (Text × DecisionQuestion)) (rs : List (Text × Question))
    → qs ≢ []
    → AreQuestions (questions_document qs) rs
    → is_nil rs ≡ false
unfolding questions_document
AreQuestions-some [] rs some_question h = absurd (some_question refl)
AreQuestions-some (q ∷ qs) [] some_question h = absurd h
AreQuestions-some (q ∷ qs) (r ∷ rs) some_question h = refl

IsSpec-all_asked :
    (r : DecisionRequest) (p : DecisionPayload)
    → IsSpec (lookup (text "spec") (decision_document r)) p
    → IsAny r.spec.state p.state × AreQuestions (questions_document r.spec.questions) p.questions
unfolding decision_document
IsSpec-all_asked r p h = from_state r.spec.state (rw (lookup-with_header r.header) at h)
  where
    from_state :
        (o : Option Value)
        → IsSpec
            (some (
              object (
                with_pointer
                  (text "state")
                  o
                  (field (text "questions") (object (questions_document r.spec.questions)) end))))
            p
        → IsAny o p.state × AreQuestions (questions_document r.spec.questions) p.questions
    from_state none h = unfold with_pointer lookup text ◌==◌ in h
    from_state (some v) h = unfold with_pointer lookup text ◌==◌ in h

-- A decision request of the Go type arrives as it was sent: with at least one question, each of them well
-- formed and under a key that is not blank, it is decoded to the name and the namespace of its metadata,
-- trimmed, and to just its state and its questions, as far as the YAML decoder fills its struct from the
-- members of the object that the tags of the type give.
pub decode-all_asked :
    (codec : Codec) (body : Text) (r : DecisionRequest) (payload : DecisionPayload)
    → codec.unmarshal_decision body ≡ ok payload
    → IsRead (decision_document r) payload
    → r.spec.questions ≢ []
    → IsDocument? r.spec.state
    → All IsReady r.spec.questions
    → decode_decision_request codec body
      ≡ ok (record {
        name = trim_space (string_or_empty (lookup (text "name") r.header.metadata));
        namespace = trim_space (string_or_empty (lookup (text "namespace") r.header.metadata));
        state = or_null r.spec.state;
        questions = all_asked r.spec.questions;
      })
unfolding decode_decision_request
decode-all_asked codec body r payload h (m, s) some_question d ready =
    let (state, questions) = IsSpec-all_asked r payload s in
    let metadata : payload.metadata ≡ yaml_fields r.header.metadata =
      unfold decision_document in metadata-with_header r.header _ payload.metadata m in
    let asked_for =
      normalize_questions-all_asked r.spec.questions payload.questions ready questions in
    let name = string-yaml_fields (text "name") r.header.metadata in
    let namespace = string-yaml_fields (text "namespace") r.header.metadata in
    let there = AreQuestions-some r.spec.questions payload.questions some_question questions in
    rw
      (
        h,
        there,
        asked_for,
        metadata,
        name,
        namespace,
        IsAny-normal r.spec.state payload.state d state,
      )
      refl
