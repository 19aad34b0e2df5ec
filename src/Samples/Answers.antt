-- ===== src/Samples/Answers.antt =====
-- How the sample webhooks of config/samples and the server of internal/apiserver/decision.go fit together.
use api_extension.Prelude.{
  ℕ, Bool, true, false, some, List, [], ◌∷◌, ◌≡◌, ◌↔◌, ◌⊎◌, inl, inr, ◌||◌, refl, ap, ok, arith,
  Option-cases,
}
use api_extension.Text.{Text, text, ◌==◌, eq_iff}
use api_extension.Text.Strings.{trim_space, to_lower}
use api_extension.Value.{
  Value, null, boolean, number, string, bytes, array, object, mapping, Fields, end, field, lookup,
  string_or_empty, insert, sprint,
}
use api_extension.Kube.{Question, Codec, DecisionPayload, DecisionAnswer}
use api_extension.Decision.{
  decode_decision_request, normalize_questions, normalize_question, normalize_value, criteria_of,
  choice, choice_criteria, is_blank,
}
use api_extension.Value.Yaml.{yaml_of, yaml_fields}
use api_extension.Decision.Documents.{IsQuestion, AreQuestions, IsRead}
use api_extension.Decision.Handler.{response_of}
use api_extension.Samples.{
  question_key, answer_contains, answer_no, criteria, question, instructions, state_of,
  decision_request, extract_sensitive_decision, is_yes, value_is_yes, answer_is_yes,
}

-- The question of the samples, as the server reads it.
abbrev pub asked : Question
asked = record { type = text "choice"; instructions = instructions; criteria = object criteria }

-- The same, as it is decoded.
abbrev pub decoded : Question
decoded = record asked { criteria = yaml_of (object criteria) }

decoded-asked : normalize_question question_key decoded ≡ ok asked
unfolding normalize_question criteria_of criteria choice_criteria normalize_value is_blank
    trim_space answer_contains answer_no text ◌==◌ instructions choice to_lower yaml_of insert
    sprint
decoded-asked = refl

question_key-blank : is_blank question_key ≡ false
unfolding is_blank question_key trim_space text ◌==◌
question_key-blank = refl

decoded-IsQuestion : (q : Question) → IsQuestion (object question) q → q ≡ decoded
unfolding question lookup text ◌==◌
decoded-IsQuestion q (t, i, c) = λ d. record { type = t d; instructions = i d; criteria = c d }

questions-AreQuestions :
    (qs : List (Text × Question))
    → AreQuestions (field question_key (object question) end) qs
    → qs ≡ (question_key, decoded) ∷ []
questions-AreQuestions [] h = absurd h
questions-AreQuestions ((j, q) ∷ []) (e, h, t) = λ i. (e i, decoded-IsQuestion q h i) ∷ []
questions-AreQuestions (q ∷ r ∷ qs) (e, h, t) = absurd t

decision_request-IsRead :
    (name source : Text) (payload : DecisionPayload)
    → IsRead (decision_request name source) payload
    → (payload.metadata ≡ yaml_fields (field (text "name") (string name) end))
      × (payload.state ≡ yaml_of (object (state_of source)))
      × (payload.questions ≡ (question_key, decoded) ∷ [])
unfolding decision_request lookup text ◌==◌
decision_request-IsRead name source payload (m, (s, q)) =
    (m, s, questions-AreQuestions payload.questions q)

-- A request of the samples is decoded, whatever its source: where the YAML decoder fills its struct from
-- the object that the sample has sent, the server asks the decision maker just the question of the
-- sample about just this source, under the name that the sample gave, trimmed.
pub decode-asked :
    (codec : Codec) (body name source : Text) (payload : DecisionPayload)
    → codec.unmarshal_decision body ≡ ok payload
    → IsRead (decision_request name source) payload
    → decode_decision_request codec body
      ≡ ok (record {
        name = trim_space name;
        namespace = [];
        state = object (state_of source);
        questions = (question_key, asked) ∷ [];
      })
unfolding decode_decision_request normalize_questions normalize_value state_of string_or_empty
    lookup text ◌==◌ trim_space yaml_of yaml_fields insert sprint
decode-asked codec body name source payload h r =
    let (m, s, q) = decision_request-IsRead name source payload r in
    rw (h, m, s, q, question_key-blank, decoded-asked) refl

-- What a sample makes of the server's response is what it makes of the decision maker's answer to its
-- question; without one it is no.
extract-response_of :
    (codec : Codec) (name namespace : Text) (time : ℕ) (answer : DecisionAnswer)
    → extract_sensitive_decision (response_of codec name namespace time answer)
      ≡ answer_is_yes (lookup question_key answer.answers)
unfolding extract_sensitive_decision response_of lookup text ◌==◌
extract-response_of codec name namespace time answer = refl

-- What counts as yes, after the texts of the webhooks: true, one of four texts, or an object whose
-- "value" is true or one of two texts.
abbrev pub IsYesValue : Value → Type 0
IsYesValue v =
    (v ≡ boolean true) ⊎ (v ≡ string (text "true")) ⊎ (v ≡ string (text "contains-sensitive-info"))

abbrev pub IsYes : Value → Type 0
IsYes v =
    IsYesValue v
    ⊎ (v ≡ string (text "yes"))
    ⊎ (v ≡ string (text "contains_sensitive_info"))
    ⊎ ((m : Fields) × (u : Value) × (v ≡ object m)
        × (lookup (text "value") m ≡ some u)
        × IsYesValue u)

or-true : (a b : Bool) → (a || b) ≡ true → (a ≡ true) ⊎ (b ≡ true)
or-true true b h = inl refl
or-true false b h = inr h

value_is_yes-eq-true_iff : (v : Value) → (value_is_yes (some v) ≡ true) ↔ IsYesValue v
unfolding value_is_yes answer_contains text ◌==◌
value_is_yes-eq-true_iff v = (to v, back)
  where
    back : IsYesValue v → value_is_yes (some v) ≡ true
    back (inl e) = rw e refl
    back (inr (inl e)) = rw e refl
    back (inr (inr e)) = rw e refl

    to : (v : Value) → value_is_yes (some v) ≡ true → IsYesValue v
    to (boolean b) h = inl (ap boolean h)
    to (string s) h = elim (or-true (s == text "true") (s == answer_contains) h) [
      | inl e ↦ inr (inl (ap string ((eq_iff s (text "true")).0 e)))
      | inr e ↦ inr (inr (ap string ((eq_iff s answer_contains).0 e)))
    ]
    to null h = cc
    to (number n) h = cc
    to (bytes b) h = cc
    to (array xs) h = cc
    to (object m) h = cc
    to (mapping m) h = cc

is_yes-eq-true_iff : (v : Value) → (is_yes v ≡ true) ↔ IsYes v
unfolding is_yes answer_contains question_key text ◌==◌
is_yes-eq-true_iff v = (to v, back)
  where
    object_value : (m : Fields) → value_is_yes (lookup (text "value") m) ≡ true → IsYes (object m)
    object_value m h = elim (Option-cases (lookup (text "value") m)) [
      | inl e ↦ absurd (ground arith)
      | inr (u, e) ↦ inr (inr (inr (m, u, refl, e, (value_is_yes-eq-true_iff u).0 (ground arith))))
    ]

    to : (v : Value) → is_yes v ≡ true → IsYes v
    to (boolean b) h = inl (inl (ap boolean h))
    to (string s) h =
        elim (or-true (s == text "true" || s == text "yes" || s == answer_contains)
          (s == question_key) h) [
            | inl h₁ ↦
                elim (or-true (s == text "true" || s == text "yes") (s == answer_contains) h₁) [
                  | inl h₂ ↦ elim (or-true (s == text "true") (s == text "yes") h₂) [
                    | inl e ↦ inl (inr (inl (ap string ((eq_iff s (text "true")).0 e))))
                    | inr e ↦ inr (inl (ap string ((eq_iff s (text "yes")).0 e)))
                  ]
                  | inr e ↦ inl (inr (inr (ap string ((eq_iff s answer_contains).0 e))))
                ]
            | inr e ↦ inr (inr (inl (ap string ((eq_iff s question_key).0 e))))
          ]
    to (object m) h = object_value m h
    to null h = cc
    to (number n) h = cc
    to (bytes b) h = cc
    to (array xs) h = cc
    to (mapping m) h = cc

    back : IsYes v → is_yes v ≡ true
    back (inl (inl e)) = rw e refl
    back (inl (inr (inl e))) = rw e refl
    back (inl (inr (inr e))) = rw e refl
    back (inr (inl e)) = rw e refl
    back (inr (inr (inl e))) = rw e refl
    back (inr (inr (inr (m, u, e, f, y)))) = rw (e, f) ((value_is_yes-eq-true_iff u).1 y)

-- A sample takes the server's response for yes exactly when the decision maker has answered its question
-- with true, with one of the texts "true", "contains-sensitive-info", "yes" and
-- "contains_sensitive_info", or with an object whose member "value" is true or one of the first two of
-- these texts. So an answer that is an object without "value", as a choice with its probabilities is,
-- is never taken for yes.
pub extract-IsYes_iff :
    (codec : Codec) (name namespace : Text) (time : ℕ) (answer : DecisionAnswer)
    → (extract_sensitive_decision (response_of codec name namespace time answer) ≡ true)
      ↔ ((v : Value) × (lookup question_key answer.answers ≡ some v) × IsYes v)
extract-IsYes_iff codec name namespace time answer =
    let same = extract-response_of codec name namespace time answer in
    elim (Option-cases (lookup question_key answer.answers)) [
      | inl e ↦ (λ h. absurd (ground arith), λ (v, f, y). absurd (ground arith))
      | inr (v, e) ↦ (
        λ h. (v, e, (is_yes-eq-true_iff v).0 (ground arith)),
        λ (u, f, y). let h : is_yes u ≡ true = (is_yes-eq-true_iff u).1 y in ground arith,
      )
    ]
