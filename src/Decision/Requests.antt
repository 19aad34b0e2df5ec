-- ===== src/Decision/Requests.antt =====
-- What a decision request holds once it is decoded.
use api_extension.Prelude.{
  ◌≡◌, ◌≢◌, refl, ap, inl, inr, false, List, [], ◌∷◌, arith, All, Result-cases, ok,
}
use api_extension.Text.{Text}
use api_extension.Kube.{Question, DecisionPayload, Codec}
use api_extension.Decision.{
  DecisionRequest, is_blank, normalize_question, normalize_questions, decode_decision_request,
}
use api_extension.Decision.Questions.{IsWellFormed, normalize_question-IsWellFormed}

-- A question under a key that is not blank, and well formed.
abbrev pub IsKeyed : Text × Question → Type 0
IsKeyed e = (is_blank e.0 ≡ false) × IsWellFormed e.1

abbrev pub keys : List (Text × Question) → List Text
keys [] = []
keys ((key, question) ∷ questions) = key ∷ keys questions

abbrev pub AreDecoded : List (Text × Question) → List (Text × Question) → Type 0
AreDecoded questions normalized = All IsKeyed normalized × (keys normalized ≡ keys questions)

-- The inversion of one round of the loop.
pub normalize_questions-cons :
    (key : Text) (question : Question) (questions normalized : List (Text × Question))
    → normalize_questions ((key, question) ∷ questions) ≡ ok normalized
    → (q : Question) × (rest : List (Text × Question)) × (is_blank key ≡ false)
      × (normalize_question key question ≡ ok q)
      × (normalize_questions questions ≡ ok rest)
      × (normalized ≡ (key, q) ∷ rest)
unfolding normalize_questions
normalize_questions-cons key question questions normalized h =
    elim (Result-cases (normalize_question key question)) [
      | inl (q, e) ↦ elim (Result-cases (normalize_questions questions)) [
        | inl (rest, e') ↦ (q, rest, ground arith, e, e', ground arith)
        | inr (x, e') ↦ absurd (ground arith)
      ]
      | inr (x, e) ↦ absurd (ground arith)
    ]

normalize_questions-AreDecoded :
    (questions normalized : List (Text × Question))
    → normalize_questions questions ≡ ok normalized
    → AreDecoded questions normalized
normalize_questions-AreDecoded [] normalized h =
    let none_left : normalized ≡ [] = unfold normalize_questions in ground arith in
    rw none_left (tt, refl)
normalize_questions-AreDecoded ((key, question) ∷ questions) normalized h =
    let (q, rest, named, e, e', same) =
      normalize_questions-cons key question questions normalized h in
    let (all, kept) = normalize_questions-AreDecoded questions rest e' in
    rw same
      (((named, normalize_question-IsWellFormed key question q e), all), ap (λ ks. key ∷ ks) kept)

-- A decision request that is decoded has at least one question. Its questions are those of the body,
-- key for key and in their order, none under a blank key, each with trimmed instructions, one of the
-- three types, and the criteria of that type.
pub decode-AreDecoded :
    (codec : Codec) (body : Text) (request : DecisionRequest)
    → decode_decision_request codec body ≡ ok request
    → (payload : DecisionPayload) × (codec.unmarshal_decision body ≡ ok payload)
      × (request.questions ≢ [])
      × AreDecoded payload.questions request.questions
unfolding decode_decision_request
decode-AreDecoded codec body request h = elim (Result-cases (codec.unmarshal_decision body)) [
  | inl (payload, e) ↦ elim (Result-cases (normalize_questions payload.questions)) [
    | inl (questions, e') ↦
        let same : request.questions ≡ questions = ground arith in
        let some_question : payload.questions ≢ [] = ground arith in
        let decoded = normalize_questions-AreDecoded payload.questions questions e' in
        (payload, e, ground arith, rw same decoded)
    | inr (x, e') ↦ absurd (ground arith)
  ]
  | inr (x, e) ↦ absurd (ground arith)
]
