-- ===== src/Decision/Questions.antt =====
-- What a question holds once it is normalised.
use api_extension.Prelude.{
  ◌≡◌, ◌≢◌, refl, ◌⊎◌, inl, inr, false, some, [], arith, Bool-cases, Option-cases, Result-cases, ok,
}
use api_extension.Text.{Text, ◌==◌, eq_iff}
use api_extension.Text.Strings.{trim_space, to_lower}
use api_extension.Text.Laws.{trim_space_idem}
use api_extension.Value.{Value, null, string, array, object, Items, nil, cons, Fields, end, field}
use api_extension.Kube.{Question}
use api_extension.Decision.{
  is_blank, choice_criteria, score_criteria, choice_of, score_of, choice, score, noul, criteria_of,
  normalize_question,
}

-- A text that is trimmed and not empty.
abbrev pub IsTrimmed : Text → Type 0
IsTrimmed s = (trim_space s ≡ s) × (s ≢ [])

-- Every option has a trimmed text.
abbrev pub AllTexts : Fields → Type 0
AllTexts end = Unit
AllTexts (field option (string s) m) = (is_blank option ≡ false) × IsTrimmed s × AllTexts m
AllTexts (field option v m) = ⊥

abbrev pub EachText : Items → Type 0
EachText nil = Unit
EachText (cons (string s) xs) = IsTrimmed s × EachText xs
EachText (cons v xs) = ⊥

abbrev pub IsChoices : Value → Type 0
IsChoices (object (field k v m)) = AllTexts (field k v m)
IsChoices _ = ⊥

abbrev pub IsScores : Value → Type 0
IsScores (array (cons v xs)) = EachText (cons v xs)
IsScores _ = ⊥

-- The three kinds of question, each with its criteria.
abbrev pub HasCriteria : Text → Value → Type 0
HasCriteria type criteria =
    ((type ≡ choice) × IsChoices criteria)
    ⊎ (((type ≡ score) × IsScores criteria) ⊎ ((type ≡ noul) × (criteria ≡ null)))

abbrev pub IsWellFormed : Question → Type 0
IsWellFormed q = IsTrimmed q.instructions × HasCriteria q.type q.criteria

trimmed : (s : Text) → is_blank s ≡ false → IsTrimmed (trim_space s)
unfolding is_blank
trimmed s h = (trim_space_idem s, ground (arith, eq_iff (trim_space s) []))

-- A round of the loop over the options that does not fail.
choice_criteria-field :
    (option : Text) (v : Value) (m m' : Fields)
    → choice_criteria (field option v m) ≡ some m'
    → (s : Text) × (rest : Fields) × (v ≡ string s)
      × (choice_criteria m ≡ some rest)
      × (m' ≡ field option (string (trim_space s)) rest)
      × (is_blank option ≡ false)
      × (is_blank s ≡ false)
unfolding choice_criteria
choice_criteria-field option (string s) m m' h = elim (Option-cases (choice_criteria m)) [
  | inl e ↦ absurd (ground arith)
  | inr (rest, e) ↦ (s, rest, refl, e, ground arith, ground arith, ground arith)
]
choice_criteria-field option _ m m' h = cc

choice_criteria-AllTexts : (m m' : Fields) → choice_criteria m ≡ some m' → AllTexts m'
choice_criteria-AllTexts end m' h = unfold choice_criteria in ground arith
choice_criteria-AllTexts (field option v m) m' h =
    let (s, rest, is_text, e, same, named, full) = choice_criteria-field option v m m' h in
    rw same (named, trimmed s full, choice_criteria-AllTexts m rest e)

score_criteria-cons :
    (v : Value) (xs xs' : Items)
    → score_criteria (cons v xs) ≡ some xs'
    → (s : Text) × (rest : Items) × (v ≡ string s)
      × (score_criteria xs ≡ some rest)
      × (xs' ≡ cons (string (trim_space s)) rest)
      × (is_blank s ≡ false)
unfolding score_criteria
score_criteria-cons (string s) xs xs' h = elim (Option-cases (score_criteria xs)) [
  | inl e ↦ absurd (ground arith)
  | inr (rest, e) ↦ (s, rest, refl, e, ground arith, ground arith)
]
score_criteria-cons _ xs xs' h = cc

score_criteria-EachText : (xs xs' : Items) → score_criteria xs ≡ some xs' → EachText xs'
score_criteria-EachText nil xs' h = unfold score_criteria in ground arith
score_criteria-EachText (cons v xs) xs' h =
    let (s, rest, is_text, e, same, full) = score_criteria-cons v xs xs' h in
    rw same (trimmed s full, score_criteria-EachText xs rest e)

choice_of-IsChoices :
    (name : Text) (v criteria : Value) → choice_of name v ≡ ok criteria → IsChoices criteria
choice_of-IsChoices name (object (field k v m)) criteria h =
    elim (Option-cases (choice_criteria (field k v m))) [
      | inl e ↦ absurd (ground arith)
      | inr (m', e) ↦
          let (s, rest, is_text, e', same, named, full) = choice_criteria-field k v m m' e in
          let here : criteria ≡ object m' = ground arith in
          rw (here, same) (named, trimmed s full, choice_criteria-AllTexts m rest e')
    ]
choice_of-IsChoices name (object end) criteria h = cc
choice_of-IsChoices name _ criteria h = cc

score_of-IsScores :
    (name : Text) (v criteria : Value) → score_of name v ≡ ok criteria → IsScores criteria
score_of-IsScores name (array (cons v xs)) criteria h =
    elim (Option-cases (score_criteria (cons v xs))) [
      | inl e ↦ absurd (ground arith)
      | inr (xs', e) ↦
          let (s, rest, is_text, e', same, full) = score_criteria-cons v xs xs' e in
          let here : criteria ≡ array xs' = ground arith in
          rw (here, same) (trimmed s full, score_criteria-EachText xs rest e')
    ]
score_of-IsScores name (array nil) criteria h = cc
score_of-IsScores name _ criteria h = cc

criteria_of-HasCriteria :
    (name type : Text) (v criteria : Value)
    → criteria_of name type v ≡ ok criteria
    → HasCriteria type criteria
unfolding criteria_of
criteria_of-HasCriteria name type v criteria h = elim (Bool-cases (type == choice)) [
  | inl e ↦ inl ((eq_iff type choice).0 e, choice_of-IsChoices name _ criteria (rw e at h))
  | inr e ↦ elim (Bool-cases (type == score)) [
    | inl e' ↦
        inr (inl ((eq_iff type score).0 e', score_of-IsScores name _ criteria (rw (e, e') at h)))
    | inr e' ↦ inr (inr (ground (arith, eq_iff type noul), ground arith))
  ]
]

-- A normalisation that does not fail.
normalize_question-eq :
    (name : Text) (question q : Question)
    → normalize_question name question ≡ ok q
    → (q.instructions ≡ trim_space question.instructions)
      × (trim_space question.instructions ≢ [])
      × (criteria_of name q.type question.criteria ≡ ok q.criteria)
unfolding normalize_question
normalize_question-eq name question q h =
    elim (Result-cases (criteria_of name (to_lower (trim_space question.type)) question.criteria)) [
      | inl (c, e) ↦ ground (arith, eq_iff (trim_space question.instructions) [])
      | inr (x, e) ↦ absurd (ground arith)
    ]

-- A normalised question has trimmed instructions that are not empty, and one of the three types with
-- the criteria of that type: at least one option, each with a trimmed text that is not empty; at
-- least one trimmed text that is not empty; or none.
pub normalize_question-IsWellFormed :
    (name : Text) (question q : Question) → normalize_question name question ≡ ok q → IsWellFormed q
normalize_question-IsWellFormed name question q h =
    let (same, full, c) = normalize_question-eq name question q h in
    (
      (rw same (trim_space_idem question.instructions), rw same full),
      criteria_of-HasCriteria name q.type question.criteria q.criteria c,
    )
