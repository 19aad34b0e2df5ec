-- ===== src/Decision/Fixed.antt =====
-- The normal questions are the well-formed ones.
use api_extension.Prelude.{◌≡◌, refl, inl, inr, false, some, [], arith, ◌↔◌, ok}
use api_extension.Text.{Text, text, ◌==◌, eq_iff, eq_false, eq_refl}
use api_extension.Text.Strings.{trim_space, to_lower}
use api_extension.Value.{Value, string, array, object, Items, nil, cons, Fields, end, field}
use api_extension.Kube.{Question}
use api_extension.Decision.{
  normalize_value, is_blank, choice_criteria, score_criteria, choice_of, score_of, choice, score,
  noul, criteria_of, normalize_question,
}
use api_extension.Decision.Normal.{AllNormal, EachNormal, normalize_value-eq_iff}
use api_extension.Decision.Questions.{
  AllTexts, EachText, IsChoices, IsScores, HasCriteria, IsWellFormed,
  normalize_question-IsWellFormed,
}

choice_criteria_of_AllTexts : (m : Fields) → AllTexts m → choice_criteria m ≡ some m
unfolding choice_criteria
choice_criteria_of_AllTexts end h = refl
choice_criteria_of_AllTexts (field option (string s) m) (named, (same, full), h) =
    let filled : is_blank s ≡ false = unfold is_blank in rw same (eq_false s [] full) in
    rw (named, filled, choice_criteria_of_AllTexts m h, same)
choice_criteria_of_AllTexts (field option _ m) h = absurd h

score_criteria_of_EachText : (xs : Items) → EachText xs → score_criteria xs ≡ some xs
unfolding score_criteria
score_criteria_of_EachText nil h = refl
score_criteria_of_EachText (cons (string s) xs) ((same, full), h) =
    let filled : is_blank s ≡ false = unfold is_blank in rw same (eq_false s [] full) in
    rw (filled, score_criteria_of_EachText xs h, same)
score_criteria_of_EachText (cons _ xs) h = absurd h

AllNormal-of_AllTexts : (m : Fields) → AllTexts m → AllNormal m
AllNormal-of_AllTexts end h = tt
AllNormal-of_AllTexts (field option (string s) m) (named, same, h) = (tt, AllNormal-of_AllTexts m h)
AllNormal-of_AllTexts (field option _ m) h = absurd h

EachNormal-of_EachText : (xs : Items) → EachText xs → EachNormal xs
EachNormal-of_EachText nil h = tt
EachNormal-of_EachText (cons (string s) xs) (same, h) = (tt, EachNormal-of_EachText xs h)
EachNormal-of_EachText (cons _ xs) h = absurd h

choice_of-IsChoices :
    (name : Text) (v : Value) → IsChoices v → choice_of name (normalize_value v) ≡ ok v
choice_of-IsChoices name (object (field k v m)) h =
    rw ((normalize_value-eq_iff (object (field k v m))).0 (AllNormal-of_AllTexts (field k v m) h))
      (rw (choice_criteria_of_AllTexts (field k v m) h, choice_of))
choice_of-IsChoices name (object end) h = absurd h
choice_of-IsChoices name _ h = absurd h

score_of-IsScores :
    (name : Text) (v : Value) → IsScores v → score_of name (normalize_value v) ≡ ok v
score_of-IsScores name (array (cons v xs)) h =
    rw ((normalize_value-eq_iff (array (cons v xs))).0 (EachNormal-of_EachText (cons v xs) h))
      (rw (score_criteria_of_EachText (cons v xs) h, score_of))
score_of-IsScores name (array nil) h = absurd h
score_of-IsScores name _ h = absurd h

-- The three words are their own lower case, and differ.
words :
    (to_lower (trim_space choice) ≡ choice)
    × (to_lower (trim_space score) ≡ score)
    × (to_lower (trim_space noul) ≡ noul)
    × ((score == choice) ≡ false)
    × ((noul == choice) ≡ false)
    × ((noul == score) ≡ false)
    × ((choice == []) ≡ false)
    × ((score == []) ≡ false)
    × ((noul == []) ≡ false)
unfolding choice score noul to_lower trim_space text ◌==◌
words = (refl, refl, refl, refl, refl, refl, refl, refl, refl)

criteria_of-HasCriteria :
    (name type : Text) (v : Value)
    → HasCriteria type v
    → (to_lower (trim_space type) ≡ type)
      × ((type == []) ≡ false)
      × (criteria_of name type v ≡ ok v)
unfolding criteria_of
criteria_of-HasCriteria name type v (inl (e, h)) =
    rw e (words.0, words.6, rw eq_refl (choice_of-IsChoices name v h))
criteria_of-HasCriteria name type v (inr (inl (e, h))) =
    rw e (words.1, words.7, rw (words.3, eq_refl) (score_of-IsScores name v h))
criteria_of-HasCriteria name type v (inr (inr (e, h))) =
    rw (e, h) (words.2, words.8, rw (words.4, words.5, eq_refl))

normalize_of_IsWellFormed :
    (name : Text) (q : Question) → IsWellFormed q → normalize_question name q ≡ ok q
unfolding normalize_question
normalize_of_IsWellFormed name q ((same, full), h) =
    let (lowered, named, c) = criteria_of-HasCriteria name q.type q.criteria h in
    ground (arith, eq_iff q.instructions [])

-- The normal questions are the well-formed ones: a question is left as it is by its normalisation
-- exactly when it is well formed.
pub normalize_question-eq_iff :
    (name : Text) (q : Question) → IsWellFormed q ↔ (normalize_question name q ≡ ok q)
normalize_question-eq_iff name q =
    (normalize_of_IsWellFormed name q, normalize_question-IsWellFormed name q q)
