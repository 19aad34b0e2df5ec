-- ===== src/Count/Selectors.antt =====
-- The field selectors of a count.
use api_extension.Prelude.{
  ℕ, ◌≡◌, refl, sym, ap, ◌∙◌, inl, inr, Bool, true, false, not, ◌&&◌, List, [], ◌∷◌, ◌++◌, arith,
  Bool-cases, if◌then◌else◌, append_assoc, All-append, ◌≢◌,
}
use api_extension.Text.{Text, text, ◌==◌, eq_iff}
use api_extension.Text.Strings.{split, join, has_prefix, trim_space}
use api_extension.Text.Laws.{Lacks, cut-append}
use api_extension.Count.{Selection, select, select_all, no_selection, parse_field_selectors}

-- A selector of the object's own fields, which the store is asked for.
unfoldable pub is_residual : Text → Bool
is_residual fs = not (has_prefix fs (text "apiVersion")) && not (has_prefix fs (text "kind"))

-- The trimmed selectors that are left for the store, less the empty ones in front.
unfoldable pub residual : List Text → List Text
residual [] = []
residual (fs ∷ rest) =
    let others = residual rest in
    if is_residual (trim_space fs) then trim_space fs ∷ others else others

unfoldable pub drop_empty : List Text → List Text
drop_empty [] = []
drop_empty (fs ∷ rest) = if fs == [] then drop_empty rest else fs ∷ rest

-- The text of one selector and more.
abbrev extended : Text → List Text → Text
extended s [] = s
extended s (fs ∷ rest) = extended (s ++ b',' ∷ fs) rest

extended-join : (s : Text) (rest : List Text) → extended s rest ≡ join (s ∷ rest) b','
unfolding join
extended-join s [] = refl
extended-join s (fs ∷ []) = refl
extended-join s (fs ∷ f ∷ rest) =
    extended-join (s ++ b',' ∷ fs) (f ∷ rest)
    ∙ append_assoc s (b',' ∷ fs) (b',' ∷ join (f ∷ rest) b',')

select-residual :
    (s : Selection) (fs : Text)
    → is_residual fs ≡ true
    → (select s fs).field_selector
      ≡ (if s.field_selector == [] then fs else s.field_selector ++ b',' ∷ fs)
unfolding select is_residual
select-residual s fs h = ground arith

select-other :
    (s : Selection) (fs : Text)
    → is_residual fs ≡ false
    → (select s fs).field_selector ≡ s.field_selector
unfolding select is_residual
select-other s fs h = ground arith

-- What the loop has gathered, from a selector that may be empty.
abbrev gathered : Text → List Text → Text
gathered s fs = if s == [] then join (drop_empty fs) b',' else extended s fs

append-ne-nil : (s t : Text) (c : ℕ) → ((s ++ c ∷ t) == []) ≡ false
unfolding ◌==◌
append-ne-nil [] t c = refl
append-ne-nil (d ∷ s) t c = refl

gathered-nil : (s : Text) → gathered s [] ≡ s
unfolding drop_empty join
gathered-nil s = ground (arith, eq_iff s [])

gathered-cons :
    (s fs : Text) (rest : List Text)
    → gathered (if s == [] then fs else s ++ b',' ∷ fs) rest ≡ gathered s (fs ∷ rest)
unfolding drop_empty
gathered-cons s fs rest = ground (arith, append-ne-nil s fs b',', extended-join fs rest)

select_all-gathered :
    (s : Selection) (parts : List Text)
    → (select_all s parts).field_selector ≡ gathered s.field_selector (residual parts)
unfolding select_all residual
select_all-gathered s [] = sym (gathered-nil s.field_selector)
select_all-gathered s (fs ∷ rest) =
    let ih = select_all-gathered (select s (trim_space fs)) rest in
    elim (Bool-cases (is_residual (trim_space fs))) [
      | inl e ↦ rw e (
          ih
          ∙ ap (λ (t : Text). gathered t (residual rest)) (select-residual s (trim_space fs) e)
          ∙ gathered-cons s.field_selector (trim_space fs) (residual rest))
      | inr e ↦
          rw e
            (ih ∙ ap (λ (t : Text). gathered t (residual rest)) (select-other s (trim_space fs) e))
    ]

-- The field selector that a count hands to the store is made of the selectors of the request, cut at
-- the commas and trimmed, that begin neither with "apiVersion" nor with "kind", in their order and
-- joined by commas, less the empty ones in front.
pub parse_field_selectors-residual :
    (selector : Text)
    → (parse_field_selectors selector).field_selector
      ≡ join (drop_empty (residual (split selector b','))) b','
unfolding parse_field_selectors join ◌==◌
parse_field_selectors-residual selector = select_all-gathered no_selection (split selector b',')

-- Any selector that begins with "kind" sets the kind to what stands behind its first "=", whatever
-- stands between the two: "kind!=Pod" and "kindOf=Pod" count as "kind=Pod" does.
pub select-kind :
    (s : Selection) (between value : Text)
    → Lacks b'=' between
    → select s (text "kind" ++ (between ++ b'=' ∷ value)) ≡ record s { kind = value }
unfolding select text has_prefix
select-kind s between value h = rw (
    cut-append (text "kind" ++ between) value b'='
      (All-append (λ c. c ≢ b'=') (text "kind") between (omega arith) h))
