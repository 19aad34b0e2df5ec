-- ===== src/Text/Laws.antt =====
-- Laws of cutting, joining and trimming.
use native.Mathlib.Decide.{ℕ_discrete}
use api_extension.Prelude.{
  ℕ, zero, suc, ◌<◌, ◌≤◌, ◌+◌, ◌/◌, ◌%◌, ltb, ◌≡◌, ◌≢◌, refl, sym, ap, ◌∙◌, nat_eq_refl, nat_eq_ne,
  Bool, true, false, List, [], ◌∷◌, ◌++◌, arith, All, Bool-cases, inl, inr,
}
use api_extension.Text.{Text, text}
use api_extension.Text.Strings.{
  push_head, split, join, cut, has_prefix, trim_left, trim_right, trim_func, trim_space, is_space,
  decimal_from,
}

-- A text in which `sep` does not occur.
abbrev pub Lacks : ℕ → Text → Type 0
Lacks sep = All (λ c. c ≢ sep)

pub split-ne-nil : (s : Text) (sep : ℕ) → split s sep ≢ []
unfolding split
split-ne-nil [] sep = cc
split-ne-nil (c ∷ s) sep = ground arith

-- A part without the separator, in front of a separator, is the first part.
pub split-append :
    (p rest : Text) (sep : ℕ) → Lacks sep p → split (p ++ sep ∷ rest) sep ≡ p ∷ split rest sep
unfolding split
split-append [] rest sep h = ground arith
split-append (c ∷ p) rest sep (h, k) = ground (arith, split-append p rest sep k)

pub split-Lacks : (p : Text) (sep : ℕ) → Lacks sep p → split p sep ≡ p ∷ []
unfolding split
split-Lacks [] sep h = refl
split-Lacks (c ∷ p) sep (h, k) = ground (arith, split-Lacks p sep k)

push_head-All :
    (c sep : ℕ) (ps : List Text) → c ≢ sep → All (Lacks sep) ps → All (Lacks sep) (push_head c ps)
push_head-All c sep [] h k = ((h, tt), tt)
push_head-All c sep (p ∷ ps) h (q, k) = ((h, q), k)

-- The parts of a split hold no separator.
pub split-All : (s : Text) (sep : ℕ) → All (Lacks sep) (split s sep)
unfolding split
split-All [] sep = (tt, tt)
split-All (c ∷ s) sep = elim (ℕ_discrete c sep) [
  | yes e ↦ rw (e, nat_eq_refl) (tt, split-All s sep)
  | no ne ↦ rw (nat_eq_ne c sep ne) (push_head-All c sep (split s sep) ne (split-All s sep))
]

pub has_prefix-append : (s p : Text) → has_prefix (p ++ s) p ≡ true
unfolding has_prefix
has_prefix-append s [] = refl
has_prefix-append s (c ∷ p) = ground (arith, has_prefix-append s p)

pub cut-append :
    (p rest : Text) (sep : ℕ) → Lacks sep p → cut (p ++ sep ∷ rest) sep ≡ (p, rest, true)
unfolding cut
cut-append [] rest sep h = ground arith
cut-append (c ∷ p) rest sep (h, k) = ground (arith, cut-append p rest sep k)

-- The first code point of a text fails `p`.
abbrev StartsOff : (ℕ → Bool) → Text → Type 0
StartsOff p [] = Unit
StartsOff p (c ∷ s) = p c ≡ false

module _ (p : ℕ → Bool) where
  trim_right_idem : (s : Text) → trim_right p (trim_right p s) ≡ trim_right p s
  unfolding trim_right
  trim_right_idem [] = refl
  trim_right_idem (c ∷ s) = ground (arith, trim_right_idem s)

  trim_left-StartsOff : (s : Text) → StartsOff p (trim_left p s)
  unfolding trim_left
  trim_left-StartsOff [] = tt
  trim_left-StartsOff (c ∷ s) = elim (Bool-cases (p c)) [
    | inl e ↦ rw e (trim_left-StartsOff s)
    | inr e ↦ rw e e
  ]

  trim_left_of_StartsOff : (s : Text) → StartsOff p s → trim_left p s ≡ s
  unfolding trim_left
  trim_left_of_StartsOff [] h = refl
  trim_left_of_StartsOff (c ∷ s) h = rw h

  trim_right-StartsOff : (s : Text) → StartsOff p s → StartsOff p (trim_right p s)
  unfolding trim_right
  trim_right-StartsOff [] h = tt
  trim_right-StartsOff (c ∷ s) h = ground arith

  pub trim_func_idem : (s : Text) → trim_func p (trim_func p s) ≡ trim_func p s
  unfolding trim_func
  trim_func_idem s =
      let off = trim_right-StartsOff (trim_left p s) (trim_left-StartsOff s) in
      rw (trim_left_of_StartsOff _ off) (trim_right_idem (trim_left p s))

pub trim_space_idem : (s : Text) → trim_space (trim_space s) ≡ trim_space s
unfolding trim_space
trim_space_idem s = trim_func_idem is_space s

-- The separators come out again: joining the parts of a split gives the text.
join-push_head :
    (c sep : ℕ) (ps : List Text) → ps ≢ [] → join (push_head c ps) sep ≡ c ∷ join ps sep
unfolding join
join-push_head c sep [] h = absurd (h refl)
join-push_head c sep (p ∷ []) h = refl
join-push_head c sep (p ∷ q ∷ ps) h = refl

join-cons :
    (sep : ℕ) (p : Text) (ps : List Text) → ps ≢ [] → join (p ∷ ps) sep ≡ p ++ sep ∷ join ps sep
unfolding join
join-cons sep p [] h = absurd (h refl)
join-cons sep p (q ∷ ps) h = refl

pub join-split : (s : Text) (sep : ℕ) → join (split s sep) sep ≡ s
unfolding split
join-split [] sep = unfold join in refl
join-split (c ∷ s) sep = ground (
  arith,
  join-split s sep,
  join-push_head c sep (split s sep),
  split-ne-nil s sep,
  join-cons sep [] (split s sep),
)

-- What stands in front of the first separator, and what stands behind it, are determined.
pub append-sep-injective :
    (sep : ℕ) (p q s t : Text)
    → Lacks sep p
    → Lacks sep q
    → p ++ sep ∷ s ≡ q ++ sep ∷ t
    → (p ≡ q) × (s ≡ t)
append-sep-injective sep p q s t h k e =
    let cuts = sym (cut-append p s sep h) ∙ ap (λ (x : Text). cut x sep) e ∙ cut-append q t sep k in
    (ap (λ (c : Text × Text × Bool). c.0) cuts, ap (λ (c : Text × Text × Bool). c.1) cuts)

pub text-slash : text "/" ≡ b'/' ∷ []
unfolding text
text-slash = refl

-- More fuel than the number gives the same digits.
decimal_from-fuel : (f g n : ℕ) → n < f → n < g → decimal_from f n ≡ decimal_from g n
unfolding decimal_from
decimal_from-fuel zero g n h k = absurd (omega arith)
decimal_from-fuel (suc f) zero n h k = absurd (omega arith)
decimal_from-fuel (suc f) (suc g) n h k = elim (Bool-cases (ltb n 10)) [
  | inl e ↦ rw e refl
  | inr e ↦
      let large : 10 ≤ n = ground arith in
      let rest = decimal_from-fuel f g (n / 10) (omega arith) (omega arith) in
      rw e (ap (λ (t : Text). t ++ (b'0' + n % 10) ∷ []) rest)
]
