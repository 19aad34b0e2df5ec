-- ===== src/Decision/Orders.antt =====
-- The loop over the questions of a decision does not depend on the order of the map.
use mathlib.Core.List.{Permᴰ}
use mathlib.Core.List.Permᴰ.{nil, cons, swap, trans}
use api_extension.Prelude.{◌≡◌, refl, false, List, [], ◌∷◌, arith, ok, ok_inj}
use api_extension.Text.{Text}
use api_extension.Kube.{Question}
use api_extension.Decision.Requests.{normalize_questions-cons}
use api_extension.Decision.{is_blank, normalize_question, normalize_questions}

-- A question under its key, and what it is normalised to.
abbrev Normalizes : Text × Question → Text × Question → Type 0
Normalizes a b = (is_blank a.0 ≡ false) × (normalize_question a.0 a.1 ≡ ok b.1) × (a.0 ≡ b.0)

Normalizes-of : (a b c : Text × Question) → a ≡ b → Normalizes a c → Normalizes b c
Normalizes-of a b c e n = rw e at n

normalize-cons :
    (a b : Text × Question) (qs rs : List (Text × Question))
    → Normalizes a b
    → normalize_questions qs ≡ ok rs
    → normalize_questions (a ∷ qs) ≡ ok (b ∷ rs)
unfolding normalize_questions
normalize-cons (k, q) (j, p) qs rs (n, e, s) h = ground arith

normalize-nil : (rs : List (Text × Question)) → normalize_questions [] ≡ ok rs → Permᴰ rs rs
unfolding normalize_questions
normalize-nil rs h = rw (← (ok_inj h)) nil

-- Where the questions of a decision are normalised without an error in one order, they are in every
-- other, and give the same normal questions up to their order: whether a request is accepted does
-- not depend on the order of the map.
pub normalize_questions-Perm :
    {qs qs' : List (Text × Question)} (rs : List (Text × Question))
    → Permᴰ qs qs'
    → normalize_questions qs ≡ ok rs
    → (rs' : List (Text × Question)) × (normalize_questions qs' ≡ ok rs') × Permᴰ rs rs'
normalize_questions-Perm rs nil h = (rs, h, normalize-nil rs h)
normalize_questions-Perm rs (cons {a} {b} {l₁ = qs} {l₂ = qs'} e p) h =
    let (q, rest, n, f, k, same) = normalize_questions-cons a.0 a.1 qs rs h in
    let x : Text × Question = (a.0, q) in
    let n' : Normalizes a x = (n, f, refl) in
    let (rest', k', p') = normalize_questions-Perm rest p k in
    (x ∷ rest', normalize-cons b x qs' rest' (Normalizes-of a b x e n') k', rw same (cons refl p'))
normalize_questions-Perm rs (swap {a} {b} {a'} {b'} {l = l} e e') h =
    let (q₁, r₁, n₁, f₁, k₁, same₁) = normalize_questions-cons a.0 a.1 (b ∷ l) rs h in
    let (q₂, r₂, n₂, f₂, k₂, same₂) = normalize_questions-cons b.0 b.1 l r₁ k₁ in
    let x : Text × Question = (a.0, q₁) in
    let y : Text × Question = (b.0, q₂) in
    let m₁ : Normalizes a x = (n₁, f₁, refl) in
    let m₂ : Normalizes b y = (n₂, f₂, refl) in
    (
      y ∷ x ∷ r₂,
      normalize-cons a' y (b' ∷ l) (x ∷ r₂) (Normalizes-of b a' y e' m₂)
          (normalize-cons b' x l r₂ (Normalizes-of a b' x e m₁) k₂),
      rw (same₁, same₂) (swap refl refl),
    )
normalize_questions-Perm rs (trans p q) h =
    let (rs₁, k₁, p₁) = normalize_questions-Perm rs p h in
    let (rs₂, k₂, p₂) = normalize_questions-Perm rs₁ q k₁ in (rs₂, k₂, trans p₁ p₂)
