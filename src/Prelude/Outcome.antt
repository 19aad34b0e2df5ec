-- ===== src/Prelude/Outcome.antt =====
-- Go's `(value, error)` results, and calls that also change the world outside the process.
use mathlib.Core.Path.{◌≡◌, refl}
use mathlib.Core.Logic.{◌⊎◌, inl, inr}
use mathlib.Core.Option.{Option, none, some}
use mathlib.Core.List.{List, ◌∷◌}

-- `ok a` is `(a, nil)`, and `err e` is a non-nil error `e`.
pub data Result {ℓ κ} (E : Type ℓ) (A : Type κ) : Type (ℓ ⊔ κ) where
  ok : A → Result E A
  err : E → Result E A

abbrev pub map_err {ℓ κ μ} :
    {E : Type ℓ} {F : Type κ} {A : Type μ} → (E → F) → Result E A → Result F A
map_err f (ok a) = ok a
map_err f (err e) = err (f e)

-- The bind of pure results; `do` is kept for `Exec`.
abbrev pub and_then {ℓ κ μ} :
    {E : Type ℓ} {A : Type κ} {B : Type μ} → Result E A → (A → Result E B) → Result E B
and_then (ok a) f = f a
and_then (err e) f = err e

pub Result-cases {ℓ κ} :
    {E : Type ℓ} {A : Type κ} (r : Result E A) → ((a : A) × (r ≡ ok a)) ⊎ ((e : E) × (r ≡ err e))
Result-cases (ok a) = inl (a, refl)
Result-cases (err e) = inr (e, refl)

pub ok_inj {ℓ κ} : {E : Type ℓ} {A : Type κ} {a b : A} → ◌≡◌ {A = Result E A} (ok a) (ok b) → a ≡ b
ok_inj e = cc

-- A call that may change the world, whether it fails or not.
abbrev pub Exec : Type 0 → Type 0 → Type 0 → Type 0
Exec W E A = W → Result E A × W

module _ {W E A : Type 0} where
  abbrev pub pure : A → Exec W E A
  pure a w = (ok a, w)

  abbrev pub fail : E → Exec W E A
  fail e w = (err e, w)

  abbrev pub lift : Result E A → Exec W E A
  lift r w = (r, w)

module _ {W E F A : Type 0} where
  -- `if err != nil { return f(err) }` round a call.
  abbrev pub with_err : (E → F) → Exec W E A → Exec W F A
  with_err f m w = (map_err f (m w).0, (m w).1)

module _ {W E A B : Type 0} where
  abbrev pub continue : Result E A → (A → Exec W E B) → Exec W E B
  continue (ok a) f w = f a w
  continue (err e) f w = (err e, w)

  infixl 5 ◌>>=◌ ◌>>◌
  abbrev pub ◌>>=◌ : Exec W E A → (A → Exec W E B) → Exec W E B
  ◌>>=◌ m f w = continue (m w).0 f (m w).1

  abbrev pub ◌>>◌ : Exec W E A → Exec W E B → Exec W E B
  m >> n = m >>= λ _. n

  continue-eq-ok :
      (r : Result E A) (f : A → Exec W E B) (w : W) {b : B}
      → (continue r f w).0 ≡ ok b
      → (a : A) × (r ≡ ok a) × ((f a w).0 ≡ ok b)
  continue-eq-ok (ok a) f w h = (a, refl, h)
  continue-eq-ok (err e) f w h = cc

  -- Inversion of a bind that succeeds.
  pub bind-eq-ok :
      (m : Exec W E A) (f : A → Exec W E B) (w : W) {b : B}
      → ((m >>= f) w).0 ≡ ok b
      → (a : A) × ((m w).0 ≡ ok a) × ((f a (m w).1).0 ≡ ok b)
  bind-eq-ok m f w h = continue-eq-ok (m w).0 f (m w).1 h

module _ {W E A B : Type 0} (P : W → Type 0) where
  continue-holds :
      (r : Result E A) (f : A → Exec W E B) (w : W)
      → P w
      → ((a : A) → r ≡ ok a → P w → P (f a w).1)
      → P (continue r f w).1
  continue-holds (ok a) f w p step = step a refl p
  continue-holds (err e) f w p step = p

  -- What holds of the world after a call, and of each world that the rest makes of it, holds at the
  -- end.
  pub bind-holds :
      (m : Exec W E A) (f : A → Exec W E B) (w : W)
      → P (m w).1
      → ((a : A) → (m w).0 ≡ ok a → P (m w).1 → P (f a (m w).1).1)
      → P ((m >>= f) w).1
  bind-holds m f w p step = continue-holds (m w).0 f (m w).1 p step

module _ {E : Type 0} where
  -- `if err := call(); err != nil { return err }`
  abbrev pub error_or : Option E → Result E (Unit {0})
  error_or none = ok tt
  error_or (some e) = err e

-- What has been called, the last call first.
module _ {Action E : Type 0} where
  -- A call that can fail: what it answers may depend on all that was called before.
  abbrev pub perform : (Action → List Action → Option E) → Action → Exec (List Action) E (Unit {0})
  perform answer a h = (error_or (answer a h), a ∷ h)

  -- A call whose answer the code drops or only logs.
  abbrev pub note : Action → Exec (List Action) E (Unit {0})
  note a h = (ok tt, a ∷ h)

  -- `defer`: the last call of a body, whether it fails or not.
  abbrev pub deferred : Action → Exec (List Action) E (Unit {0}) → Exec (List Action) E (Unit {0})
  deferred a m h = ((m h).0, a ∷ (m h).1)
