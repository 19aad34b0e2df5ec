-- ===== src/Text/Digits.antt =====
-- The digits of a number, read back.
use api_extension.Prelude.{
  ℕ, zero, suc, ◌+◌, ◌-◌, ◌*◌, ◌/◌, ◌%◌, ◌<◌, ◌≤◌, ◌≡◌, refl, sym, ap, ◌∙◌, [], ◌∷◌, ◌++◌, arith,
  ltb, inl, inr, Bool-cases,
}
use api_extension.Text.{Text}
use api_extension.Text.Strings.{decimal, decimal_from}

read_from : ℕ → Text → ℕ
read_from value [] = value
read_from value (c ∷ s) = read_from (value * 10 + (c - b'0')) s

read_from-append :
    (value c : ℕ) (s : Text) → read_from value (s ++ c ∷ []) ≡ read_from value s * 10 + (c - b'0')
unfolding read_from
read_from-append value c [] = refl
read_from-append value c (d ∷ s) = read_from-append (value * 10 + (d - b'0')) c s

read-decimal_from : (fuel n : ℕ) → n < fuel → read_from 0 (decimal_from fuel n) ≡ n
unfolding decimal_from
read-decimal_from zero n h = absurd (omega arith)
read-decimal_from (suc fuel) n h = elim (Bool-cases (ltb n 10)) [
  | inl e ↦ rw e (unfold read_from in omega arith)
  | inr e ↦
      let large : 10 ≤ n = ground arith in
      let front = read-decimal_from fuel (n / 10) (omega arith) in
      rw (e, read_from-append 0 (b'0' + n % 10) (decimal_from fuel (n / 10)), front) (omega arith)
]

-- Different numbers have different digits.
pub decimal-injective : (m n : ℕ) → decimal m ≡ decimal n → m ≡ n
unfolding decimal
decimal-injective m n e =
    sym (read-decimal_from (suc m) m (omega arith))
    ∙ ap (read_from 0) e
    ∙ read-decimal_from (suc n) n (omega arith)
