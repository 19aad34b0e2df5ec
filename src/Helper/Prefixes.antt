-- ===== src/Helper/Prefixes.antt =====
-- When one key of etcdKeyForGroupVersionKind is a prefix of another.
use api_extension.Prelude.{
  true, false, List, [], ◌∷◌, ◌++◌, ◌≡◌, ◌↔◌, refl, sym, arith, All, append_assoc, nat_eq_refl,
}
use api_extension.Text.{Text}
use api_extension.Text.Strings.{has_prefix}
use api_extension.Text.Laws.{Lacks}
use api_extension.Helper.Keys.{joined}

has_prefix-Lacks : (s p t : Text) → Lacks b'/' s → has_prefix s (p ++ b'/' ∷ t) ≡ false
unfolding has_prefix
has_prefix-Lacks [] [] t h = refl
has_prefix-Lacks [] (c ∷ p) t h = refl
has_prefix-Lacks (d ∷ s) [] t h = ground arith
has_prefix-Lacks (d ∷ s) (c ∷ p) t h = ground (arith, has_prefix-Lacks s p t)

has_prefix-part :
    (q y p x : Text)
    → Lacks b'/' q
    → Lacks b'/' p
    → has_prefix (q ++ b'/' ∷ y) (p ++ b'/' ∷ x) ≡ true
    → (p ≡ q) × (has_prefix y x ≡ true)
unfolding has_prefix
has_prefix-part [] y [] x hq hp h = (refl, ground arith)
has_prefix-part [] y (c ∷ p) x hq hp h = absurd (ground arith)
has_prefix-part (d ∷ q) y [] x hq hp h = absurd (ground arith)
has_prefix-part (d ∷ q) y (c ∷ p) x hq hp h = ground (arith, has_prefix-part q y p x)

part-has_prefix : (p y x : Text) → has_prefix y x ≡ true → has_prefix (p ++ y) (p ++ x) ≡ true
unfolding has_prefix
part-has_prefix [] y x h = h
part-has_prefix (c ∷ p) y x h = ground (arith, part-has_prefix p y x h, nat_eq_refl c)

slash : (y x : Text) → has_prefix y x ≡ true → has_prefix (b'/' ∷ y) (b'/' ∷ x) ≡ true
slash y x = part-has_prefix (b'/' ∷ []) y x

-- Parts without slashes, each with a slash behind it, are a prefix of others with a rest just when the
-- others begin with them.
pub joined-has_prefix_iff :
    (ps qs : List Text) (rest : Text)
    → All (Lacks b'/') ps
    → All (Lacks b'/') qs
    → Lacks b'/' rest
    → (has_prefix (joined qs ++ rest) (joined ps) ≡ true) ↔ ((zs : List Text) × (qs ≡ ps ++ zs))
joined-has_prefix_iff [] qs rest hp hq hr = (λ h. (qs, refl), λ h. unfold has_prefix in refl)
joined-has_prefix_iff (p ∷ ps) [] rest hp hq hr =
    (λ h. absurd (ground (arith, has_prefix-Lacks rest p (joined ps) hr)), λ (zs, e). cc)
joined-has_prefix_iff (p ∷ ps) (q ∷ qs) rest (hp, hps) (hq, hqs) hr =
    let ih = joined-has_prefix_iff ps qs rest hps hqs hr in
    let front = append_assoc q (b'/' ∷ joined qs) rest in
    (
      λ h.
          let (same, h') =
            has_prefix-part q (joined qs ++ rest) p (joined ps) hq hp (rw front at h) in
          let (zs, e) = ih.0 h' in (zs, λ i. sym same i ∷ e i),
      λ (zs, e).
          let same : q ≡ p = cc in
          let others : qs ≡ ps ++ zs = cc in
          rw (front, same)
            (part-has_prefix p (b'/' ∷ (joined qs ++ rest)) (b'/' ∷ joined ps)
              (slash (joined qs ++ rest) (joined ps) (ih.1 (zs, others)))),
    )
