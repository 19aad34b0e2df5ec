-- ===== src/Decision/Decoded.antt =====
-- Normalising the values that yaml.v2 decodes.
use api_extension.Prelude.{◌≡◌, refl, sym, ap, ◌∙◌, Bool-cases, inl, inr, none, arith}
use api_extension.Text.{Text, ◌==◌, eq_refl}
use api_extension.Value.{
  Value, null, boolean, number, string, bytes, array, object, mapping, Items, nil, cons, Fields,
  end, field, sprint, insert, lookup,
}
use api_extension.Value.Laws.{lookup-insert_other}
use api_extension.Value.Yaml.{yaml_of, yaml_entries, yaml_items, IsDocument, AreMembers, AreItems}
use api_extension.Decision.{normalize_value, normalize_entries, normalize_items}

-- No key of the second map is a key of the first.
abbrev AreApart : Fields → Fields → Type 0
AreApart out end = Unit
AreApart out (field k v m) = (lookup k out ≡ none) × AreApart out m

abbrev joined : Fields → Fields → Fields
joined end m = m
joined (field k v out) m = field k v (joined out m)

joined-end : (out : Fields) → joined out end ≡ out
joined-end end = refl
joined-end (field k v out) = ap (field k v) (joined-end out)

joined-insert :
    (out : Fields) (k : Text) (v : Value) (m : Fields)
    → lookup k out ≡ none
    → joined (insert k v out) m ≡ joined out (field k v m)
unfolding insert lookup
joined-insert end k v m h = refl
joined-insert (field j u out) k v m h = elim (Bool-cases (j == k)) [
  | inl same ↦ absurd (ground arith)
  | inr other ↦ rw other (ap (field j u) (joined-insert out k v m (rw other at h)))
]

AreApart-insert :
    (k : Text) (v : Value) (out m : Fields)
    → lookup k m ≡ none
    → AreApart out m
    → AreApart (insert k v out) m
unfolding lookup
AreApart-insert k v out end h a = tt
AreApart-insert k v out (field j u m) h (a, bs) = elim (Bool-cases (j == k)) [
  | inl same ↦ absurd (ground arith)
  | inr other ↦ (
    lookup-insert_other k j v out (λ e. ground (arith, eq_refl k)) ∙ a,
    AreApart-insert k v out m (rw other at h) bs,
  )
]

AreApart-end : (m : Fields) → AreApart end m
unfolding lookup
AreApart-end end = tt
AreApart-end (field k v m) = (refl, AreApart-end m)

mutual
  unfolding yaml_of normalize_value sprint

  normalized : (v : Value) → IsDocument v → normalize_value (yaml_of v) ≡ v
  normalized (object m) h = ap object (normalized_entries m end h (AreApart-end m))
  normalized (array xs) h = ap array (normalized_items xs h)
  normalized (mapping es) h = absurd h
  normalized (bytes s) h = absurd h
  normalized null h = refl
  normalized (boolean b) h = refl
  normalized (number s) h = refl
  normalized (string s) h = refl

  normalized_entries :
      (m out : Fields)
      → AreMembers m
      → AreApart out m
      → normalize_entries (yaml_entries m) out ≡ joined out m
  normalized_entries end out h a = sym (joined-end out)
  normalized_entries (field k v m) out (fresh, hv, hm) (a, bs) =
      ap (λ u. normalize_entries (yaml_entries m) (insert k u out)) (normalized v hv)
      ∙ normalized_entries m (insert k v out) hm (AreApart-insert k v out m fresh bs)
      ∙ joined-insert out k v m a

  normalized_items : (xs : Items) → AreItems xs → normalize_items (yaml_items xs) ≡ xs
  normalized_items nil h = refl
  normalized_items (cons v xs) (hv, hxs) = cc (normalized v hv, normalized_items xs hxs)

-- Normalising undoes the decoding: a value of JSON that yaml.v2 decoded, nested to any depth, comes back
-- as it was sent.
pub normalize-yaml_of : (v : Value) → IsDocument v → normalize_value (yaml_of v) ≡ v
normalize-yaml_of = normalized
