-- ===== src/Decision/Normal.antt =====
-- The normal form of decision values.
use api_extension.Prelude.{◌≡◌, ◌↔◌, refl, ap, Bool-cases, inl, inr}
use api_extension.Text.{Text, ◌==◌}
use api_extension.Value.{
  Value, null, boolean, number, string, bytes, array, object, mapping, Items, nil, cons, Fields,
  end, field, Entries, stop, entry, sprint, insert,
}
use api_extension.Decision.{normalize_value, normalize_entries, normalize_fields, normalize_items}

-- No map with keys of any type is left in the value.
abbrev mutual
  pub IsNormal : Value → Type 0
  IsNormal (mapping es) = ⊥
  IsNormal (object m) = AllNormal m
  IsNormal (array xs) = EachNormal xs
  IsNormal null = Unit
  IsNormal (boolean b) = Unit
  IsNormal (number s) = Unit
  IsNormal (string s) = Unit
  IsNormal (bytes s) = Unit

  pub AllNormal : Fields → Type 0
  AllNormal end = Unit
  AllNormal (field k v m) = IsNormal v × AllNormal m

  pub EachNormal : Items → Type 0
  EachNormal nil = Unit
  EachNormal (cons v xs) = IsNormal v × EachNormal xs

insert-AllNormal :
    (k : Text) (v : Value) (m : Fields) → IsNormal v → AllNormal m → AllNormal (insert k v m)
unfolding insert
insert-AllNormal k v end h hm = (h, tt)
insert-AllNormal k v (field j u m) h (hu, hm) = elim (Bool-cases (j == k)) [
  | inl e ↦ rw e (h, hm)
  | inr e ↦ rw e (hu, insert-AllNormal k v m h hm)
]

mutual
  unfolding normalize_value

  normal : (v : Value) → IsNormal (normalize_value v)
  normal (mapping es) = normal_entries es end tt
  normal (object m) = normal_fields m
  normal (array xs) = normal_items xs
  normal null = tt
  normal (boolean b) = tt
  normal (number s) = tt
  normal (string s) = tt
  normal (bytes s) = tt

  normal_entries : (es : Entries) (m : Fields) → AllNormal m → AllNormal (normalize_entries es m)
  normal_entries stop m h = h
  normal_entries (entry k v es) m h =
      normal_entries es (insert (sprint k) (normalize_value v) m)
        (insert-AllNormal (sprint k) (normalize_value v) m (normal v) h)

  normal_fields : (m : Fields) → AllNormal (normalize_fields m)
  normal_fields end = tt
  normal_fields (field k v m) = (normal v, normal_fields m)

  normal_items : (xs : Items) → EachNormal (normalize_items xs)
  normal_items nil = tt
  normal_items (cons v xs) = (normal v, normal_items xs)

mutual
  unfolding normalize_value

  normalize_normal : (v : Value) → IsNormal v → normalize_value v ≡ v
  normalize_normal (mapping es) h = absurd h
  normalize_normal (object m) h = ap object (normalize_normal_fields m h)
  normalize_normal (array xs) h = ap array (normalize_normal_items xs h)
  normalize_normal null h = refl
  normalize_normal (boolean b) h = refl
  normalize_normal (number s) h = refl
  normalize_normal (string s) h = refl
  normalize_normal (bytes s) h = refl

  normalize_normal_fields : (m : Fields) → AllNormal m → normalize_fields m ≡ m
  normalize_normal_fields end h = refl
  normalize_normal_fields (field k v m) (hv, hm) =
      cc (normalize_normal v hv, normalize_normal_fields m hm)

  normalize_normal_items : (xs : Items) → EachNormal xs → normalize_items xs ≡ xs
  normalize_normal_items nil h = refl
  normalize_normal_items (cons v xs) (hv, hxs) =
      cc (normalize_normal v hv, normalize_normal_items xs hxs)

-- The normal form of any value, nested to any depth, holds no map whose keys are not texts.
pub normalize_value-IsNormal : (v : Value) → IsNormal (normalize_value v)
normalize_value-IsNormal v = normal v

-- Normalising leaves a value as it is exactly when it holds no map whose keys are not texts.
pub normalize_value-eq_iff : (v : Value) → IsNormal v ↔ (normalize_value v ≡ v)
normalize_value-eq_iff v = (normalize_normal v, λ e. rw e at (normal v))

-- Normalising a value a second time changes nothing.
pub normalize_value_idem : (v : Value) → normalize_value (normalize_value v) ≡ normalize_value v
normalize_value_idem v = normalize_normal (normalize_value v) (normal v)
