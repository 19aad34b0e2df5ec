-- ===== src/Samples/Refused.antt =====
-- The objects that the patch of config/samples/defaulting-webhook-sensitive-source.go cannot be applied to.
use api_extension.Prelude.{
  Bool, false, Option, none, some, List, [], ◌∷◌, ◌≡◌, ◌≢◌, ◌↔◌, ◌⊎◌, inl, inr, refl, arith,
  Option-cases, ◌∙◌,
}
use api_extension.Text.{Text, text, eq_refl}
use api_extension.Value.{
  Value, null, boolean, number, string, bytes, array, object, mapping, Fields, end, lookup,
}
use api_extension.Samples.Defaulting.{
  label_key, label_value, label_operations, has_labels, Operation,
}
use api_extension.Samples.Pointer.{add_at, apply_operation, apply_patch}
use api_extension.Samples.Patch.{labels_path, label_path, HasLabels, label_operations-apply_patch}

-- A member that is missing or is no map.
abbrev NoMap : Option Value → Type 0
NoMap old = (m : Fields) → old ≢ some (object m)

object-cases : (old : Option Value) → ((m : Fields) × (old ≡ some (object m))) ⊎ NoMap old
object-cases none = inr (λ m h. cc)
object-cases (some (object m)) = inl (m, refl)
object-cases (some null) = inr (λ m h. cc)
object-cases (some (boolean b)) = inr (λ m h. cc)
object-cases (some (number s)) = inr (λ m h. cc)
object-cases (some (string s)) = inr (λ m h. cc)
object-cases (some (bytes s)) = inr (λ m h. cc)
object-cases (some (array xs)) = inr (λ m h. cc)
object-cases (some (mapping es)) = inr (λ m h. cc)

add_at-none :
    (k : Text) (ks : List Text) (v : Value) (old : Option Value)
    → NoMap old
    → add_at (k ∷ ks) v old ≡ none
unfolding add_at
add_at-none k ks v none h = refl
add_at-none k ks v (some (object m)) h = absurd (h m refl)
add_at-none k ks v (some null) h = refl
add_at-none k ks v (some (boolean b)) h = refl
add_at-none k ks v (some (number s)) h = refl
add_at-none k ks v (some (string s)) h = refl
add_at-none k ks v (some (bytes s)) h = refl
add_at-none k ks v (some (array xs)) h = refl
add_at-none k ks v (some (mapping es)) h = refl

has_labels-none : (old : Option Value) → NoMap old → has_labels old ≡ false
has_labels-none none h = refl
has_labels-none (some (object m)) h = absurd (h m refl)
has_labels-none (some null) h = refl
has_labels-none (some (boolean b)) h = refl
has_labels-none (some (number s)) h = refl
has_labels-none (some (string s)) h = refl
has_labels-none (some (bytes s)) h = refl
has_labels-none (some (array xs)) h = refl
has_labels-none (some (mapping es)) h = refl

apply_patch-none :
    (o : Operation) (os : List Operation) (doc : Value)
    → apply_operation o doc ≡ none
    → apply_patch (o ∷ os) doc ≡ none
unfolding apply_patch
apply_patch-none o os doc h = ground arith

-- Without metadata that are a map, the labels cannot be added.
no_metadata :
    (incoming : Fields) (contains : Bool)
    → NoMap (lookup (text "metadata") incoming)
    → apply_patch (label_operations incoming contains) (object incoming) ≡ none
unfolding label_operations apply_operation add_at
no_metadata incoming contains h = rw (has_labels-none (lookup (text "metadata") incoming) h) (
    apply_patch-none _ _ _ (
      rw
        (
          eq_refl (text "add"),
          labels_path,
          add_at-none (text "labels") [] (object end) (lookup (text "metadata") incoming) h,
        )
        refl))

-- To labels that are there and are no map, the label cannot be added.
no_labels :
    (incoming md : Fields) (contains : Bool) (v : Value)
    → lookup (text "metadata") incoming ≡ some (object md)
    → lookup (text "labels") md ≡ some v
    → NoMap (some v)
    → apply_patch (label_operations incoming contains) (object incoming) ≡ none
unfolding label_operations apply_operation add_at
no_labels incoming md contains v e k h =
    rw (e, k)
      (apply_patch-none _ _ _ (
        rw
          (
            eq_refl (text "add"),
            label_path,
            e,
            k,
            add_at-none label_key [] (string (label_value contains)) (some v) h,
          )
          refl))

-- The patch can be applied to the object exactly where the metadata of the object are a map, and the
-- labels there a map or missing. So it fails for labels that are null, which the sample counts as there.
pub label_operations-some_iff :
    (incoming : Fields) (contains : Bool)
    → ((doc : Value) × (apply_patch (label_operations incoming contains) (object incoming)
          ≡ some doc))
      ↔ ((md : Fields) × (labels : Fields) × HasLabels incoming md labels)
label_operations-some_iff incoming contains = (
  λ (doc, h). elim (object-cases (lookup (text "metadata") incoming)) [
    | inr absent ↦ absurd (ground (arith, no_metadata incoming contains absent))
    | inl (md, e) ↦ elim (Option-cases (lookup (text "labels") md)) [
      | inl k ↦ (md, end, (e, inr (k, refl)))
      | inr (v, k) ↦ elim (object-cases (some v)) [
        | inl (labels, q) ↦ (md, labels, (e, inl (k ∙ q)))
        | inr other ↦ absurd (ground (arith, no_labels incoming md contains v e k other))
      ]
    ]
  ],
  λ (md, labels, h). (_, label_operations-apply_patch incoming md labels contains h),
)
