-- ===== src/Samples/Patch.antt =====
-- What the patch of config/samples/defaulting-webhook-sensitive-source.go does to an object.
use api_extension.Prelude.{
  Bool, none, some, List, [], ◌∷◌, ◌≡◌, ◌⊎◌, inl, inr, refl, arith, ◌∙◌, ap,
}
use api_extension.Text.{text, eq_refl}
use api_extension.Text.Strings.{split}
use api_extension.Value.{Value, object, string, Fields, end, lookup, insert}
use api_extension.Value.Laws.{lookup-insert, insert-insert}
use api_extension.Samples.Defaulting.{
  label_key, label_json_path, label_value, label_operations, Operation,
}
use api_extension.Samples.Pointer.{tokens, unescape, add_at, apply_operation, apply_patch}

pub labels_path : tokens (text "/metadata/labels") ≡ text "metadata" ∷ text "labels" ∷ []
unfolding tokens unescape split text
labels_path = refl

pub label_path : tokens label_json_path ≡ text "metadata" ∷ text "labels" ∷ label_key ∷ []
unfolding tokens unescape split text label_json_path label_key
label_path = refl

-- The object with other labels.
abbrev pub with_labels : Fields → Fields → Fields → Fields
with_labels labels md incoming =
    insert (text "metadata") (object (insert (text "labels") (object labels) md)) incoming

add_labels :
    (incoming md : Fields)
    → lookup (text "metadata") incoming ≡ some (object md)
    → apply_operation
        (record { op = text "add"; path = text "/metadata/labels"; value = object end })
        (object incoming)
      ≡ some (object (with_labels end md incoming))
unfolding apply_operation add_at
add_labels incoming md h = rw (labels_path, h, eq_refl (text "add")) refl

add_label :
    (incoming md labels : Fields) (v : Value)
    → lookup (text "metadata") incoming ≡ some (object md)
    → lookup (text "labels") md ≡ some (object labels)
    → apply_operation
        (record { op = text "add"; path = label_json_path; value = v })
        (object incoming)
      ≡ some (object (with_labels (insert label_key v labels) md incoming))
unfolding apply_operation add_at
add_label incoming md labels v h k = rw (label_path, h, k, eq_refl (text "add")) refl

apply_patch-cons :
    (o : Operation) (os : List Operation) (doc next : Value)
    → apply_operation o doc ≡ some next
    → apply_patch (o ∷ os) doc ≡ apply_patch os next
unfolding apply_patch
apply_patch-cons o os doc next h = ground arith

apply_patch-one :
    (o : Operation) (doc next : Value)
    → apply_operation o doc ≡ some next
    → apply_patch (o ∷ []) doc ≡ some next
unfolding apply_patch
apply_patch-one o doc next h = ground arith

-- The labels that were added and then replaced.
with_labels-with_labels :
    (labels others md incoming : Fields)
    → with_labels labels
        (insert (text "labels") (object others) md)
        (with_labels others md incoming)
      ≡ with_labels labels md incoming
with_labels-with_labels labels others md incoming =
    insert-insert (text "metadata") _ _ incoming
    ∙ ap (λ (m : Fields). insert (text "metadata") (object m) incoming)
        (insert-insert (text "labels") (object others) (object labels) md)

-- An object with metadata whose labels are a map or are missing: `none` of them counts as no label.
abbrev pub HasLabels : Fields → Fields → Fields → Type 0
HasLabels incoming md labels =
    (lookup (text "metadata") incoming ≡ some (object md))
    × ((lookup (text "labels") md ≡ some (object labels))
        ⊎ ((lookup (text "labels") md ≡ none) × (labels ≡ end)))

-- The patch of an object with metadata, whose labels are a map or are missing, can be applied to it: the
-- label gets the decision, and every other label, the rest of the metadata and the rest of the object
-- stay.
pub label_operations-apply_patch :
    (incoming md labels : Fields) (contains : Bool)
    → HasLabels incoming md labels
    → apply_patch (label_operations incoming contains) (object incoming)
      ≡ some (
          object
            (with_labels (insert label_key (string (label_value contains)) labels) md incoming))
unfolding label_operations
label_operations-apply_patch incoming md labels contains (h, inl k) =
    rw (h, k) (apply_patch-one _ _ _ (add_label incoming md labels _ h k))
label_operations-apply_patch incoming md labels contains (h, inr (k, e)) =
    let md' = insert (text "labels") (object end) md in
    let label =
      add_label (with_labels end md incoming) md' end (string (label_value contains))
        (lookup-insert (text "metadata") (object md') incoming)
        (lookup-insert (text "labels") (object end) md) in
    rw (h, k, e)
      (apply_patch-cons _ _ _ _ (add_labels incoming md h)
        ∙ apply_patch-one _ _ _ label
        ∙ ap (λ m. some (object m))
            (with_labels-with_labels (insert label_key (string (label_value contains)) end) end md
              incoming))
