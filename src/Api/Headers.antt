-- ===== src/Api/Headers.antt =====
-- Reading the members of a request of a Go type, and the metadata of its header.
use api_extension.Prelude.{◌≡◌, refl, ◌∙◌, Bool-cases, inl, inr, false, some, []}
use api_extension.Text.{Text, text, ◌==◌}
use api_extension.Value.{Value, Fields, end, field, lookup, is_empty}
use api_extension.Value.Yaml.{yaml_fields, IsMap}
use api_extension.Api.Requests.{Header, with_text, with_object, with_header}

lookup-with_text :
    (j k s : Text) (m : Fields) → (k == j) ≡ false → lookup j (with_text k s m) ≡ lookup j m
unfolding lookup with_text
lookup-with_text j k s m h = elim (Bool-cases (s == [])) [
  | inl e ↦ rw e refl
  | inr e ↦ rw (e, h) refl
]

lookup-with_object :
    (j k : Text) (n m : Fields) → (k == j) ≡ false → lookup j (with_object k n m) ≡ lookup j m
unfolding lookup with_object is_empty
lookup-with_object j k end m h = refl
lookup-with_object j k (field i v n) m h = rw h refl

-- The specification stands behind the header.
pub lookup-with_header :
    (header : Header) (v : Value)
    → lookup (text "spec") (with_header header (field (text "spec") v end)) ≡ some v
unfolding with_header
lookup-with_header header v =
    lookup-with_text (text "spec") (text "kind") header.kind _ kind
    ∙ lookup-with_text (text "spec") (text "apiVersion") header.api_version _ version
    ∙ lookup-with_object (text "spec") (text "metadata") header.metadata _ metadata
    ∙ found
  where
    kind : (text "kind" == text "spec") ≡ false
    kind = unfold text ◌==◌ in refl

    version : (text "apiVersion" == text "spec") ≡ false
    version = unfold text ◌==◌ in refl

    metadata : (text "metadata" == text "spec") ≡ false
    metadata = unfold text ◌==◌ in refl

    found : lookup (text "spec") (field (text "spec") v end) ≡ some v
    found = unfold lookup text ◌==◌ in refl

-- The metadata are read as they were given; none are read as an empty map.
pub metadata-with_header :
    (header : Header) (v : Value) (n : Fields)
    → IsMap (lookup (text "metadata") (with_header header (field (text "spec") v end))) n
    → n ≡ yaml_fields header.metadata
unfolding with_header
metadata-with_header header v n h = from_metadata header.metadata (
    rw
      (
        lookup-with_text (text "metadata") (text "kind") header.kind _ kind,
        lookup-with_text (text "metadata") (text "apiVersion") header.api_version _ version,
      )
      at h)
  where
    kind : (text "kind" == text "metadata") ≡ false
    kind = unfold text ◌==◌ in refl

    version : (text "apiVersion" == text "metadata") ≡ false
    version = unfold text ◌==◌ in refl

    from_metadata :
        (m : Fields)
        → IsMap
            (lookup (text "metadata") (with_object (text "metadata") m (field (text "spec") v end)))
            n
        → n ≡ yaml_fields m
    from_metadata end h = unfold with_object is_empty yaml_fields lookup text ◌==◌ in h
    from_metadata (field k u m) h = unfold with_object is_empty lookup text ◌==◌ in h
