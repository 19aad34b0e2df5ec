-- ===== src/Count/Covers.antt =====
-- Which of the keys that transactions write to a count covers.
use api_extension.Prelude.{
  Bool, true, false, some, List, [], ◌∷◌, ◌++◌, ◌≡◌, ◌≢◌, ◌↔◌, ◌⊎◌, inl, inr, refl, sym, ap, ◌∙◌,
  arith, All, if◌then◌else◌, ok, All-append, append_assoc, ok_inj,
}
use api_extension.Text.{Text, text}
use api_extension.Text.Strings.{has_prefix}
use api_extension.Text.Laws.{Lacks}
use api_extension.Kube.{Gvk, Scope, root, namespaced, Mapping, Codec}
use api_extension.Helper.{is_root, contains, etcd_key}
use api_extension.Helper.Keys.{key_parts, namespace_parts, joined, etcd_key-joined, key_parts-All}
use api_extension.Helper.Prefixes.{joined-has_prefix_iff}
use api_extension.Transaction.{Operation, create, update, delete, operation_name}
use api_extension.Transaction.Resource.{resource_key}
use api_extension.Count.Handler.{count_namespace, count_prefix}

-- One list of parts begins with another.
abbrev Begins : List Text → List Text → Type 0
Begins qs ps = (zs : List Text) × (qs ≡ ps ++ zs)

-- A count in a namespace reaches the objects of a scope and a namespace: it is for the whole cluster, or
-- for just this namespace.
abbrev pub Reaches : Scope → Text → Scope → Text → Type 0
Reaches counted namespace scope space =
    (counted ≡ root) ⊎ ((namespace ≡ []) ⊎ ((scope ≡ namespaced) × (space ≡ namespace)))

namespace-Begins :
    (counted : Scope) (namespace : Text) (scope : Scope) (space : Text)
    → Begins (namespace_parts scope space) (namespace_parts counted namespace)
      ↔ Reaches counted namespace scope space
namespace-Begins root b s a = (λ h. inl refl, λ h. (namespace_parts s a, refl))
namespace-Begins namespaced [] s a = (λ h. inr (inl refl), λ h. (namespace_parts s a, refl))
namespace-Begins namespaced (c ∷ b) root a = (λ (zs, e). cc, λ h. absurd (ground arith))
namespace-Begins namespaced (c ∷ b) namespaced [] = (λ (zs, e). cc, λ h. absurd (ground arith))
namespace-Begins namespaced (c ∷ b) namespaced (d ∷ a) = (
  λ (zs, e). inr (inr (refl, cc)),
  λ h. let same : (d ∷ a) ≡ (c ∷ b) = ground arith in ([], λ i. same i ∷ []),
)

parts-Begins :
    (front : Bool) (g r₁ r₂ : Text) (n₁ n₂ : List Text)
    → let group = (if front then [] else g ∷ []) in
      Begins
        ([] ∷ text "registry" ∷ (group ++ (r₂ ∷ n₂)))
        ([] ∷ text "registry" ∷ (group ++ (r₁ ∷ n₁)))
      ↔ ((r₂ ≡ r₁) × Begins n₂ n₁)
parts-Begins true g r₁ r₂ n₁ n₂ =
    (λ (zs, e). (cc, (zs, cc)), λ (r, (zs, e)). (zs, λ i. [] ∷ text "registry" ∷ r i ∷ e i))
parts-Begins false g r₁ r₂ n₁ n₂ =
    (λ (zs, e). (cc, (zs, cc)), λ (r, (zs, e)). (zs, λ i. [] ∷ text "registry" ∷ g ∷ r i ∷ e i))

unless-Lacks : (b : Bool) (s : Text) → Lacks b'/' s → Lacks b'/' (if b then [] else s)
unless-Lacks true s h = tt
unless-Lacks false s h = h

count_namespace-Lacks :
    (m : Mapping) (namespace : Text)
    → Lacks b'/' namespace
    → Lacks b'/' (count_namespace m namespace)
unfolding count_namespace
count_namespace-Lacks m namespace h = unless-Lacks (is_root m.scope) namespace h

namespace_parts-count_namespace :
    (m : Mapping) (namespace : Text)
    → namespace_parts m.scope (count_namespace m namespace) ≡ namespace_parts m.scope namespace
unfolding count_namespace
namespace_parts-count_namespace m namespace = by_scope m.scope
  where
    by_scope :
        (s : Scope)
        → namespace_parts s (if is_root s then [] else namespace) ≡ namespace_parts s namespace
    by_scope root = refl
    by_scope namespaced = refl

suffix-Lacks : (op : Operation) → Lacks b'/' (text "#" ++ operation_name op)
unfolding operation_name text
suffix-Lacks create = omega arith
suffix-Lacks update = omega arith
suffix-Lacks delete = omega arith

resource_key-suffix :
    (key name : Text) (op : Operation)
    → resource_key key name op ≡ key ++ (name ++ (text "#" ++ operation_name op))
unfolding resource_key
resource_key-suffix key name op =
    append_assoc (key ++ name) (text "#") (operation_name op)
    ∙ append_assoc key name (text "#" ++ operation_name op)

-- A count covers the key that a transaction gives an object of the same group just when the resource is the
-- same and the count is for the whole cluster or for the namespace of the object: where no group, resource,
-- namespace or name has a slash.
pub count_prefix-Reaches_iff :
    (codec : Codec) (core : List Text) (kind : Text) (counted mapping : Mapping) (gvk : Gvk)
    (namespace space name prefix key : Text) (op : Operation)
    → count_prefix codec core kind counted namespace ≡ ok prefix
    → etcd_key codec gvk space (some mapping) core ≡ ok key
    → gvk.group ≡ counted.group
    → All (Lacks b'/') (counted.group ∷ counted.resource ∷ namespace ∷ [])
    → All (Lacks b'/') (mapping.resource ∷ space ∷ name ∷ [])
    → (has_prefix (resource_key key name op) prefix ≡ true) ↔ (
        (mapping.resource ≡ counted.resource) × Reaches counted.scope namespace mapping.scope space)
unfolding count_prefix
count_prefix-Reaches_iff codec core kind counted mapping gvk namespace space name prefix key op p k
      same (g, (r, (n, _))) (r', (n', (o, _))) =
    let counted_gvk : Gvk = record {
      group = counted.group;
      version = counted.version;
      kind = kind;
    } in
    let space₁ = count_namespace counted namespace in
    let parts₁ = key_parts counted_gvk space₁ counted core in
    let parts₂ = key_parts gvk space mapping core in
    let prefix_is : joined parts₁ ≡ prefix =
      ok_inj (sym (etcd_key-joined codec counted_gvk space₁ counted core) ∙ p) in
    let key_is : joined parts₂ ≡ key =
      ok_inj (sym (etcd_key-joined codec gvk space mapping core) ∙ k) in
    let cut =
      joined-has_prefix_iff parts₁ parts₂ (name ++ (text "#" ++ operation_name op))
        (key_parts-All counted_gvk space₁ counted core
          (g, (r, (count_namespace-Lacks counted namespace n, tt))))
        (key_parts-All gvk space mapping core (rw same g, (r', (n', tt))))
        (All-append (λ c. c ≢ b'/') name (text "#" ++ operation_name op) o (suffix-Lacks op)) in
    let same_test : has_prefix (resource_key key name op) prefix
        ≡ has_prefix (joined parts₂ ++ (name ++ (text "#" ++ operation_name op))) (joined parts₁) =
      λ i.
        has_prefix
          ((resource_key-suffix key name op
              ∙ ap (λ (k : Text). k ++ (name ++ (text "#" ++ operation_name op))) (sym key_is))
            i)
          (sym prefix_is i) in
    let begin : Begins parts₂ parts₁ ↔ (
        (mapping.resource ≡ counted.resource)
        × Begins (namespace_parts mapping.scope space) (namespace_parts counted.scope space₁)) =
      rw same (
        parts-Begins (contains counted.group core) counted.group counted.resource mapping.resource
          (namespace_parts counted.scope space₁) (namespace_parts mapping.scope space)) in
    let reach = namespace-Begins counted.scope namespace mapping.scope space in
    let spaces = namespace_parts-count_namespace counted namespace in
    (
      λ h. let (e, b) = begin.0 (cut.0 (sym same_test ∙ h)) in (e, reach.0 (rw spaces at b)),
      λ (e, h). let b = cut.1 (begin.1 (e, rw spaces (reach.1 h))) in same_test ∙ b,
    )
