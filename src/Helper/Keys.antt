-- ===== src/Helper/Keys.antt =====
-- The keys of etcdKeyForGroupVersionKind.
use api_extension.Prelude.{
  Bool, ◌≡◌, refl, sym, ap, ◌∙◌, true, false, not, ◌&&◌, some, List, [], ◌∷◌, ◌++◌, append_assoc,
  arith, All, if◌then◌else◌, ok_inj, ok,
}
use api_extension.Text.{Text, text, ◌==◌}
use api_extension.Text.Strings.{split}
use api_extension.Text.Laws.{Lacks, split-append, text-slash}
use api_extension.Kube.{Gvk, Scope, root, namespaced, Mapping, Codec}
use api_extension.Helper.{is_root, contains, etcd_key}

-- The parts of a key, by what the API server's storage holds under /registry: the group, unless it is
-- a core one, the resource, and the namespace of a namespaced object, if it has one.
abbrev pub group_parts : Gvk → List Text → List Text
group_parts gvk core = if contains gvk.group core then [] else gvk.group ∷ []

abbrev pub namespace_parts : Scope → Text → List Text
namespace_parts root namespace = []
namespace_parts namespaced [] = []
namespace_parts namespaced (c ∷ s) = (c ∷ s) ∷ []

abbrev pub key_parts : Gvk → Text → Mapping → List Text → List Text
key_parts gvk namespace resource core =
    []
    ∷ text "registry"
    ∷ (group_parts gvk core ++ (resource.resource ∷ namespace_parts resource.scope namespace))

-- Each part with a slash behind it.
abbrev pub joined : List Text → Text
joined [] = []
joined (p ∷ ps) = p ++ b'/' ∷ joined ps

split-joined : (ps : List Text) → All (Lacks b'/') ps → split (joined ps) b'/' ≡ ps ++ [] ∷ []
split-joined [] h = unfold split in refl
split-joined (p ∷ ps) (hp, h) =
    split-append p (joined ps) b'/' hp ∙ ap (λ (xs : List Text). p ∷ xs) (split-joined ps h)

joined-append : (ps qs : List Text) → joined (ps ++ qs) ≡ joined ps ++ joined qs
joined-append [] qs = refl
joined-append (p ∷ ps) qs =
    rw (joined-append ps qs) (sym (append_assoc p (b'/' ∷ joined ps) (joined qs)))

group-joined :
    (b : Bool) (g : Text) → (if b then [] else g ++ text "/") ≡ joined (if b then [] else g ∷ [])
group-joined true g = refl
group-joined false g = rw text-slash

namespace-joined :
    (scope : Scope) (ns : Text)
    → (if not (is_root scope) && not (ns == []) then ns ++ text "/" else [])
      ≡ joined (namespace_parts scope ns)
unfolding ◌==◌
namespace-joined root ns = refl
namespace-joined namespaced [] = refl
namespace-joined namespaced (c ∷ s) = rw text-slash

pub etcd_key-joined :
    (codec : Codec) (gvk : Gvk) (namespace : Text) (resource : Mapping) (core : List Text)
    → etcd_key codec gvk namespace (some resource) core
      ≡ ok (joined (key_parts gvk namespace resource core))
unfolding etcd_key text
etcd_key-joined codec gvk namespace resource core = simp (
  joined-append,
  append_assoc,
  group-joined (contains gvk.group core) gvk.group,
  namespace-joined resource.scope namespace,
)

group_parts-All :
    (b : Bool) (g : Text) (ps : List Text)
    → Lacks b'/' g
    → All (Lacks b'/') ps
    → All (Lacks b'/') ((if b then [] else g ∷ []) ++ ps)
group_parts-All true g ps h k = k
group_parts-All false g ps h k = (h, k)

namespace_parts-All :
    (scope : Scope) (ns : Text) → Lacks b'/' ns → All (Lacks b'/') (namespace_parts scope ns)
namespace_parts-All root ns h = tt
namespace_parts-All namespaced [] h = tt
namespace_parts-All namespaced (c ∷ s) h = (h, tt)

registry-Lacks : Lacks b'/' (text "registry")
unfolding text
registry-Lacks = omega arith

pub key_parts-All :
    (gvk : Gvk) (namespace : Text) (resource : Mapping) (core : List Text)
    → All (Lacks b'/') (gvk.group ∷ resource.resource ∷ namespace ∷ [])
    → All (Lacks b'/') (key_parts gvk namespace resource core)
key_parts-All gvk namespace resource core (g, (r, (n, _))) = (
  tt,
  (
    registry-Lacks,
    group_parts-All (contains gvk.group core) gvk.group _ g
        (r, namespace_parts-All resource.scope namespace n),
  ),
)

-- The prefix of an object's keys, cut at its slashes, is "registry", the group unless it is a core
-- one, the resource, and the namespace of a namespaced object if it has one, with a slash in front
-- and one behind: so it determines each of them.
pub split-etcd_key :
    (codec : Codec) (gvk : Gvk) (namespace : Text) (resource : Mapping) (core : List Text)
    (key : Text)
    → All (Lacks b'/') (gvk.group ∷ resource.resource ∷ namespace ∷ [])
    → etcd_key codec gvk namespace (some resource) core ≡ ok key
    → split key b'/' ≡ key_parts gvk namespace resource core ++ [] ∷ []
split-etcd_key codec gvk namespace resource core key h e =
    rw (← (ok_inj (sym (etcd_key-joined codec gvk namespace resource core) ∙ e))) (
      split-joined (key_parts gvk namespace resource core)
        (key_parts-All gvk namespace resource core h))
