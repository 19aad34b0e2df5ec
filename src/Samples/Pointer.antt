-- ===== src/Samples/Pointer.antt =====
-- What applying a JSON patch means: RFC 6901 on pointers and RFC 6902 on "add".
-- An array has no member at a token that is no index; no path of the samples has an index, so here no
-- array has any member.
use api_extension.Prelude.{
  ℕ, Bool, true, false, Option, none, some, List, [], ◌∷◌, map, if◌then◌else◌, nat_eq,
}
use api_extension.Text.{Text, text, ◌==◌}
use api_extension.Text.Strings.{split}
use api_extension.Value.{Value, object, Fields, lookup, insert}
use api_extension.Samples.Defaulting.{Operation}

-- The code point that a "~" and this one stand for.
abbrev escaped : ℕ → ℕ
escaped c = if nat_eq c b'1' then b'/' else if nat_eq c b'0' then b'~' else c

-- A token with its escapes read, behind a "~" or not.
unfoldable pub unescape : Bool → Text → Text
unescape after_tilde [] = []
unescape true (c ∷ s) = escaped c ∷ unescape false s
unescape false (c ∷ s) =
    let rest = unescape (nat_eq c b'~') s in if nat_eq c b'~' then rest else c ∷ rest

abbrev tail_of : List Text → List Text
tail_of [] = []
tail_of (t ∷ ts) = map (unescape false) ts

-- The tokens of a pointer.
unfoldable pub tokens : Text → List Text
unfolding unescape
tokens pointer = tail_of (split pointer b'/')

abbrev put_member : Text → Fields → Option Value → Option Value
put_member k m none = none
put_member k m (some v) = some (object (insert k v m))

-- A document, or a member that may be missing, with a value added at a path below it. The objects on
-- the way must be there.
unfoldable pub add_at : List Text → Value → Option Value → Option Value
add_at [] v old = some v
add_at (k ∷ ks) v (some (object m)) = put_member k m (add_at ks v (lookup k m))
add_at (k ∷ ks) v old = none

unfoldable pub apply_operation : Operation → Value → Option Value
unfolding tokens add_at
apply_operation o doc =
    if o.op == text "add" then add_at (tokens o.path) o.value (some doc) else none

unfoldable pub apply_patch : List Operation → Value → Option Value
unfolding apply_operation
apply_patch [] doc = some doc
apply_patch (o ∷ os) doc = elim (apply_operation o doc) [
  | none ↦ none
  | some doc' ↦ apply_patch os doc'
]
