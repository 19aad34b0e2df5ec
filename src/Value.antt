-- ===== src/Value.antt =====
-- Values of Go's type `interface{}`, as the YAML and JSON decoders build them.
-- A Go map is the list of its entries in the order in which a `range` loop meets them; the theorems
-- are for every such list, so for every order that the runtime may choose.
pub mod Laws
pub mod Yaml
use api_extension.Prelude.{Bool, true, false, Option, none, some, [], if◌then◌else◌}
use api_extension.Text.{Text, text, ◌==◌}

-- The key of a `map[interface{}]interface{}`. A number is the text that `fmt.Sprint` prints for it.
pub data Key : Type 0 where
  null : Key
  boolean : Bool → Key
  number : Text → Key
  string : Text → Key

mutual
  -- `object` is a `map[string]interface{}`, `mapping` a `map[interface{}]interface{}`
  -- and `bytes` a `[]byte`.
  pub data Value : Type 0 where
    null : Value
    boolean : Bool → Value
    number : Text → Value
    string : Text → Value
    bytes : Text → Value
    array : Items → Value
    object : Fields → Value
    mapping : Entries → Value

  pub data Items : Type 0 where
    nil : Items
    cons : Value → Items → Items

  pub data Fields : Type 0 where
    end : Fields
    field : Text → Value → Fields → Fields

  pub data Entries : Type 0 where
    stop : Entries
    entry : Key → Value → Entries → Entries

-- `fmt.Sprint(key)`
unfoldable pub sprint : Key → Text
unfolding text
sprint Key.null = text "<nil>"
sprint (Key.boolean true) = text "true"
sprint (Key.boolean false) = text "false"
sprint (Key.number s) = s
sprint (Key.string s) = s

-- `v, ok := m[key]`
unfoldable pub lookup : Text → Fields → Option Value
lookup k end = none
lookup k (field j v m) = if j == k then some v else lookup k m

-- `v, ok := m[key]` of a `map[interface{}]interface{}` at a text.
unfoldable pub lookup_entry : Text → Entries → Option Value
lookup_entry k stop = none
lookup_entry k (entry (Key.string j) v m) = if j == k then some v else lookup_entry k m
lookup_entry k (entry _ v m) = lookup_entry k m

-- `m[key] = v`
unfoldable pub insert : Text → Value → Fields → Fields
insert k v end = field k v end
insert k v (field j u m) = if j == k then field j v m else field j u (insert k v m)

-- `len(m)` is 0.
unfoldable pub is_empty : Fields → Bool
is_empty end = true
is_empty (field j v m) = false

-- `s, _ := v.(string)`, for a value that may be missing: the empty text when it is no string.
unfoldable pub string_or_empty : Option Value → Text
string_or_empty (some (Value.string s)) = s
string_or_empty _ = []
