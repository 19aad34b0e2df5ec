-- ===== src/Value/Yaml.antt =====
-- What yaml.v2 documents of decoding: a map in place of an `interface{}` becomes a
-- `map[interface{}]interface{}`, and a member of a struct is filled by its type. It is used only in
-- hypotheses on the decoders.
use api_extension.Prelude.{◌≡◌, refl, Bool-cases, inl, inr, Option, none, some, []}
use api_extension.Text.{Text, ◌==◌}
use api_extension.Value.{
  Value, null, boolean, number, string, bytes, array, object, mapping, Key, Items, nil, cons,
  Fields, end, field, Entries, stop, entry, lookup, string_or_empty,
}

-- The value that a document is decoded to. The entries of a map are in the order in which a loop meets
-- them, in the document as in its value.
unfoldable mutual
  pub yaml_of : Value → Value
  yaml_of (object m) = mapping (yaml_entries m)
  yaml_of (array xs) = array (yaml_items xs)
  yaml_of (mapping es) = mapping es
  yaml_of null = null
  yaml_of (boolean b) = boolean b
  yaml_of (number s) = number s
  yaml_of (string s) = string s
  yaml_of (bytes s) = bytes s

  pub yaml_entries : Fields → Entries
  yaml_entries end = stop
  yaml_entries (field k v m) = entry (Key.string k) (yaml_of v) (yaml_entries m)

  pub yaml_items : Items → Items
  yaml_items nil = nil
  yaml_items (cons v xs) = cons (yaml_of v) (yaml_items xs)

-- A value of JSON: its maps have text keys, none twice.
abbrev mutual
  pub IsDocument : Value → Type 0
  IsDocument (object m) = AreMembers m
  IsDocument (array xs) = AreItems xs
  IsDocument (mapping es) = ⊥
  IsDocument (bytes s) = ⊥
  IsDocument null = Unit
  IsDocument (boolean b) = Unit
  IsDocument (number s) = Unit
  IsDocument (string s) = Unit

  pub AreMembers : Fields → Type 0
  AreMembers end = Unit
  AreMembers (field k v m) = (lookup k m ≡ none) × IsDocument v × AreMembers m

  pub AreItems : Items → Type 0
  AreItems nil = Unit
  AreItems (cons v xs) = IsDocument v × AreItems xs

-- What a decoder makes of a member of a struct, by its type; `none` is a member that is missing. Of what
-- is not said here nothing is known.
abbrev pub IsText : Option Value → Text → Type 0
IsText (some (string s)) t = t ≡ s
IsText none t = t ≡ []
IsText (some v) t = Unit

abbrev pub IsAny : Option Value → Value → Type 0
IsAny (some v) w = w ≡ yaml_of v
IsAny none w = w ≡ null

-- The map of a type `map[string]interface{}`; a text or a list cannot be decoded to it.
unfoldable pub yaml_fields : Fields → Fields
yaml_fields end = end
yaml_fields (field k v m) = field k (yaml_of v) (yaml_fields m)

abbrev pub IsMap : Option Value → Fields → Type 0
IsMap (some (object m)) n = n ≡ yaml_fields m
IsMap (some null) n = n ≡ end
IsMap none n = n ≡ end
IsMap (some v) n = ⊥

string-yaml_of : (v : Value) → string_or_empty (some (yaml_of v)) ≡ string_or_empty (some v)
unfolding yaml_of string_or_empty
string-yaml_of null = refl
string-yaml_of (boolean b) = refl
string-yaml_of (number s) = refl
string-yaml_of (string s) = refl
string-yaml_of (bytes s) = refl
string-yaml_of (array xs) = refl
string-yaml_of (object m) = refl
string-yaml_of (mapping es) = refl

-- The text of a member survives.
pub string-yaml_fields :
    (k : Text) (m : Fields)
    → string_or_empty (lookup k (yaml_fields m)) ≡ string_or_empty (lookup k m)
unfolding lookup yaml_fields
string-yaml_fields k end = refl
string-yaml_fields k (field j v m) = elim (Bool-cases (j == k)) [
  | inl same ↦ rw same (string-yaml_of v)
  | inr other ↦ rw other (string-yaml_fields k m)
]
