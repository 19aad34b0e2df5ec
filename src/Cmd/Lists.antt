-- ===== src/Cmd/Lists.antt =====
-- The lists that the flags of cmd/main.go name.
use api_extension.Prelude.{◌≡◌, ◌≢◌, refl, true, false, List, [], ◌∷◌, arith, All, if◌then◌else◌}
use api_extension.Text.{Text, ◌==◌, eq_iff}
use api_extension.Text.Strings.{split, trim_space}
use api_extension.Text.Laws.{trim_space_idem}
use api_extension.Cmd.{trim_parts, split_comma_separated, split_comma_separated_preserve_empty}

-- An item without space round it that is not empty.
abbrev pub IsItem : Text → Type 0
IsItem s = (trim_space s ≡ s) × (s ≢ [])

trim_parts-AreItems : (parts : List Text) → All IsItem (trim_parts false parts)
unfolding trim_parts
trim_parts-AreItems [] = tt
trim_parts-AreItems (part ∷ parts) =
    ground (arith, trim_parts-AreItems parts, trim_space_idem part, eq_iff (trim_space part) [])

-- The items of splitCommaSeparated are trimmed, and none is empty.
pub split_comma_separated-AreItems : (value : Text) → All IsItem (split_comma_separated value)
unfolding split_comma_separated
split_comma_separated-AreItems value = ground (arith, trim_parts-AreItems (split value b','))

-- The items that are not empty, in their order.
unfoldable pub drop_empty_items : List Text → List Text
drop_empty_items [] = []
drop_empty_items (s ∷ rest) =
    let others = drop_empty_items rest in if s == [] then others else s ∷ others

trim_parts-drop_empty_items :
    (parts : List Text) → trim_parts false parts ≡ drop_empty_items (trim_parts true parts)
unfolding trim_parts drop_empty_items
trim_parts-drop_empty_items [] = refl
trim_parts-drop_empty_items (part ∷ parts) = ground (arith, trim_parts-drop_empty_items parts)

-- splitCommaSeparated gives what splitCommaSeparatedPreserveEmpty gives, less the empty items.
pub split_comma_separated-drop_empty_items :
    (value : Text)
    → split_comma_separated value ≡ drop_empty_items (split_comma_separated_preserve_empty value)
unfolding split_comma_separated split_comma_separated_preserve_empty drop_empty_items
split_comma_separated-drop_empty_items value =
    ground (arith, trim_parts-drop_empty_items (split value b','))
