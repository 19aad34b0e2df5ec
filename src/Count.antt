-- ===== src/Count.antt =====
-- internal/apiserver/count.go
pub mod Selectors
pub mod Handler
pub mod Answers
pub mod Quiet
pub mod Covers
use api_extension.Prelude.{
  ℕ, ◌++◌, Bool, true, false, not, ◌&&◌, List, [], ◌∷◌, if◌then◌else◌, leb, nat_eq,
}
use api_extension.Text.{Text, text, ◌==◌}
use api_extension.Text.Strings.{split, cut, has_prefix, trim_space}
use api_extension.Kube.{Gvk}

-- The variables of the loop over the field selectors.
pub record Selection : Type 0 where
  pub api_version : Text
  pub kind : Text
  pub field_selector : Text

-- `if _, value, ok := strings.Cut(fs, "="); ok { old = value }`
abbrev pub cut_value : Text → Text → Text
cut_value fs old = let (before, value, found) = cut fs b'=' in if found then value else old

-- One round of the loop, for a trimmed selector.
unfoldable pub select : Selection → Text → Selection
select s fs =
    if has_prefix fs (text "apiVersion")
    then record s { api_version = cut_value fs s.api_version }
    else if has_prefix fs (text "kind")
    then record s { kind = cut_value fs s.kind }
    else record s {
      field_selector = (if not (s.field_selector == []) then s.field_selector ++ b',' ∷ fs else fs);
    }

unfoldable pub select_all : Selection → List Text → Selection
unfolding select
select_all s [] = s
select_all s (fs ∷ rest) = select_all (select s (trim_space fs)) rest

abbrev pub no_selection : Selection
no_selection = record { api_version = []; kind = []; field_selector = [] }

-- The loop over `strings.Split(query.Get("fieldSelector"), ",")`.
unfoldable pub parse_field_selectors : Text → Selection
unfolding select_all
parse_field_selectors selector = select_all no_selection (split selector b',')

-- `strings.HasPrefix(p, "v") && len(p) > 1 && p[1] >= '0' && p[1] <= '9'`
unfoldable pub looks_like_version : Text → Bool
looks_like_version (c ∷ d ∷ s) = nat_eq c b'v' && leb b'0' d && leb d b'9'
looks_like_version _ = false

abbrev gvk_of_parts : Text → List Text → Gvk
gvk_of_parts kind [] = record { group = []; version = []; kind = kind }
gvk_of_parts kind (p ∷ []) =
    if looks_like_version p
    then record { group = []; version = p; kind = kind }
    else record { group = p; version = []; kind = kind }
gvk_of_parts kind (p ∷ q ∷ ps) = record { group = p; version = q; kind = kind }

-- The GroupVersionKind of a count: a single part is a version, or a group without a version.
unfoldable pub parse_gvk : Text → Text → Gvk
unfolding looks_like_version
parse_gvk api_version kind = gvk_of_parts kind (split api_version b'/')
