-- ===== src/Text/Strings.antt =====
-- The functions of Go's packages strings and fmt that the program calls, on code points.
use api_extension.Prelude.{
  ℕ, zero, suc, ◌+◌, ◌/◌, ◌%◌, ◌≡◌, refl, Bool, true, false, ◌||◌, ◌&&◌, List, [], ◌∷◌, ◌++◌, map,
  ltb, leb, nat_eq, if◌then◌else◌,
}
use api_extension.Text.{Text, text}

-- strings.Split(s, sep), for a separator of one code point.
abbrev pub push_head : ℕ → List Text → List Text
push_head c [] = (c ∷ []) ∷ []
push_head c (p ∷ ps) = (c ∷ p) ∷ ps

unfoldable pub split : Text → ℕ → List Text
split [] sep = [] ∷ []
split (c ∷ s) sep = let rest = split s sep in if nat_eq c sep then [] ∷ rest else push_head c rest

-- strings.Join(parts, sep)
unfoldable pub join : List Text → ℕ → Text
join [] sep = []
join (p ∷ []) sep = p
join (p ∷ q ∷ ps) sep = p ++ sep ∷ join (q ∷ ps) sep

-- strings.Cut(s, sep): the text before the separator, the text behind it, and whether it was found.
unfoldable pub cut : Text → ℕ → Text × Text × Bool
cut [] sep = ([], [], false)
cut (c ∷ s) sep =
    let rest = cut s sep in if nat_eq c sep then ([], s, true) else (c ∷ rest.0, rest.1, rest.2)

-- strings.HasPrefix(s, prefix)
unfoldable pub has_prefix : Text → Text → Bool
has_prefix s [] = true
has_prefix [] (d ∷ p) = false
has_prefix (c ∷ s) (d ∷ p) = nat_eq c d && has_prefix s p

-- unicode.IsSpace
unfoldable pub is_space : ℕ → Bool
is_space c =
    (leb 0x09 c && leb c 0x0d)
    || nat_eq c 0x20
    || nat_eq c 0x85
    || nat_eq c 0xa0
    || nat_eq c 0x1680
    || (leb 0x2000 c && leb c 0x200a)
    || nat_eq c 0x2028
    || nat_eq c 0x2029
    || nat_eq c 0x202f
    || nat_eq c 0x205f
    || nat_eq c 0x3000

unfoldable pub trim_left : (ℕ → Bool) → Text → Text
trim_left p [] = []
trim_left p (c ∷ s) = if p c then trim_left p s else c ∷ s

abbrev pub keep_right : Bool → ℕ → Text → Text
keep_right b c (d ∷ s) = c ∷ d ∷ s
keep_right true c [] = []
keep_right false c [] = c ∷ []

unfoldable pub trim_right : (ℕ → Bool) → Text → Text
trim_right p [] = []
trim_right p (c ∷ s) = keep_right (p c) c (trim_right p s)

-- strings.TrimFunc
unfoldable pub trim_func : (ℕ → Bool) → Text → Text
unfolding trim_left trim_right
trim_func p s = trim_right p (trim_left p s)

-- strings.TrimSpace
unfoldable pub trim_space : Text → Text
unfolding trim_func is_space
trim_space s = trim_func is_space s

-- strings.Trim(s, "/")
unfoldable pub trim_slash : Text → Text
unfolding trim_func
trim_slash s = trim_func (λ c. nat_eq c b'/') s

-- unicode.ToLower, as far as its results in ASCII go: the two code points behind ASCII whose lower
-- case is in ASCII, and every other one behind ASCII left alone, though Go may map it to another one
-- there. The program compares the result with ASCII words only.
unfoldable pub lower : ℕ → ℕ
lower c =
    if leb b'A' c && leb c b'Z'
    then c + 32
    else if nat_eq c 0x130
    then b'i'
    else if nat_eq c 0x212a
    then b'k'
    else c

-- strings.ToLower
unfoldable pub to_lower : Text → Text
unfolding lower
to_lower s = map lower s

-- `%d` of a number that is not negative. One round for each digit; `decimal` gives enough fuel.
unfoldable pub decimal_from : ℕ → ℕ → Text
decimal_from zero n = []
decimal_from (suc fuel) n =
    let front = decimal_from fuel (n / 10) in
    if ltb n 10 then (b'0' + n) ∷ [] else front ++ (b'0' + n % 10) ∷ []

unfoldable pub decimal : ℕ → Text
unfolding decimal_from
decimal n = decimal_from (suc n) n

split_test : split (text "a/b//c") b'/' ≡ text "a" ∷ text "b" ∷ [] ∷ text "c" ∷ []
unfolding split text
split_test = refl

cut_test : cut (text "kind=A=B") b'=' ≡ (text "kind", text "A=B", true)
unfolding cut text
cut_test = refl

trim_test : trim_space (text " a b \n") ≡ text "a b"
unfolding trim_space text
trim_test = refl

decimal_test : decimal 1700000000123456789 ≡ text "1700000000123456789"
unfolding decimal text
decimal_test = refl
