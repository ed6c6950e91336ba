-- ===== src/Strings.antt =====
-- The functions of Go's `strings` package that the program calls, on text as bytes.
pub mod Laws
use timberlake.Base.{
  ℕ, ◌+◌, Bool, true, false, ◌&&◌, ◌||◌, List, [], ◌∷◌, ◌++◌, Option, none, some, leb, ◌==◌, length,
  drop, map, if◌then◌else◌,
}
use timberlake.Io.{Text}

-- The UTF-8 of the two characters beyond ASCII that the program prints.
abbrev pub em_dash : Text
em_dash = 226 ∷ 128 ∷ 148 ∷ []

abbrev pub ellipsis : Text
ellipsis = 226 ∷ 128 ∷ 166 ∷ []

-- s == "".
unfoldable pub is_empty : Text → Bool
is_empty [] = true
is_empty (c ∷ cs) = false

-- strings.HasPrefix(s, p), as `has_prefix p s`.
unfoldable pub has_prefix : Text → Text → Bool
has_prefix [] s = true
has_prefix (c ∷ p) [] = false
has_prefix (c ∷ p) (x ∷ s) = (x == c) && has_prefix p s

-- strings.TrimPrefix(s, p), as `trim_prefix p s`.
unfoldable pub trim_prefix : Text → Text → Text
trim_prefix p s = if has_prefix p s then drop (length p) s else s

-- strings.Trim of one byte: at the left end, at the right end, at both.
unfoldable pub trim_left : ℕ → Text → Text
trim_left c [] = []
trim_left c (x ∷ s) = if x == c then trim_left c s else x ∷ s

-- x ∷ s, but nothing where x is the byte and all after it is trimmed.
unfoldable pub keep_right : ℕ → ℕ → Text → Text
keep_right c x [] = if x == c then [] else x ∷ []
keep_right c x (y ∷ s) = x ∷ y ∷ s

unfoldable pub trim_right : ℕ → Text → Text
unfolding keep_right
trim_right c [] = []
trim_right c (x ∷ s) = keep_right c x (trim_right c s)

unfoldable pub trim : ℕ → Text → Text
unfolding trim_left trim_right
trim c s = trim_right c (trim_left c s)

-- strings.ReplaceAll of one byte by another.
unfoldable pub replace_byte : ℕ → ℕ → Text → Text
replace_byte a b = map (λ x. if x == a then b else x)

-- The white space of ASCII.
abbrev pub is_space : ℕ → Bool
is_space x = x == 32 || (leb 9 x && leb x 13)

unfoldable pub trim_space_left : Text → Text
trim_space_left [] = []
trim_space_left (x ∷ s) = if is_space x then trim_space_left s else x ∷ s

unfoldable pub keep_text : ℕ → Text → Text
keep_text x [] = if is_space x then [] else x ∷ []
keep_text x (y ∷ s) = x ∷ y ∷ s

unfoldable pub trim_space_right : Text → Text
unfolding keep_text
trim_space_right [] = []
trim_space_right (x ∷ s) = keep_text x (trim_space_right s)

-- strings.TrimSpace, of ASCII text.
unfoldable pub trim_space : Text → Text
unfolding trim_space_left trim_space_right
trim_space s = trim_space_right (trim_space_left s)

-- strings.ToLower, of ASCII text.
unfoldable pub to_lower : Text → Text
to_lower = map (λ x. if leb b'A' x && leb x b'Z' then x + 32 else x)

abbrev pub cons_before : ℕ → Option (Text × Text) → Option (Text × Text)
cons_before x none = none
cons_before x (some (a, b)) = some (x ∷ a, b)

-- strings.Cut at one byte: before and after the first, or `none`. (strings.SplitN with 2.)
unfoldable pub cut : ℕ → Text → Option (Text × Text)
cut c [] = none
cut c (x ∷ s) = if x == c then some ([], s) else cons_before x (cut c s)

abbrev pub cons_first : ℕ → List Text → List Text
cons_first x [] = (x ∷ []) ∷ []
cons_first x (part ∷ parts) = (x ∷ part) ∷ parts

-- strings.Split at one byte.
unfoldable pub split : ℕ → Text → List Text
split c [] = [] ∷ []
split c (x ∷ s) = let parts = split c s in if x == c then [] ∷ parts else cons_first x parts
