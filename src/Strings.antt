-- ===== src/Strings.antt =====
-- Texts, and the functions of Go's packages `strings` and `unicode` that the program calls on them.
-- A text is the list of its code points; `byte_length` counts the bytes of its UTF-8 encoding.
pub mod Laws
pub mod Lines
pub mod Decimal
pub mod Trim
use protean.Prelude.{
  ℕ, ◌+◌, List, [], ◌∷◌, ◌++◌, Bool, true, false, not, ◌&&◌, ◌||◌, Option, none, some, ltb, leb,
  ◌==◌, if◌then◌else◌, reverse, code, String,
}

abbrev pub Text : Type 0
Text = List ℕ

abbrev pub codes : String → Text
codes String.[] = []
codes (String.◌∷◌ c s) = code c ∷ codes s

-- `a == b` on strings
unfoldable pub same : Text → Text → Bool
same [] [] = true
same (a ∷ s) (b ∷ t) = a == b && same s t
same _ _ = false

-- `s == ""`
unfoldable pub is_empty : Text → Bool
is_empty [] = true
is_empty (c ∷ s) = false

-- `len(s)`
unfoldable pub byte_length : Text → ℕ
byte_length [] = 0
byte_length (c ∷ s) =
    (if ltb c 0x80 then 1 else if ltb c 0x800 then 2 else if ltb c 0x10000 then 3 else 4)
    + byte_length s

-- `unicode.IsSpace`
unfoldable pub is_space : ℕ → Bool
is_space c =
    leb 9 c && leb c 13
    || c == 0x20
    || c == 0x85
    || c == 0xa0
    || c == 0x1680
    || leb 0x2000 c && leb c 0x200a
    || c == 0x2028
    || c == 0x2029
    || c == 0x202f
    || c == 0x205f
    || c == 0x3000

unfoldable pub trim_left : Text → Text
trim_left [] = []
trim_left (c ∷ s) = if is_space c then trim_left s else c ∷ s

-- `strings.TrimSpace`
unfoldable pub trim_space : Text → Text
unfolding trim_left is_space
trim_space s = reverse (trim_left (reverse (trim_left s)))

-- `strings.CutPrefix`
unfoldable pub cut_prefix : Text → Text → Option Text
cut_prefix s [] = some s
cut_prefix [] (p ∷ ps) = none
cut_prefix (c ∷ s) (p ∷ ps) = if c == p then cut_prefix s ps else none

-- `strings.HasPrefix`
unfoldable pub has_prefix : Text → Text → Bool
unfolding cut_prefix
has_prefix s p = elim (cut_prefix s p) [ none ↦ false | some _ ↦ true ]

-- `strings.Contains`
unfoldable pub contains : Text → Text → Bool
unfolding has_prefix
contains [] p = has_prefix [] p
contains (c ∷ s) p = has_prefix (c ∷ s) p || contains s p

-- the rest of `cut`, behind a character that is not the separator
abbrev pub behind : ℕ → Option (Text × Text) → Option (Text × Text)
behind c none = none
behind c (some (before, after)) = some (c ∷ before, after)

-- `strings.Cut` at one character
unfoldable pub cut : Text → ℕ → Option (Text × Text)
cut [] sep = none
cut (c ∷ s) sep = if c == sep then some ([], s) else behind c (cut s sep)

abbrev pub add_to_first : ℕ → List Text → List Text
add_to_first c [] = (c ∷ []) ∷ []
add_to_first c (p ∷ ps) = (c ∷ p) ∷ ps

-- `strings.Split` at one character: always at least one part
unfoldable pub split : Text → ℕ → List Text
split [] sep = [] ∷ []
split (c ∷ s) sep = if c == sep then [] ∷ split s sep else add_to_first c (split s sep)

-- `strings.Join`
unfoldable pub join : List Text → Text → Text
join [] sep = []
join (p ∷ []) sep = p
join (p ∷ q ∷ ps) sep = p ++ (sep ++ join (q ∷ ps) sep)

-- `strings.ReplaceAll` of one character by a text
unfoldable pub replace_all : Text → ℕ → Text → Text
replace_all [] old new = []
replace_all (c ∷ s) old new = (if c == old then new else c ∷ []) ++ replace_all s old new

-- Membership in a set of strings, `m[s]` on a `map[string]bool`.
unfoldable pub member : Text → List Text → Bool
unfolding same
member s [] = false
member s (t ∷ ts) = same t s || member s ts
