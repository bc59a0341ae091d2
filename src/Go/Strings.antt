-- ===== src/Go/Strings.antt =====
-- What the program uses of Go's `strings`, over texts as code points.
pub mod Laws
pub mod Replacing
use op_forward.Prelude.{
  ℕ, zero, suc, ◌+◌, ◌-◌, Bool, true, false, ◌&&◌, ◌||◌, Option, none, some, List, [], ◌∷◌, ◌++◌,
  map, leb, ◌==◌, if◌then◌else◌, Text, length,
}

-- `strings.CutPrefix`: what follows the prefix, if it is there.
unfoldable pub cut_prefix : Text → Text → Option Text
cut_prefix [] s = some s
cut_prefix (p ∷ ps) [] = none
cut_prefix (p ∷ ps) (c ∷ s) = if p == c then cut_prefix ps s else none

-- `strings.HasPrefix` with the prefix first.
unfoldable pub has_prefix : Text → Text → Bool
unfolding cut_prefix
has_prefix p s = elim (cut_prefix p s) [ some _ ↦ true | none ↦ false ]

-- `strings.TrimPrefix` with the prefix first.
unfoldable pub trim_prefix : Text → Text → Text
unfolding cut_prefix
trim_prefix p s = elim (cut_prefix p s) [ some rest ↦ rest | none ↦ s ]

abbrev cons_before : ℕ → Option (Text × Text) → Option (Text × Text)
cons_before c none = none
cons_before c (some (before, after)) = some (c ∷ before, after)

-- `strings.Cut` at the first occurrence of a separator that is not empty.
unfoldable pub cut : Text → Text → Option (Text × Text)
unfolding cut_prefix
cut sep [] = none
cut sep (c ∷ s) = elim (cut_prefix sep (c ∷ s)) [
  | some after ↦ some ([], after)
  | none ↦ cons_before c (cut sep s)
]

-- `strings.SplitN` for a positive count.
unfoldable pub split_n : Text → ℕ → Text → List Text
unfolding cut
split_n sep zero s = []
split_n sep (suc zero) s = s ∷ []
split_n sep (suc (suc n)) s = elim (cut sep s) [
  | none ↦ s ∷ []
  | some (before, after) ↦ before ∷ split_n sep (suc n) after
]

-- Rewrites the text behind the `skip` characters that a match has taken.
unfoldable pub replace_from : ℕ → Text → Text → Text → Text
unfolding has_prefix
replace_from skip old new [] = []
replace_from (suc skip) old new (c ∷ s) = replace_from skip old new s
replace_from zero old new (c ∷ s) = elim (has_prefix old (c ∷ s)) [
  | true ↦ new ++ replace_from (length old - 1) old new s
  | false ↦ c ∷ replace_from zero old new s
]

-- `strings.ReplaceAll` of a text that is not empty, which comes first.
unfoldable pub replace_all : Text → Text → Text → Text
unfolding replace_from
replace_all old new s = replace_from 0 old new s

abbrev join_first : ℕ → List Text → List Text
join_first c [] = (c ∷ []) ∷ []
join_first c (s ∷ ss) = (c ∷ s) ∷ ss

-- `strings.Split` at a separator of one character.
unfoldable pub split : ℕ → Text → List Text
split sep [] = [] ∷ []
split sep (c ∷ s) = if c == sep then [] ∷ split sep s else join_first c (split sep s)

-- `strings.Contains` with the substring first.
unfoldable pub contains : Text → Text → Bool
unfolding has_prefix
contains sub [] = has_prefix sub []
contains sub (c ∷ s) = has_prefix sub (c ∷ s) || contains sub s

-- `unicode.IsSpace`, by which `strings.TrimSpace` trims.
unfoldable pub is_space : ℕ → Bool
is_space c =
    (leb 0x9 c && leb c 0xd)
    || (c == 0x20
        || (c == 0x85
            || (c == 0xa0
                || (c == 0x1680
                    || ((leb 0x2000 c && leb c 0x200a)
                        || (c == 0x2028
                            || (c == 0x2029 || (c == 0x202f || (c == 0x205f || c == 0x3000)))))))))

unfoldable pub trim_left : Text → Text
unfolding is_space
trim_left [] = []
trim_left (c ∷ s) = if is_space c then trim_left s else c ∷ s

-- Keeps `c` unless it and all that follows is space.
abbrev keep_unless_blank : ℕ → Text → Text
keep_unless_blank c [] = if is_space c then [] else c ∷ []
keep_unless_blank c (d ∷ s) = c ∷ d ∷ s

unfoldable pub trim_right : Text → Text
unfolding is_space
trim_right [] = []
trim_right (c ∷ s) = keep_unless_blank c (trim_right s)

-- `strings.TrimSpace`.
unfoldable pub trim_space : Text → Text
unfolding trim_left trim_right
trim_space s = trim_right (trim_left s)

-- `strings.Join` with the separator first.
unfoldable pub join : Text → List Text → Text
join sep [] = []
join sep (s ∷ []) = s
join sep (s ∷ t ∷ ss) = s ++ (sep ++ join sep (t ∷ ss))

-- `unicode.ToLower` where the result is an ASCII letter (U+0130 and U+212A are the two from
-- outside ASCII); other runes stay, which no comparison with ASCII text can tell.
unfoldable pub lower_rune : ℕ → ℕ
lower_rune c =
    if leb b'A' c && leb c b'Z'
    then c + 32
    else if c == 0x130
    then b'i'
    else if c == 0x212a
    then b'k'
    else c

-- `strings.ToLower`, to that extent.
unfoldable pub to_lower : Text → Text
unfolding lower_rune
to_lower s = map lower_rune s
