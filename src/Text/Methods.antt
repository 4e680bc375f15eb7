-- ===== src/Text/Methods.antt =====
-- More methods of Rust's `str`: lines, suffixes, searches from the end, and decimal numbers.
use xanh_tab.Prelude.{
  ℕ, ◌+◌, ◌*◌, ◌-◌, ◌%◌, ◌/◌, zero, suc, Bool, false, ◌&&◌, Option, none, some, List, [], ◌∷◌, ltb,
  leb, ◌==◌, if◌then◌else◌,
}
use mathlib.Core.List.{reverse}
use xanh_tab.Text.{Text, split, split_once, text_eq, to_ascii_lowercase, is_ascii_digit, last}

-- The pieces of `lines` behind the splits: one `\r` goes at the end of each, and an empty last
-- piece is no line.
abbrev strip_return : Text → Text
strip_return [] = []
strip_return (c ∷ []) = if c == 13 then [] else c ∷ []
strip_return (c ∷ d ∷ s) = c ∷ strip_return (d ∷ s)

abbrev pieces_to_lines : List Text → List Text
pieces_to_lines [] = []
pieces_to_lines ([] ∷ []) = []
pieces_to_lines ((c ∷ piece) ∷ []) = (c ∷ piece) ∷ []
pieces_to_lines (piece ∷ next ∷ pieces) = strip_return piece ∷ pieces_to_lines (next ∷ pieces)

-- `str::lines`: a last line without `\n` keeps its `\r`.
unfoldable pub lines : Text → List Text
unfolding split
lines s = pieces_to_lines (split 10 s)

-- `starts_with` and `ends_with` at a character.
abbrev pub starts_with_char : Text → ℕ → Bool
starts_with_char [] c = false
starts_with_char (d ∷ s) c = d == c

unfoldable pub ends_with_char : Text → ℕ → Bool
unfolding last
ends_with_char s c = elim (last s) [ none ↦ false | some d ↦ d == c ]

-- `strip_prefix` at a character, and `strip_suffix`.
abbrev pub strip_prefix : ℕ → Text → Option Text
strip_prefix c [] = none
strip_prefix c (d ∷ s) = if d == c then some s else none

unfoldable pub strip_suffix : ℕ → Text → Option Text
strip_suffix c s = elim (strip_prefix c (reverse s)) [ none ↦ none | some t ↦ some (reverse t) ]

-- `rsplit_once` at a character.
unfoldable pub rsplit_once : ℕ → Text → Option (Text × Text)
unfolding split_once
rsplit_once sep s = elim (split_once sep (reverse s)) [
  | none ↦ none
  | some (after, before) ↦ some (reverse before, reverse after)
]

-- `matches(c).count()`
abbrev pub count_char : ℕ → Text → ℕ
count_char c [] = 0
count_char c (d ∷ s) = let n = count_char c s in if d == c then suc n else n

-- `eq_ignore_ascii_case`
unfoldable pub eq_ignore_ascii_case : Text → Text → Bool
unfolding text_eq to_ascii_lowercase
eq_ignore_ascii_case s t = text_eq (to_ascii_lowercase s) (to_ascii_lowercase t)

-- The digits of an unsigned number, `none` past `max`.
unfoldable pub digits : ℕ → ℕ → Text → Option ℕ
unfolding is_ascii_digit
digits max n [] = some n
digits max n (c ∷ s) =
    let next = n * 10 + (c - b'0') in
    let rest = digits max next s in if is_ascii_digit c && leb next max then rest else none

-- `parse` to an unsigned integer with that largest value: a `+` may stand before the digits.
unfoldable pub parse_unsigned : ℕ → Text → Option ℕ
unfolding digits
parse_unsigned max [] = none
parse_unsigned max (c ∷ []) = digits max 0 (c ∷ [])
parse_unsigned max (c ∷ d ∷ s) =
    if c == b'+' then digits max 0 (d ∷ s) else digits max 0 (c ∷ d ∷ s)

-- The decimal digits of a number below `10 ^ fuel`, before those of `s`.
unfoldable pub print_digits : ℕ → ℕ → Text → Text
print_digits zero n s = s
print_digits (suc fuel) n s =
    let here = (b'0' + n % 10) ∷ s in
    let more = print_digits fuel (n / 10) here in if ltb n 10 then here else more

-- `to_string` of a `u32`: ten digits are enough.
unfoldable pub print_u32 : ℕ → Text
unfolding print_digits
print_u32 n = print_digits 10 n []
