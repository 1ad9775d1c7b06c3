-- ===== src/Schedule/Slot.antt =====
-- `_parse_slot` of backend/app/core/scheduling.py, with Python's `int` on ASCII text.
use mathlib.Core.List.{reverse}
use Prim.Native.Char.{code}
use briefed.Base.{
  ℕ, zero, suc, ◌+◌, ◌-◌, ◌*◌, ◌≤◌, ◌≡◌, String, List, [], ◌∷◌, Bool, true, false, ◌&&◌, ◌||◌,
  Option, none, some, arith, leb, ◌==◌, if◌then◌else◌,
}

-- The characters of a text, by their codes.
abbrev pub codes : String → List ℕ
codes String.[] = []
codes (String.◌∷◌ c s) = code c ∷ codes s

-- `str.isspace` in ASCII.
unfoldable pub is_space : ℕ → Bool
is_space c = c == 32 || (leb 9 c && leb c 13) || (leb 28 c && leb c 31)

unfoldable is_digit : ℕ → Bool
is_digit c = leb b'0' c && leb c b'9'

unfoldable pub strip_left : List ℕ → List ℕ
unfolding is_space
strip_left [] = []
strip_left (c ∷ cs) = let rest = strip_left cs in if is_space c then rest else c ∷ cs

unfoldable pub strip : List ℕ → List ℕ
unfolding strip_left
strip cs = reverse (strip_left (reverse (strip_left cs)))

-- Digits, with single underscores between them; the flag says whether a digit stands before.
unfoldable digits : ℕ → Bool → List ℕ → Option ℕ
unfolding is_digit
digits value after_digit [] = if after_digit then some value else none
digits value after_digit (c ∷ cs) =
    let more = digits (value * 10 + (c - b'0')) true cs in
    let joined = digits value false cs in
    if is_digit c then more else if (c == b'_') && after_digit then joined else none

-- A negative number and `ValueError` are both `none`: the caller treats them alike. Minus zero is
-- zero.
unfoldable only_zero : Option ℕ → Option ℕ
only_zero none = none
only_zero (some zero) = some zero
only_zero (some (suc n)) = none

unfoldable signed : List ℕ → Option ℕ
unfolding digits only_zero
signed [] = none
signed (c ∷ cs) =
    if c == b'-'
    then only_zero (digits 0 false cs)
    else if c == b'+'
    then digits 0 false cs
    else digits 0 false (c ∷ cs)

-- `int(text)`, where it is not negative.
unfoldable parse_int : List ℕ → Option ℕ
unfolding signed strip
parse_int cs = signed (strip cs)

-- `value.split(":")`, as the part before the first colon and the others.
unfoldable split_colon : List ℕ → List ℕ × List (List ℕ)
split_colon [] = ([], [])
split_colon (c ∷ cs) =
    let (part, parts) = split_colon cs in
    if c == b':' then ([], part ∷ parts) else (c ∷ part, parts)

-- The two tests on the parsed numbers.
unfoldable in_range : Option ℕ → Option ℕ → Option (ℕ × ℕ)
in_range (some hour) (some minute) =
    if leb hour 23 && leb minute 59 then some (hour, minute) else none
in_range _ _ = none

unfoldable two_parts : List ℕ → List (List ℕ) → Option (ℕ × ℕ)
unfolding in_range parse_int
two_parts hours (minutes ∷ []) = in_range (parse_int hours) (parse_int minutes)
two_parts _ _ = none

unfoldable pub parse_slot : String → Option (ℕ × ℕ)
unfolding two_parts split_colon
parse_slot value = let (hours, rest) = split_colon (codes value) in two_parts hours rest

in_range-bounds :
    (a b : Option ℕ) (hour minute : ℕ)
    → in_range a b ≡ some (hour, minute)
    → (hour ≤ 23) × (minute ≤ 59)
unfolding in_range
in_range-bounds (some a) (some b) hour minute h = ground arith
in_range-bounds (some a) none hour minute h = ground arith
in_range-bounds none b hour minute h = ground arith

two_parts-bounds :
    (hours : List ℕ) (rest : List (List ℕ)) (hour minute : ℕ)
    → two_parts hours rest ≡ some (hour, minute)
    → (hour ≤ 23) × (minute ≤ 59)
unfolding two_parts
two_parts-bounds hours (minutes ∷ []) hour minute h =
    in_range-bounds (parse_int hours) (parse_int minutes) hour minute h
two_parts-bounds hours [] hour minute h = ground arith
two_parts-bounds hours (a ∷ b ∷ rest) hour minute h = ground arith

pub parse_slot-bounds :
    (value : String) (hour minute : ℕ)
    → parse_slot value ≡ some (hour, minute)
    → (hour ≤ 23) × (minute ≤ 59)
unfolding parse_slot
parse_slot-bounds value hour minute h =
    let (hours, rest) = split_colon (codes value) in two_parts-bounds hours rest hour minute h
