-- ===== src/Rubric/Texts.antt =====
-- Python's `str` methods on ASCII text, as lists of character codes.

use mathlib.Core.List.{reverse}
use briefed.Base.{
  ℕ, ◌+◌, String, List, [], ◌∷◌, Bool, true, false, ◌&&◌, ◌||◌, map, leb, ◌==◌, if◌then◌else◌,
}
use briefed.Schedule.Slot.{codes, strip}

abbrev pub Text : Type 0
Text = List ℕ

unfoldable pub lower : Text → Text
lower cs = map (λ c. if leb b'A' c && leb c b'Z' then c + 32 else c) cs

unfoldable pub equals : Text → Text → Bool
equals [] [] = true
equals [] (d ∷ ds) = false
equals (c ∷ cs) [] = false
equals (c ∷ cs) (d ∷ ds) = (c == d) && equals cs ds

unfoldable pub starts_with : Text → Text → Bool
starts_with [] cs = true
starts_with (p ∷ ps) [] = false
starts_with (p ∷ ps) (c ∷ cs) = (p == c) && starts_with ps cs

-- `cs.endswith(suffix)`
unfoldable pub ends_with : Text → Text → Bool
unfolding starts_with
ends_with suffix cs = starts_with (reverse suffix) (reverse cs)

-- `needle in cs`
unfoldable pub contains : Text → Text → Bool
unfolding starts_with
contains needle [] = starts_with needle []
contains needle (c ∷ cs) = starts_with needle (c ∷ cs) || contains needle cs

-- `text.strip().lower()`
unfoldable pub needle_of : String → Text
unfolding lower
needle_of text = lower (strip (codes text))

abbrev pub is_empty : {A : Type 0} → List A → Bool
is_empty [] = true
is_empty (x ∷ xs) = false
