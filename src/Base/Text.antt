-- ===== src/Base/Text.antt =====
-- Python's `in` and `str.replace` on texts, as walks over the characters.
use Prim.Native.Char.{code}
use Prim.Native.String.{String, ◌++◌}
use Prim.Native.Nat.{ℕ, zero, suc, ◌-◌}
use mathlib.Core.Bool.{Bool, true, false, ◌||◌}
use briefed.Base.Tests.{◌==◌, if◌then◌else◌}

abbrev pub str_length : String → ℕ
str_length String.[] = 0
str_length (String.◌∷◌ c s) = suc (str_length s)

-- `s.startswith(p)`
unfoldable pub has_prefix : String → String → Bool
has_prefix String.[] s = true
has_prefix (String.◌∷◌ c p) String.[] = false
has_prefix (String.◌∷◌ c p) (String.◌∷◌ d s) = if code c == code d then has_prefix p s else false

-- `needle in s`
unfoldable pub str_contains : String → String → Bool
unfolding has_prefix
str_contains needle String.[] = has_prefix needle String.[]
str_contains needle (String.◌∷◌ c s) = has_prefix needle (String.◌∷◌ c s) || str_contains needle s

-- The walk of `str.replace` for a needle that is not empty: `skip` characters of a match are left.
replace_from : String → String → ℕ → String → String
replace_from needle new skip String.[] = String.[]
replace_from needle new (suc skip) (String.◌∷◌ c s) = replace_from needle new skip s
replace_from needle new zero (String.◌∷◌ c s) = elim (has_prefix needle (String.◌∷◌ c s)) [
  | true ↦ new ++ replace_from needle new (str_length needle - 1) s
  | false ↦ String.◌∷◌ c (replace_from needle new zero s)
]

-- An empty needle is found before each character and at the end.
replace_empty : String → String → String
replace_empty new String.[] = new
replace_empty new (String.◌∷◌ c s) = new ++ String.◌∷◌ c (replace_empty new s)

-- `s.replace(needle, new)`
unfoldable pub str_replace : String → String → String → String
unfolding replace_from replace_empty has_prefix
str_replace String.[] new s = replace_empty new s
str_replace (String.◌∷◌ c needle) new s = replace_from (String.◌∷◌ c needle) new zero s
