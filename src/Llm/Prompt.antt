-- ===== src/Llm/Prompt.antt =====
-- `render_prompt` and `_iter_placeholders` of backend/app/llm/client.py. The order in which Python goes
-- through a set is a parameter.
use Prim.Native.Char.{code}
use Prim.Native.String.{String, ◌++◌}
use briefed.Base.{
  ℕ, zero, suc, ◌-◌, List, [], ◌∷◌, Bool, false, ◌&&◌, ◌||◌, Option, none, some, leb, ◌==◌,
  if◌then◌else◌,
}
use briefed.Base.Dict.{Dict, lookup}
use briefed.Base.Text.{str_length, has_prefix, str_replace}
use briefed.Llm.Types.{PromptSpec}

-- `\s`, `[a-zA-Z_]` and `[a-zA-Z0-9_]`
abbrev is_space : ℕ → Bool
is_space c = (leb 9 c && leb c 13) || (leb 28 c && leb c 32)

abbrev is_name_start : ℕ → Bool
is_name_start c = (leb b'a' c && leb c b'z') || (leb b'A' c && leb c b'Z') || (c == b'_')

abbrev is_name_part : ℕ → Bool
is_name_part c = is_name_start c || (leb b'0' c && leb c b'9')

unfoldable pub skip_spaces : String → String
skip_spaces String.[] = String.[]
skip_spaces (String.◌∷◌ c s) =
    let rest = skip_spaces s in if is_space (code c) then rest else String.◌∷◌ c s

unfoldable pub take_name : String → String
take_name String.[] = String.[]
take_name (String.◌∷◌ c s) =
    let rest = take_name s in if is_name_part (code c) then String.◌∷◌ c rest else String.[]

unfoldable pub drop_name : String → String
drop_name String.[] = String.[]
drop_name (String.◌∷◌ c s) =
    let rest = drop_name s in if is_name_part (code c) then rest else String.◌∷◌ c s

abbrev starts_name : String → Bool
starts_name String.[] = false
starts_name (String.◌∷◌ c s) = is_name_start (code c)

abbrev drop_two : String → String
drop_two (String.◌∷◌ c (String.◌∷◌ d s)) = s
drop_two s = String.[]

-- A match of `_PLACEHOLDER_RE` at the front: its name, and the text behind it.
unfoldable pub match_placeholder : String → Option (String × String)
unfolding has_prefix skip_spaces take_name drop_name
match_placeholder s =
    let inner = skip_spaces (drop_two s) in
    let rest = skip_spaces (drop_name inner) in
    if has_prefix "{{" s && starts_name inner && has_prefix "}}" rest
    then some (take_name inner, drop_two rest)
    else none

-- `findall`: of a match, `skip` characters are left to pass over.
unfoldable pub placeholders_from : ℕ → String → List String
unfolding match_placeholder
placeholders_from skip String.[] = []
placeholders_from (suc skip) (String.◌∷◌ c s) = placeholders_from skip s
placeholders_from zero (String.◌∷◌ c s) = elim (match_placeholder (String.◌∷◌ c s)) [
  | none ↦ placeholders_from zero s
  | some (name, rest) ↦ name ∷ placeholders_from (str_length s - str_length rest) s
]

-- The loop over the placeholders; `none` is the `KeyError`.
unfoldable pub fill : List String → Dict String → String → Option String
unfolding lookup str_replace
fill [] variables rendered = some rendered
fill (p ∷ ps) variables rendered = elim (lookup p variables) [
  | none ↦ none
  | some v ↦ fill ps variables (str_replace ("{{" ++ p ++ "}}") v rendered)
]

unfoldable pub render_prompt :
    (List String → List String) → PromptSpec → Dict String → Option String
unfolding placeholders_from fill
render_prompt set_order spec variables =
    fill (set_order (placeholders_from zero spec.content)) variables spec.content
