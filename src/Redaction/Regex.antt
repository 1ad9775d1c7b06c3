-- ===== src/Redaction/Regex.antt =====
-- backend/app/llm/redaction/regex_sanitizer.py. What a compiled pattern finds in a text is Python's
-- `re`, a parameter, as is the text of a number.
pub mod Entries
pub mod Placeholders
pub mod Restored
mod Tests
use Prim.Native.String.{◌++◌}
use briefed.Base.{ℕ, ◌+◌, String, List, [], ◌∷◌, map, length, str_eq, ◌==◌, if◌then◌else◌}
use briefed.Base.Dict.{Dict, insert, get_or}
use briefed.Redaction.{RedactionResult, Sanitizer, update}

-- The matches of a pattern from left to right, each with the text between it and the one before, and
-- the text after the last.
pub record Matches : Type 0 where
  pub found : List (String × String)
  pub tail : String

abbrev pub Pattern : Type 0
Pattern = String → Matches

-- The kinds of `_PATTERNS`
abbrev pub kinds : List String
kinds = "URL" ∷ "EMAIL" ∷ "IP_V6" ∷ "IP_V4" ∷ "SSN" ∷ "PHONE" ∷ "ZIP" ∷ []

abbrev pub unchanged : String → RedactionResult
unchanged text = record { text = text; reversal_map = []; counts_by_kind = [] }

module _ (int_text : ℕ → String) where
  unfoldable pub placeholder : String → ℕ → String
  placeholder kind counter = "<" ++ kind ++ "_" ++ int_text counter ++ ">"

  -- What the calls of `_swap` assign to `reversal_map`, from a counter on.
  unfoldable pub swapped : String → ℕ → List (String × String) → Dict String
  unfolding placeholder
  swapped kind counter [] = []
  swapped kind counter ((before, group) ∷ found) =
      (placeholder kind counter, group) ∷ swapped kind (counter + 1) found

  -- The text that `pattern.subn(_swap, text)` returns.
  unfoldable pub subn : String → ℕ → List (String × String) → String → String
  unfolding placeholder
  subn kind counter [] tail = tail
  subn kind counter ((before, group) ∷ found) tail =
      before ++ placeholder kind counter ++ subn kind (counter + 1) found tail

  -- The body of the loop over the patterns.
  unfoldable pub run_pattern : String → Pattern → RedactionResult → RedactionResult
  unfolding swapped subn update insert
  run_pattern kind pattern r =
      let matches = pattern r.text in
      let count = length matches.found in
      record {
        text = subn kind 0 matches.found matches.tail;
        reversal_map = update r.reversal_map (swapped kind 0 matches.found);
        counts_by_kind =
            if count == 0
            then r.counts_by_kind
            else insert kind (get_or kind 0 r.counts_by_kind + count) r.counts_by_kind;
      }

  unfoldable pub run_patterns : List (String × Pattern) → RedactionResult → RedactionResult
  unfolding run_pattern
  run_patterns [] r = r
  run_patterns ((kind, pattern) ∷ patterns) r = run_patterns patterns (run_pattern kind pattern r)

  -- `RegexSanitizer()`, for the pattern of each kind.
  unfoldable pub regex_sanitizer : (String → Pattern) → Sanitizer
  unfolding run_patterns
  regex_sanitizer re = record {
    sanitize = λ text.
        if str_eq text ""
        then unchanged text
        else run_patterns (map (λ (kind : String). (kind, re kind)) kinds) (unchanged text);
  }
