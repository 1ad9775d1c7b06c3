-- ===== src/Redaction.antt =====
-- backend/app/llm/redaction: the result type, the sanitizer protocol and `SanitizerChain`.
pub mod Chain
pub mod Regex
pub mod Identity
mod Tests
use briefed.Base.{ℕ, ◌+◌, String, List, [], ◌∷◌}
use briefed.Base.Dict.{Dict, insert, get_or}

pub record RedactionResult : Type 0 where
  pub text : String
  pub reversal_map : Dict String
  pub counts_by_kind : Dict ℕ

-- The protocol: a pure function of the text.
pub record Sanitizer : Type 0 where
  pub sanitize : String → RedactionResult

-- `merged_reversal.update(step.reversal_map)`
unfoldable pub update : Dict String → Dict String → Dict String
update merged [] = merged
update merged ((k, v) ∷ step) = update (insert k v merged) step

-- The loop over `step.counts_by_kind.items()`.
unfoldable pub add_counts : Dict ℕ → Dict ℕ → Dict ℕ
add_counts merged [] = merged
add_counts merged ((kind, count) ∷ step) =
    add_counts (insert kind (get_or kind 0 merged + count) merged) step

-- The loop of `SanitizerChain.sanitize`.
unfoldable pub run_passes : List Sanitizer → RedactionResult → RedactionResult
unfolding update add_counts
run_passes [] merged = merged
run_passes (z ∷ zs) merged =
    let step = z.sanitize merged.text in
    run_passes zs (record {
      text = step.text;
      reversal_map = update merged.reversal_map step.reversal_map;
      counts_by_kind = add_counts merged.counts_by_kind step.counts_by_kind;
    })

-- `SanitizerChain(sanitizers)`
unfoldable pub chain : List Sanitizer → Sanitizer
unfolding run_passes
chain zs = record {
  sanitize = λ text. run_passes zs (record { text = text; reversal_map = []; counts_by_kind = [] });
}
