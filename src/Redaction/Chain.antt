-- ===== src/Redaction/Chain.antt =====
-- What a chain of sanitizers gives: texts threaded through the passes, counts added up.
use native.Mathlib.Nat.{zero-add}
use briefed.Base.{
  ℕ, ◌+◌, String, ◌≡◌, refl, ap, ◌∙◌, Option, List, [], ◌∷◌, none, some, arith, eq_iff, str_eq,
  if◌then◌else◌,
}
use briefed.Base.Dict.{Dict, lookup, insert, get_or, lookup-insert}
use briefed.Redaction.{RedactionResult, Sanitizer, add_counts, update, run_passes, chain}

-- The sum of a kind's entries.
abbrev pub total : String → Dict ℕ → ℕ
total kind [] = 0
total kind ((k, n) ∷ d) = (if str_eq k kind then n else 0) + total kind d

-- Adding a step's counts adds, for each kind, the step's entries to what was there.
get_or-add_counts :
    (kind : String) (step merged : Dict ℕ)
    → get_or kind 0 (add_counts merged step) ≡ get_or kind 0 merged + total kind step
unfolding add_counts
get_or-add_counts kind [] merged = omega arith
get_or-add_counts kind ((k, n) ∷ step) merged =
    let bumped = get_or k 0 merged + n in
    ground (
      arith,
      get_or-add_counts kind step (insert k bumped merged),
      lookup-insert k kind bumped merged,
      eq_iff k kind,
    )

-- The entry of a key that a dictionary's items leave: the last one, or else what was there.
abbrev pub latest : String → Dict String → Option String → Option String
latest key [] old = old
latest key ((k, v) ∷ d) old = latest key d (if str_eq k key then some v else old)

lookup-update :
    (key : String) (step merged : Dict String)
    → lookup key (update merged step) ≡ latest key step (lookup key merged)
unfolding update
lookup-update key [] merged = refl
lookup-update key ((k, v) ∷ step) merged =
    lookup-update key step (insert k v merged) ∙ ap (latest key step) (lookup-insert k key v merged)

-- What each pass returns when its input is the text that the pass before it returned.
abbrev pub passes : List Sanitizer → String → List RedactionResult
passes [] text = []
passes (z ∷ zs) text = z.sanitize text ∷ passes zs (z.sanitize text).text

abbrev pub last_text : String → List RedactionResult → String
last_text text [] = text
last_text text (r ∷ rs) = last_text r.text rs

abbrev pub total_all : String → List RedactionResult → ℕ
total_all kind [] = 0
total_all kind (r ∷ rs) = total kind r.counts_by_kind + total_all kind rs

abbrev pub latest_all : String → List RedactionResult → Option String → Option String
latest_all key [] old = old
latest_all key (r ∷ rs) old = latest_all key rs (latest key r.reversal_map old)

record Merges (start : RedactionResult) (rs : List RedactionResult) (r : RedactionResult)
    : Type 0 where
  threaded : r.text ≡ last_text start.text rs
  summed :
      (kind : String)
      → get_or kind 0 r.counts_by_kind ≡ get_or kind 0 start.counts_by_kind + total_all kind rs
  later_wins :
      (key : String) → lookup key r.reversal_map ≡ latest_all key rs (lookup key start.reversal_map)

run_passes-Merges :
    (zs : List Sanitizer) (start : RedactionResult)
    → Merges start (passes zs start.text) (run_passes zs start)
unfolding run_passes
run_passes-Merges [] start = record {
  threaded = refl;
  summed = λ kind. omega arith;
  later_wins = λ key. refl;
}
run_passes-Merges (z ∷ zs) start =
    let step = z.sanitize start.text in
    let merged : RedactionResult = record {
      text = step.text;
      reversal_map = update start.reversal_map step.reversal_map;
      counts_by_kind = add_counts start.counts_by_kind step.counts_by_kind;
    } in
    let m = run_passes-Merges zs merged in
    record {
      threaded = m.threaded;
      summed = λ kind.
          omega
            (arith, m.summed kind, get_or-add_counts kind step.counts_by_kind start.counts_by_kind);
      later_wins = λ key.
          m.later_wins key
          ∙ ap (latest_all key (passes zs step.text))
              (lookup-update key step.reversal_map start.reversal_map);
    }

-- For every list of sanitizers and every text, the chain returns the text that the last pass
-- returns when each pass runs on the text of the one before; its count of a kind is the sum of the
-- passes' counts of it, and its entry for a placeholder is that of the last pass that has one.
pub chain-passes :
    (zs : List Sanitizer) (text kind key : String)
    → let r = (chain zs).sanitize text in
      let rs = passes zs text in
      (r.text ≡ last_text text rs)
      × (get_or kind 0 r.counts_by_kind ≡ total_all kind rs)
      × (lookup key r.reversal_map ≡ latest_all key rs none)
unfolding chain lookup
chain-passes zs text kind key =
    let m = run_passes-Merges zs (record { text = text; reversal_map = []; counts_by_kind = [] }) in
    (m.threaded, m.summed kind ∙ zero-add _, m.later_wins key)
