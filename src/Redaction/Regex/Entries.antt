-- ===== src/Redaction/Regex/Entries.antt =====
-- The reversal map that the passes of backend/app/llm/redaction/regex_sanitizer.py leave.
use briefed.Base.{
  ℕ, String, ◌≡◌, refl, sym, ◌∙◌, List, [], ◌∷◌, ◌++◌, Bool, true, false, some, arith, eq_iff,
  str_eq, All, if◌then◌else◌,
}
use briefed.Base.Dict.{Dict, lookup, insert, lookup-insert}
use briefed.Redaction.{RedactionResult, update}
use briefed.Redaction.Regex.{Pattern, swapped, subn, run_pattern, run_patterns}

module _ {V : Type 0} where
  abbrev pub has_key : String → Dict V → Bool
  has_key key [] = false
  has_key key ((k, v) ∷ d) = if str_eq k key then true else has_key key d

  abbrev pub distinct : Dict V → Bool
  distinct [] = true
  distinct ((k, v) ∷ d) = if has_key k d then false else distinct d

lookup-update_other :
    (key : String) (step merged : Dict String)
    → has_key key step ≡ false
    → lookup key (update merged step) ≡ lookup key merged
unfolding update
lookup-update_other key [] merged h = refl
lookup-update_other key ((k, v) ∷ step) merged h = ground (
  arith,
  lookup-update_other key step (insert k v merged),
  lookup-insert k key v merged,
  eq_iff k key,
)

pub lookup-update_entries :
    (step merged : Dict String)
    → distinct step ≡ true
    → All (λ (e : String × String). lookup e.0 (update merged step) ≡ some e.1) step
unfolding update
lookup-update_entries [] merged h = tt
lookup-update_entries ((k, v) ∷ step) merged h = (
  ground (
    arith,
    lookup-update_other k step (insert k v merged),
    lookup-insert k k v merged,
    eq_iff k k,
  ),
  lookup-update_entries step (insert k v merged) (ground arith),
)

pub update-append : (a b merged : Dict String) → update merged (a ++ b) ≡ update (update merged a) b
unfolding update
update-append [] b merged = refl
update-append ((k, v) ∷ a) b merged = update-append a b (insert k v merged)

abbrev pub names : Dict Pattern → List String
names [] = []
names ((kind, pattern) ∷ patterns) = kind ∷ names patterns

module _ (int_text : ℕ → String) where
  -- Every entry that the passes write.
  abbrev pub written : Dict Pattern → String → Dict String
  written [] text = []
  written ((kind, pattern) ∷ patterns) text =
      let matches = pattern text in
      swapped int_text kind 0 matches.found
      ++ written patterns (subn int_text kind 0 matches.found matches.tail)

  pub reversal_map-run_patterns :
      (patterns : Dict Pattern) (r : RedactionResult)
      → (run_patterns int_text patterns r).reversal_map
        ≡ update r.reversal_map (written patterns r.text)
  unfolding run_patterns update
  reversal_map-run_patterns [] r = refl
  reversal_map-run_patterns ((kind, pattern) ∷ patterns) r =
      reversal_map-run_patterns patterns (run_pattern int_text kind pattern r)
      ∙ sym (
          update-append (swapped int_text kind 0 (pattern r.text).found)
            (written patterns (run_pattern int_text kind pattern r).text) r.reversal_map)

pub All-split {ℓ} :
    {A : Type 0} (P : A → Type ℓ) (xs ys : List A) → All P (xs ++ ys) → All P xs × All P ys
All-split P [] ys h = (tt, h)
All-split P (x ∷ xs) ys h = let (hx, hy) = All-split P xs ys h.1 in ((h.0, hx), hy)
