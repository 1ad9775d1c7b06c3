-- ===== src/Redaction/Regex/Restored.antt =====
-- What a pass of backend/app/llm/redaction/regex_sanitizer.py takes out of a text is in its reversal
-- map.
use Prim.Native.String.{◌++◌}
use briefed.Base.{
  ◌⊎◌, ◌≢◌, ℕ, ◌+◌, String, ◌≡◌, refl, ap, sym, inl, inr, ◌∙◌, subst, List, [], ◌∷◌, true, false,
  some, map, length, arith, eq_iff, str_eq, All, if◌then◌else◌, Bool-cases,
}
use briefed.Base.Dict.{Dict, lookup, get_or, get_or-insert}
use briefed.Redaction.{RedactionResult}
use briefed.Redaction.Regex.{
  Pattern, kinds, unchanged, placeholder, swapped, subn, run_pattern, run_patterns, regex_sanitizer,
}
use briefed.Redaction.Regex.Placeholders.{distinct-written}
use briefed.Redaction.Regex.Entries.{
  has_key, distinct, written, All-split, lookup-update_entries, reversal_map-run_patterns,
}

-- The text of matches with what lies between and after them.
abbrev pub whole : List (String × String) → String → String
whole [] tail = tail
whole ((before, group) ∷ found) tail = before ++ group ++ whole found tail

-- A stretch between matches, a placeholder, and a text that it stands for.
pub record Part : Type 0 where
  pub before : String
  pub token : String
  pub group : String

abbrev pub masked_text : List Part → String → String
masked_text [] tail = tail
masked_text (part ∷ parts) tail = part.before ++ part.token ++ masked_text parts tail

abbrev pub original_text : List Part → String → String
original_text [] tail = tail
original_text (part ∷ parts) tail = part.before ++ part.group ++ original_text parts tail

-- The match that a part takes out, with the text before it.
abbrev pub match_of : Part → String × String
match_of part = (part.before, part.group)

-- The placeholders of the parts have the numbers from `n` on.
abbrev pub IsNumbered : (ℕ → String) → String → ℕ → List Part → Type 0
IsNumbered int_text kind n [] = Unit
IsNumbered int_text kind n (part ∷ parts) =
    (part.token ≡ placeholder int_text kind n) × IsNumbered int_text kind (n + 1) parts

-- `original` becomes `masked`, for one pattern after the other, by putting a numbered placeholder for
-- each of its matches, and for nothing else: as many as the kind's count, each with the match as its
-- entry in the map.
abbrev pub Restores : (ℕ → String) → Dict String → Dict ℕ → Dict Pattern → String → String → Type 0
Restores int_text reversal counts [] masked original = masked ≡ original
Restores int_text reversal counts ((kind, pattern) ∷ rest) masked original =
    (parts : List Part) × ((tail : String) × (map match_of parts ≡ (pattern original).found)
      × IsNumbered int_text kind 0 parts
      × (original_text parts tail ≡ original)
      × All (λ (part : Part). lookup part.token reversal ≡ some part.group) parts
      × (length parts ≡ get_or kind 0 counts)
      × Restores int_text reversal counts rest masked (masked_text parts tail))

-- What Python promises of the matches in a text: with what lies between them they make it up.
abbrev pub Splits : Pattern → Type 0
Splits pattern = (text : String) → whole (pattern text).found (pattern text).tail ≡ text

module _ (int_text : ℕ → String) where
  abbrev parts_of : String → ℕ → List (String × String) → List Part
  parts_of kind n [] = []
  parts_of kind n ((before, group) ∷ found) =
      record { before = before; token = placeholder int_text kind n; group = group }
      ∷ parts_of kind (n + 1) found

  IsNumbered-parts_of :
      (kind : String) (n : ℕ) (found : List (String × String))
      → IsNumbered int_text kind n (parts_of kind n found)
  IsNumbered-parts_of kind n [] = tt
  IsNumbered-parts_of kind n ((before, group) ∷ found) =
      (refl, IsNumbered-parts_of kind (n + 1) found)

  map-parts_of :
      (kind : String) (n : ℕ) (found : List (String × String))
      → map match_of (parts_of kind n found) ≡ found
  map-parts_of kind n [] = refl
  map-parts_of kind n ((before, group) ∷ found) =
      ap (λ fs. (before, group) ∷ fs) (map-parts_of kind (n + 1) found)

  masked_text-parts_of :
      (kind : String) (n : ℕ) (found : List (String × String)) (tail : String)
      → masked_text (parts_of kind n found) tail ≡ subn int_text kind n found tail
  unfolding subn
  masked_text-parts_of kind n [] tail = refl
  masked_text-parts_of kind n ((before, group) ∷ found) tail =
      ap (λ s. before ++ placeholder int_text kind n ++ s)
        (masked_text-parts_of kind (n + 1) found tail)

  original_text-parts_of :
      (kind : String) (n : ℕ) (found : List (String × String)) (tail : String)
      → original_text (parts_of kind n found) tail ≡ whole found tail
  original_text-parts_of kind n [] tail = refl
  original_text-parts_of kind n ((before, group) ∷ found) tail =
      ap (λ s. before ++ group ++ s) (original_text-parts_of kind (n + 1) found tail)

  length-parts_of :
      (kind : String) (n : ℕ) (found : List (String × String))
      → length (parts_of kind n found) ≡ length found
  length-parts_of kind n [] = refl
  length-parts_of kind n ((before, group) ∷ found) =
      omega (arith, length-parts_of kind (n + 1) found)

  parts_of-entries :
      (reversal : Dict String) (kind : String) (n : ℕ) (found : List (String × String))
      → All
          (λ (e : String × String). lookup e.0 reversal ≡ some e.1)
          (swapped int_text kind n found)
      → All (λ (part : Part). lookup part.token reversal ≡ some part.group) (parts_of kind n found)
  unfolding swapped
  parts_of-entries reversal kind n [] h = tt
  parts_of-entries reversal kind n ((before, group) ∷ found) h =
      (h.0, parts_of-entries reversal kind (n + 1) found h.1)

  abbrev count_of : String → RedactionResult → ℕ
  count_of kind r = get_or kind 0 r.counts_by_kind

  count_of-run_pattern :
      (kind key : String) (pattern : Pattern) (r : RedactionResult)
      → count_of key (run_pattern int_text kind pattern r)
        ≡ count_of key r + (if str_eq kind key then length (pattern r.text).found else 0)
  unfolding run_pattern
  count_of-run_pattern kind key pattern r = ground (
    arith,
    get_or-insert kind key (count_of kind r + length (pattern r.text).found) 0 r.counts_by_kind,
    eq_iff kind key,
  )

  count_of-run_patterns :
      (key : String) (patterns : Dict Pattern) (r : RedactionResult)
      → has_key key patterns ≡ false
      → count_of key (run_patterns int_text patterns r) ≡ count_of key r
  unfolding run_patterns
  count_of-run_patterns key [] r h = refl
  count_of-run_patterns key ((kind, pattern) ∷ patterns) r h = ground (
    arith,
    count_of-run_patterns key patterns (run_pattern int_text kind pattern r),
    count_of-run_pattern kind key pattern r,
  )

  distinct-cons :
      (kind : String) (pattern : Pattern) (patterns : Dict Pattern)
      → distinct ((kind, pattern) ∷ patterns) ≡ true
      → (has_key kind patterns ≡ false) × (distinct patterns ≡ true)
  distinct-cons kind pattern patterns h = ground arith

  count_of-found :
      (kind : String) (pattern : Pattern) (patterns : Dict Pattern) (r : RedactionResult)
      → has_key kind patterns ≡ false
      → count_of kind r ≡ 0
      → count_of kind (run_patterns int_text patterns (run_pattern int_text kind pattern r))
        ≡ length (pattern r.text).found
  count_of-found kind pattern patterns r new zero = ground (
    arith,
    count_of-run_patterns kind patterns (run_pattern int_text kind pattern r) new,
    count_of-run_pattern kind kind pattern r,
    eq_iff kind kind,
  )

  count_of-later :
      (kind key : String) (pattern : Pattern) (patterns : Dict Pattern) (r : RedactionResult)
      → has_key kind patterns ≡ false
      → has_key key patterns ≡ true
      → count_of key r ≡ 0
      → count_of key (run_pattern int_text kind pattern r) ≡ 0
  count_of-later kind key pattern patterns r new known zero =
      ground (arith, count_of-run_pattern kind key pattern r, eq_iff kind key)

  run_patterns-Restores :
      (reversal : Dict String) (counts : Dict ℕ) (patterns : Dict Pattern) (r : RedactionResult)
      → All (λ (p : String × Pattern). Splits p.1) patterns
      → All
          (λ (e : String × String). lookup e.0 reversal ≡ some e.1)
          (written int_text patterns r.text)
      → distinct patterns ≡ true
      → ((key : String) → has_key key patterns ≡ true → count_of key r ≡ 0)
      → (run_patterns int_text patterns r).counts_by_kind ≡ counts
      → Restores int_text reversal counts patterns (run_patterns int_text patterns r).text r.text
  unfolding run_patterns run_pattern
  run_patterns-Restores reversal counts [] r splits entries differ zero same = refl
  run_patterns-Restores reversal counts ((kind, pattern) ∷ patterns) r splits entries differ zero
        same =
      let m = pattern r.text in
      let after = run_pattern int_text kind pattern r in
      let (new, differ') = distinct-cons kind pattern patterns differ in
      let (now, later) =
        All-split (λ (e : String × String). lookup e.0 reversal ≡ some e.1)
          (swapped int_text kind 0 m.found) (written int_text patterns after.text) entries in
      (
        parts_of kind 0 m.found,
        (
          m.tail,
          map-parts_of kind 0 m.found,
          IsNumbered-parts_of kind 0 m.found,
          original_text-parts_of kind 0 m.found m.tail ∙ splits.0 r.text,
          parts_of-entries reversal kind 0 m.found now,
          length-parts_of kind 0 m.found
              ∙ sym (
                  count_of-found kind pattern patterns r new
                    (zero kind (ground (arith, eq_iff kind kind))))
              ∙ ap (λ (c : Dict ℕ). get_or kind 0 c) same,
          subst
              (λ (s : String).
                Restores int_text reversal counts patterns
                  (run_patterns int_text patterns after).text s)
              (sym (masked_text-parts_of kind 0 m.found m.tail))
              (run_patterns-Restores reversal counts patterns after splits.1 later differ'
                (λ key known.
                  count_of-later kind key pattern patterns r new known (zero key (ground arith)))
                same),
        ),
      )

abbrev pub patterns_of : (String → Pattern) → Dict Pattern
patterns_of re = map (λ (kind : String). (kind, re kind)) kinds

Splits-map :
    (re : String → Pattern)
    → ((kind : String) → Splits (re kind))
    → (rest : List String)
    → All (λ (p : String × Pattern). Splits p.1) (map (λ (kind : String). (kind, re kind)) rest)
Splits-map re splits [] = tt
Splits-map re splits (kind ∷ rest) = (splits kind, Splits-map re splits rest)

-- The empty text stays; any other is restored from the result.
abbrev pub IsSanitized : (ℕ → String) → (String → Pattern) → String → RedactionResult → Type 0
IsSanitized int_text re text r =
    ((text ≡ "") × (r ≡ unchanged text))
    ⊎ ((text ≢ "") × Restores int_text r.reversal_map r.counts_by_kind (patterns_of re) r.text text)

-- An empty text stays as it is. Where Python's matches and what lies between them make up the text, and
-- different numbers have different texts, the sanitizer makes its text from any other input by taking
-- the kinds of the table in order and putting `<KIND_0>`, `<KIND_1>` and so on for all matches of the
-- kind's pattern in the text so far. Each such placeholder has its match as its entry in the final
-- reversal map, and the count of a kind is the number of its matches.
pub regex_sanitizer-Restores :
    (int_text : ℕ → String) (re : String → Pattern) (text : String)
    → ((kind : String) → Splits (re kind))
    → ((m n : ℕ) → int_text m ≡ int_text n → m ≡ n)
    → IsSanitized int_text re text ((regex_sanitizer int_text re).sanitize text)
unfolding regex_sanitizer lookup
regex_sanitizer-Restores int_text re text splits inj = elim (Bool-cases (str_eq text "")) [
  | inl empty ↦ rw (empty, regex_sanitizer) (inl ((eq_iff text "").0 (ground arith), refl))
  | inr filled ↦
      rw (filled, regex_sanitizer)
        (inr (
          (λ e. ground (arith, eq_iff text "")),
          run_patterns-Restores int_text
              (run_patterns int_text (patterns_of re) (unchanged text)).reversal_map
              (run_patterns int_text (patterns_of re) (unchanged text)).counts_by_kind
              (patterns_of re) (unchanged text) (Splits-map re splits kinds)
              (subst
                (λ (d : Dict String).
                  All (λ (e : String × String). lookup e.0 d ≡ some e.1)
                    (written int_text (patterns_of re) text))
                (sym (reversal_map-run_patterns int_text (patterns_of re) (unchanged text)))
                (lookup-update_entries (written int_text (patterns_of re) text) []
                  (distinct-written int_text inj (patterns_of re) text refl)))
              refl (λ key known. refl) refl,
        ))
]
