-- ===== src/Redaction/Regex/Placeholders.antt =====
-- The placeholders that a pass of backend/app/llm/redaction/regex_sanitizer.py writes.
use mathlib.Core.List.{◌++◌ as append}
use Prim.Native.Char.{code}
use Prim.Native.String.{◌++◌}
use text.Mathlib.TextLemmas.{
  append_cancel_left, append_cancel_right, cons-append, head-eq_of_cons-eq, tail-eq_of_cons-eq,
}
use briefed.Base.{
  ℕ, ◌+◌, ◌<◌, ◌≡◌, ◌≢◌, String, refl, ap, sym, ◌∙◌, List, [], ◌∷◌, Bool, true, false, arith,
  eq_iff, ◌==◌, if◌then◌else◌,
}
use briefed.Base.Dict.{Dict}
use briefed.Schedule.Slot.{codes}
use briefed.Redaction.Regex.{Pattern, placeholder, swapped, subn}
use briefed.Redaction.Regex.Entries.{names, has_key, distinct, written}

-- Two texts differ at a position that both have.
abbrev pub diverge : List ℕ → List ℕ → Bool
diverge [] ds = false
diverge (c ∷ cs) [] = false
diverge (c ∷ cs) (d ∷ ds) = if c == d then diverge cs ds else true

abbrev all_diverge : String → List String → Bool
all_diverge kind [] = true
all_diverge kind (k ∷ ks) = if diverge (codes kind) (codes k) then all_diverge kind ks else false

abbrev pub apart : List String → Bool
apart [] = true
apart (k ∷ ks) = if all_diverge k ks then apart ks else false

diverge-append : (a b x y : String) → diverge (codes a) (codes b) ≡ true → a ++ x ≢ b ++ y
diverge-append String.[] b x y h e = absurd (ground arith)
diverge-append (String.◌∷◌ c a) String.[] x y h e = absurd (ground arith)
diverge-append (String.◌∷◌ c a) (String.◌∷◌ d b) x y h e =
    let conses = sym (cons-append c a x) ∙ e ∙ cons-append d b y in
    let same : code c ≡ code d = ap code (head-eq_of_cons-eq conses) in
    diverge-append a b x y (ground arith) (tail-eq_of_cons-eq conses)

has_key-append :
    (key : String) (a b : Dict String)
    → has_key key (append a b) ≡ (if has_key key a then true else has_key key b)
has_key-append key [] b = refl
has_key-append key ((k, v) ∷ a) b = ground (arith, has_key-append key a b)

module _ (int_text : ℕ → String) (inj : (m n : ℕ) → int_text m ≡ int_text n → m ≡ n) where
  placeholder-counter :
      (kind : String) (m n : ℕ) → placeholder int_text kind m ≡ placeholder int_text kind n → m ≡ n
  unfolding placeholder
  placeholder-counter kind m n e = inj m n (
      append_cancel_right (int_text m) (int_text n) ">" (
        append_cancel_left "_" (int_text m ++ ">") (int_text n ++ ">") (
          append_cancel_left kind ("_" ++ int_text m ++ ">") ("_" ++ int_text n ++ ">") (
            append_cancel_left "<" (kind ++ "_" ++ int_text m ++ ">")
              (kind ++ "_" ++ int_text n ++ ">") e))))

  placeholder-kind :
      (k j : String) (m n : ℕ)
      → diverge (codes k) (codes j) ≡ true
      → placeholder int_text k m ≢ placeholder int_text j n
  unfolding placeholder
  placeholder-kind k j m n h e =
      diverge-append k j ("_" ++ int_text m ++ ">") ("_" ++ int_text n ++ ">") h
        (append_cancel_left "<" (k ++ "_" ++ int_text m ++ ">") (j ++ "_" ++ int_text n ++ ">") e)

  has_key-swapped_same :
      (kind : String) (m n : ℕ) (found : List (String × String))
      → m < n
      → has_key (placeholder int_text kind m) (swapped int_text kind n found) ≡ false
  unfolding swapped
  has_key-swapped_same kind m n [] less = refl
  has_key-swapped_same kind m n ((before, group) ∷ found) less = ground (
    arith,
    has_key-swapped_same kind m (n + 1) found,
    eq_iff (placeholder int_text kind n) (placeholder int_text kind m),
    placeholder-counter kind n m,
  )

  has_key-swapped_other :
      (k j : String) (m n : ℕ) (found : List (String × String))
      → diverge (codes k) (codes j) ≡ true
      → has_key (placeholder int_text k m) (swapped int_text j n found) ≡ false
  unfolding swapped
  has_key-swapped_other k j m n [] h = refl
  has_key-swapped_other k j m n ((before, group) ∷ found) h = ground (
    arith,
    has_key-swapped_other k j m (n + 1) found,
    eq_iff (placeholder int_text j n) (placeholder int_text k m),
    placeholder-kind k j m n h,
  )

  has_key-written :
      (kind : String) (m : ℕ) (patterns : Dict Pattern) (text : String)
      → all_diverge kind (names patterns) ≡ true
      → has_key (placeholder int_text kind m) (written int_text patterns text) ≡ false
  has_key-written kind m [] text h = refl
  has_key-written kind m ((k, pattern) ∷ patterns) text h =
      let matches = pattern text in
      let rest = written int_text patterns (subn int_text k 0 matches.found matches.tail) in
      ground (
        arith,
        has_key-append (placeholder int_text kind m) (swapped int_text k 0 matches.found) rest,
        has_key-swapped_other kind k m 0 matches.found,
        has_key-written kind m patterns (subn int_text k 0 matches.found matches.tail),
      )

  distinct-append :
      (kind : String) (n : ℕ) (found : List (String × String)) (rest : Dict String)
      → ((m : ℕ) → has_key (placeholder int_text kind m) rest ≡ false)
      → distinct rest ≡ true
      → distinct (append (swapped int_text kind n found) rest) ≡ true
  unfolding swapped
  distinct-append kind n [] rest new h = h
  distinct-append kind n ((before, group) ∷ found) rest new h = ground (
    arith,
    has_key-append (placeholder int_text kind n) (swapped int_text kind (n + 1) found) rest,
    has_key-swapped_same kind n (n + 1) found,
    new n,
    distinct-append kind (n + 1) found rest new h,
  )

  -- With numbers written apart and kinds that differ at a position, no placeholder is written twice.
  pub distinct-written :
      (patterns : Dict Pattern) (text : String)
      → apart (names patterns) ≡ true
      → distinct (written int_text patterns text) ≡ true
  distinct-written [] text h = refl
  distinct-written ((kind, pattern) ∷ patterns) text h =
      let matches = pattern text in
      let after = subn int_text kind 0 matches.found matches.tail in
      distinct-append kind 0 matches.found (written int_text patterns after)
        (λ m. has_key-written kind m patterns after (ground arith))
        (distinct-written patterns after (ground arith))
