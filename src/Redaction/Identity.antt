-- ===== src/Redaction/Identity.antt =====
-- backend/app/llm/redaction/identity.py and build_default_chain of its package. What a regular
-- expression of a list of candidates finds in a text is Python's `re`, a parameter; spaces are ASCII.
pub mod Built
mod Tests
use briefed.Base.{
  ℕ, String, List, [], ◌∷◌, ◌++◌, Bool, true, false, not, ◌||◌, Option, none, some, length, ltb,
  any, filter, str_eq, if◌then◌else◌,
}
use briefed.Base.Dict.{Dict}
use briefed.Base.Result.{Result, ok, err}
use briefed.Schedule.Slot.{codes, strip}
use briefed.Rubric.Texts.{is_empty}
use briefed.Redaction.{Sanitizer, chain}
use briefed.Redaction.Regex.{Pattern, unchanged, run_patterns, regex_sanitizer}

-- `not candidate or not candidate.strip()`
unfoldable pub is_blank : String → Bool
unfolding strip
is_blank candidate = str_eq candidate "" || is_empty (strip (codes candidate))

unfoldable pub insert_longest : String → List String → List String
insert_longest c [] = c ∷ []
insert_longest c (d ∷ ds) =
    let rest = insert_longest c ds in
    if ltb (length (codes c)) (length (codes d)) then d ∷ rest else c ∷ d ∷ ds

-- `sorted(candidates, key=len, reverse=True)`, which keeps the order of equally long ones.
unfoldable pub longest_first : List String → List String
unfolding insert_longest
longest_first [] = []
longest_first (c ∷ cs) = insert_longest c (longest_first cs)

-- `[c for c in texts if c]`
unfoldable pub given : List String → List String
given texts = filter (λ c. not (str_eq c "")) texts

abbrev pub optional : Option String → List String
optional none = []
optional (some c) = c ∷ []

-- The keyword arguments of `build_default_chain`.
pub record ChainOptions : Type 0 where
  pub user_email : Option String
  pub user_name : Option String
  pub user_id : Option String
  pub aliases : List String
  pub email_aliases : List String
  pub presidio_enabled : Bool

-- An entry of `identities`, where there are candidates.
unfoldable pub add_identity : String → List String → Dict (List String) → Dict (List String)
add_identity kind candidates identities =
    if is_empty candidates then identities else (kind, candidates) ∷ identities

unfoldable pub identities_of : ChainOptions → Dict (List String)
unfolding given add_identity
identities_of options =
    add_identity "USER_EMAIL" (given (optional options.user_email ++ options.email_aliases)) (
      add_identity "USER_NAME" (given (optional options.user_name ++ options.aliases))
        (add_identity "USER_ID" (given (optional options.user_id)) []))

-- `ValueError` and `RuntimeError`
pub data BuildError : Type 0 where
  empty_candidate : String → BuildError
  presidio_removed : BuildError

module _ (compile : List String → Pattern) where
  -- `IdentityScrubber.__init__`. A placeholder is its kind, without the `<` and `>` that the source
  -- strips where it is used.
  unfoldable pub compile_all : Dict (List String) → Result BuildError (Dict Pattern)
  unfolding is_blank longest_first
  compile_all [] = ok []
  compile_all ((kind, candidates) ∷ identities) =
      let rest = compile_all identities in
      if any is_blank candidates then err (empty_candidate kind) else elim rest [
        | err e ↦ err e
        | ok compiled ↦ ok ((kind, compile (longest_first candidates)) ∷ compiled)
      ]

  module _ (int_text : ℕ → String) where
    -- `IdentityScrubber.sanitize`
    unfoldable pub identity_sanitizer : Dict Pattern → Sanitizer
    unfolding run_patterns
    identity_sanitizer compiled = record {
      sanitize = λ text.
          if str_eq text "" || is_empty compiled
          then unchanged text
          else run_patterns int_text compiled (unchanged text);
    }

    -- The passes of the chain.
    unfoldable pub sanitizers_of : (String → Pattern) → Dict Pattern → List Sanitizer
    unfolding identity_sanitizer regex_sanitizer
    sanitizers_of re [] = regex_sanitizer int_text re ∷ []
    sanitizers_of re (entry ∷ compiled) =
        identity_sanitizer (entry ∷ compiled) ∷ regex_sanitizer int_text re ∷ []

    -- `build_default_chain`, with the flag of the app's configuration.
    unfoldable pub build_default_chain :
        (String → Pattern) → Bool → ChainOptions → Result BuildError Sanitizer
    unfolding identities_of compile_all sanitizers_of chain
    build_default_chain re features_presidio options =
        if options.presidio_enabled || features_presidio
        then err presidio_removed
        else elim (compile_all (identities_of options)) [
          | err e ↦ err e
          | ok compiled ↦ ok (chain (sanitizers_of re compiled))
        ]
