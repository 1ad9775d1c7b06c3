-- ===== src/Redaction/Identity/Tests.antt =====
-- A user whose display name is two spaces, and one with an address alone.
use briefed.Base.{
  ◌≡◌, ℕ, String, refl, List, [], ◌∷◌, not, ◌||◌, ◌&&◌, true, false, none, some, any,
}
use briefed.Redaction.Regex.{Pattern}
use briefed.Redaction.Identity.{ChainOptions, build_default_chain, longest_first}
use briefed.Redaction.Identity.Built.{is_ok, is_spaces, texts_of, is_ok-build_default_chain}

abbrev nothing_found : List String → Pattern
nothing_found candidates text = record { found = []; tail = text }

abbrev no_text : ℕ → String
no_text n = ""

abbrev unnamed : ChainOptions
unnamed = record {
  user_email = some "a@b.cd";
  user_name = some "  ";
  user_id = none;
  aliases = [];
  email_aliases = [];
  presidio_enabled = false;
}

longest : longest_first ("Kim" ∷ "Kim Lee" ∷ "Lee" ∷ []) ≡ "Kim Lee" ∷ "Kim" ∷ "Lee" ∷ []
unfolding longest_first
longest = refl

not_built :
    is_ok (build_default_chain nothing_found no_text (λ kind. nothing_found []) false unnamed)
    ≡ false
unfolding build_default_chain
not_built = refl

built :
    is_ok (
      build_default_chain nothing_found no_text
        (λ kind. nothing_found [])
        false
        (record unnamed { user_name = none }))
    ≡ true
unfolding build_default_chain
built = refl

is_ok-build_default_chain_example :
    is_ok (build_default_chain nothing_found no_text (λ kind. nothing_found []) false unnamed)
    ≡ (not (unnamed.presidio_enabled || false) && not (any is_spaces (texts_of unnamed)))
is_ok-build_default_chain_example =
    is_ok-build_default_chain nothing_found no_text (λ kind. nothing_found []) false unnamed
