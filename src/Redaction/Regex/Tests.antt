-- ===== src/Redaction/Regex/Tests.antt =====
-- The sanitizer on a text with an address in it.
use text.Mathlib.TextLemmas.{tail-eq_of_cons-eq, cons≢nil, nil≢cons}
use briefed.Base.{
  ℕ, zero, suc, ◌≡◌, refl, ap, sym, String, [], ◌∷◌, Bool, true, false, ◌&&◌, arith, eq_iff, str_eq,
}
use briefed.Redaction.Regex.{Matches, Pattern, regex_sanitizer}
use briefed.Redaction.Regex.Restored.{whole, Splits, IsSanitized, regex_sanitizer-Restores}

abbrev tally : ℕ → String
tally zero = ""
tally (suc n) = String.◌∷◌ "|" (tally n)

tally-inj : (m n : ℕ) → tally m ≡ tally n → m ≡ n
tally-inj zero zero e = refl
tally-inj zero (suc n) e = absurd (nil≢cons e)
tally-inj (suc m) zero e = absurd (cons≢nil e)
tally-inj (suc m) (suc n) e = ap suc (tally-inj m n (tail-eq_of_cons-eq e))

abbrev addresses : String → Bool → Matches
addresses text true = record { found = ("to ", "a@b.cd") ∷ []; tail = ", now" }
addresses text false = record { found = []; tail = text }

abbrev re : String → Pattern
re kind text = addresses text (str_eq kind "EMAIL" && str_eq text "to a@b.cd, now")

addresses-whole :
    (text : String) (b : Bool)
    → (b ≡ true → text ≡ "to a@b.cd, now")
    → whole (addresses text b).found (addresses text b).tail ≡ text
addresses-whole text true h = sym (h refl)
addresses-whole text false h = refl

re-Splits : (kind : String) → Splits (re kind)
re-Splits kind text =
    addresses-whole text (str_eq kind "EMAIL" && str_eq text "to a@b.cd, now")
      (λ h. ground (arith, eq_iff text "to a@b.cd, now"))

masked : ((regex_sanitizer tally re).sanitize "to a@b.cd, now").text ≡ "to <EMAIL_>, now"
unfolding regex_sanitizer
masked = refl

regex_sanitizer-Restores_example :
    IsSanitized tally re "to a@b.cd, now" ((regex_sanitizer tally re).sanitize "to a@b.cd, now")
regex_sanitizer-Restores_example =
    regex_sanitizer-Restores tally re "to a@b.cd, now" re-Splits tally-inj
