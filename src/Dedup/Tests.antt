-- ===== src/Dedup/Tests.antt =====
-- A batch with a known message, a changed one, a new one, and the new one twice more.
use briefed.Base.{◌≢◌, arith, subst, sym, ◌≡◌, refl, String, List, [], ◌∷◌, none, length, All}
use briefed.Base.Dict.{Dict, lookup, insert}
use briefed.Mail.{EmailMessage}
use briefed.Dedup.{classify_one, classify_all, classify_incoming}
use briefed.Dedup.Placed.{IsPlaced, total}
use briefed.Dedup.Replay.{classify_incoming-replay}
use briefed.Dedup.Split.{IsSplit, classify_incoming-IsSplit}

abbrev mail : String → String → EmailMessage
mail id hash = record {
  message_id = id;
  content_hash = hash;
  from_email = "ana@example.org";
  subject = "Minutes";
  snippet = "";
  labels = [];
  list_unsubscribe = none;
}

abbrev known : Dict String
known = ("m1", "h1") ∷ ("m2", "h2") ∷ []

abbrev batch : List EmailMessage
batch = mail "m1" "h1" ∷ mail "m2" "x" ∷ mail "m3" "h3" ∷ mail "m3" "h3" ∷ mail "m3" "y" ∷ []

split : classify_incoming known batch ≡ record {
  to_insert = mail "m3" "h3" ∷ [];
  duplicates = mail "m1" "h1" ∷ mail "m3" "h3" ∷ [];
  divergent = mail "m2" "x" ∷ mail "m3" "y" ∷ [];
}
unfolding classify_incoming classify_all classify_one lookup insert
split = refl

classify_incoming-IsSplit_example :
    IsSplit known (classify_incoming known batch)
    × All (IsPlaced (classify_incoming known batch)) batch
    × (total (classify_incoming known batch) ≡ length batch)
classify_incoming-IsSplit_example = classify_incoming-IsSplit known batch

-- The ledger once the batch is in it.
abbrev afterwards : Dict String
afterwards = ("m1", "h1") ∷ ("m2", "h2") ∷ ("m3", "h3") ∷ []

kept : (id : String) → lookup id afterwards ≡ none → lookup id known ≡ none
unfolding lookup
kept id unknown = ground arith

inserted_known :
    All (λ (m : EmailMessage). lookup m.message_id afterwards ≢ none) (mail "m3" "h3" ∷ [])
unfolding lookup
inserted_known = (λ e. ground arith, tt)

classify_incoming-replay_example : (classify_incoming afterwards batch).to_insert ≡ []
classify_incoming-replay_example = classify_incoming-replay known afterwards kept batch (
    subst (λ o. All (λ (m : EmailMessage). lookup m.message_id afterwards ≢ none) o.to_insert)
      (sym split) inserted_known)
