-- ===== src/Dedup/Replay.antt =====
-- A batch that comes a second time.

use briefed.Base.{
  ◌≡◌, ◌≢◌, inl, inr, refl, sym, subst, ◌∙◌, String, List, [], ◌∷◌, none, All, All-map, All-mem,
  arith, Option-cases,
}
use briefed.Base.Dict.{Dict, lookup}
use briefed.Mail.{EmailMessage}
use briefed.Dedup.{DedupOutcome, classify_one, classify_all, classify_incoming}
use briefed.Dedup.Placed.{IsPlaced}
use briefed.Dedup.Split.{IsSplit, HasHash, by_known, by_batch, classify_incoming-IsSplit}

module _ (known : Dict String) where
  abbrev pub IsKnown : EmailMessage → Type 0
  IsKnown m = lookup m.message_id known ≢ none

  to_insert-classify_one :
      (msg : EmailMessage) (o : DedupOutcome) (seen : Dict String)
      → IsKnown msg
      → (classify_one known msg (o, seen)).0.to_insert ≡ o.to_insert
  unfolding classify_one
  to_insert-classify_one msg o seen h = elim (Option-cases (lookup msg.message_id known)) [
    | inl unknown ↦ absurd (h unknown)
    | inr (hash, e) ↦ ground arith
  ]

  to_insert-classify_all :
      (messages : List EmailMessage) (o : DedupOutcome) (seen : Dict String)
      → All IsKnown messages
      → (classify_all known messages (o, seen)).0.to_insert ≡ o.to_insert
  unfolding classify_all
  to_insert-classify_all [] o seen h = refl
  to_insert-classify_all (msg ∷ messages) o seen h =
      to_insert-classify_all messages (classify_one known msg (o, seen)).0
        (classify_one known msg (o, seen)).1 h.1
      ∙ to_insert-classify_one msg o seen h.0

module _ (known known' : Dict String)
    (kept : (id : String) → lookup id known' ≡ none → lookup id known ≡ none) where
  HasHash-known :
      (inserted : List EmailMessage) (id hash : String)
      → All (IsKnown known') inserted
      → HasHash known inserted id hash
      → lookup id known' ≢ none
  HasHash-known inserted id hash h (by_known e) unknown = absurd (ground (arith, kept id unknown))
  HasHash-known inserted id hash h (by_batch m n i e _) unknown =
      All-mem (IsKnown known') inserted m h i (subst (λ j. lookup j known' ≡ none) (sym e) unknown)

  placed-known :
      (o : DedupOutcome) (m : EmailMessage)
      → IsSplit known o
      → All (IsKnown known') o.to_insert
      → IsPlaced o m
      → IsKnown known' m
  placed-known o m s h (inl new) = All-mem (IsKnown known') o.to_insert m h new
  placed-known o m s h (inr (inl same)) = HasHash-known o.to_insert m.message_id m.content_hash h (
      All-mem (λ k. HasHash known o.to_insert k.message_id k.content_hash) o.duplicates m s.same
        same)
  placed-known o m s h (inr (inr changed)) =
      let (hash, is, differs) =
        All-mem
          (λ k.
            (hash : String) × HasHash known o.to_insert k.message_id hash × (hash ≢ k.content_hash))
          o.divergent m s.changed changed in
      HasHash-known o.to_insert m.message_id hash h is

  -- A batch that comes again, when the ledger has what it had and what the batch inserted, inserts
  -- nothing.
  pub classify_incoming-replay :
      (messages : List EmailMessage)
      → All (IsKnown known') (classify_incoming known messages).to_insert
      → (classify_incoming known' messages).to_insert ≡ []
  unfolding classify_incoming
  classify_incoming-replay messages h =
      let (split, placed, _) = classify_incoming-IsSplit known messages in
      to_insert-classify_all known' messages
        (record { to_insert = []; duplicates = []; divergent = [] }) []
        (All-map (λ m p. placed-known (classify_incoming known messages) m split h p) messages
          placed)
