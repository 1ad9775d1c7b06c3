-- ===== src/Dedup/Placed.antt =====
-- Every message of a batch is in one of the three lists.
use mathlib.Core.List.{Memᴰ}
use mathlib.Core.List.Memᴰ
use mathlib.Core.List.Memᴰ.{head}
use briefed.Base.{
  if-elim, length, length-append, ◌+◌, ℕ, ◌≡◌, ◌⊎◌, inl, inr, refl, String, List, [], ◌∷◌, ◌++◌,
  ◌||◌, ◌&&◌, Option, All, arith,
}
use briefed.Base.Dict.{Dict, lookup}
use briefed.Mail.{EmailMessage}
use briefed.Dedup.{DedupOutcome, is_hash, is_absent, classify_one, classify_all}

-- The three lists have every message of the batch, and no more.
abbrev pub total : DedupOutcome → ℕ
total o = length o.to_insert + length o.duplicates + length o.divergent

abbrev pub IsPlaced : DedupOutcome → EmailMessage → Type 0
IsPlaced o m = Memᴰ m o.to_insert ⊎ (Memᴰ m o.duplicates ⊎ Memᴰ m o.divergent)

module _ (known : Dict String) (msg : EmailMessage) (o : DedupOutcome) (seen : Dict String) where
  -- The step puts the message at the end of one list.
  classify_one-cases :
      (P : DedupOutcome → Type 0)
      → P (record o { to_insert = o.to_insert ++ msg ∷ [] })
      → P (record o { duplicates = o.duplicates ++ msg ∷ [] })
      → P (record o { divergent = o.divergent ++ msg ∷ [] })
      → P (classify_one known msg (o, seen)).0
  unfolding classify_one
  classify_one-cases P new same changed =
      let Q = λ (r : DedupOutcome × Dict String). P r.0 in
      let existing : Option String = lookup msg.message_id known in
      let batch : Option String = lookup msg.message_id seen in
      if-elim Q (is_absent existing && is_absent batch) (λ _. new)
        (λ _.
          if-elim Q (is_hash existing msg.content_hash || is_hash batch msg.content_hash)
            (λ _. same) (λ _. changed))

  classify_one-total : total (classify_one known msg (o, seen)).0 ≡ total o + 1
  classify_one-total =
      classify_one-cases (λ o'. total o' ≡ total o + 1)
        (omega (arith, length-append o.to_insert (msg ∷ [])))
        (omega (arith, length-append o.duplicates (msg ∷ [])))
        (omega (arith, length-append o.divergent (msg ∷ [])))

  classify_one-IsPlaced : IsPlaced (classify_one known msg (o, seen)).0 msg
  classify_one-IsPlaced =
      classify_one-cases (λ o'. IsPlaced o' msg) (inl (Memᴰ.append_right o.to_insert (head refl)))
        (inr (inl (Memᴰ.append_right o.duplicates (head refl))))
        (inr (inr (Memᴰ.append_right o.divergent (head refl))))

  classify_one-keeps :
      (m : EmailMessage) → IsPlaced o m → IsPlaced (classify_one known msg (o, seen)).0 m
  classify_one-keeps m (inl h) =
      classify_one-cases (λ o'. IsPlaced o' m) (inl (Memᴰ.append_left (msg ∷ []) h)) (inl h) (inl h)
  classify_one-keeps m (inr (inl h)) =
      classify_one-cases (λ o'. IsPlaced o' m) (inr (inl h))
        (inr (inl (Memᴰ.append_left (msg ∷ []) h))) (inr (inl h))
  classify_one-keeps m (inr (inr h)) =
      classify_one-cases (λ o'. IsPlaced o' m) (inr (inr h)) (inr (inr h))
        (inr (inr (Memᴰ.append_left (msg ∷ []) h)))

module _ (known : Dict String) where
  classify_all-keeps :
      (messages : List EmailMessage) (o : DedupOutcome) (seen : Dict String) (m : EmailMessage)
      → IsPlaced o m
      → IsPlaced (classify_all known messages (o, seen)).0 m
  unfolding classify_all
  classify_all-keeps [] o seen m h = h
  classify_all-keeps (msg ∷ messages) o seen m h =
      classify_all-keeps messages (classify_one known msg (o, seen)).0
        (classify_one known msg (o, seen)).1 m (classify_one-keeps known msg o seen m h)

  pub classify_all-IsPlaced :
      (messages : List EmailMessage) (o : DedupOutcome) (seen : Dict String)
      → All (IsPlaced (classify_all known messages (o, seen)).0) messages
  unfolding classify_all
  classify_all-IsPlaced [] o seen = tt
  classify_all-IsPlaced (msg ∷ messages) o seen =
      let o' : DedupOutcome = (classify_one known msg (o, seen)).0 in
      let seen' : Dict String = (classify_one known msg (o, seen)).1 in
      (
        classify_all-keeps messages o' seen' msg (classify_one-IsPlaced known msg o seen),
        classify_all-IsPlaced messages o' seen',
      )

  pub classify_all-total :
      (messages : List EmailMessage) (o : DedupOutcome) (seen : Dict String)
      → total (classify_all known messages (o, seen)).0 ≡ total o + length messages
  unfolding classify_all
  classify_all-total [] o seen = omega arith
  classify_all-total (msg ∷ messages) o seen = omega (
    arith,
    classify_all-total messages (classify_one known msg (o, seen)).0
        (classify_one known msg (o, seen)).1,
    classify_one-total known msg o seen,
  )
