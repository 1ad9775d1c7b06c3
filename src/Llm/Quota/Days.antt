-- ===== src/Llm/Quota/Days.antt =====
-- The cap over a sequence of days on which calls are tried.
use briefed.Base.{
  ℕ, ◌+◌, ◌≤◌, ◌≡◌, Bool, true, false, List, [], ◌∷◌, arith, min, ltb, ◌==◌, refl, ap, ◌∙◌, inl,
  inr, Bool-cases, if◌then◌else◌,
}
use briefed.Base.Result.{Result, ok, err}
use briefed.Llm.Quota.{RateCap, consume}

abbrev pub fresh : ℕ → ℕ → RateCap
fresh max_calls day = record { max_calls = max_calls; day = day; used = 0 }

-- The cap after calls were tried on `days`, newest first, from a cap made on day `start`.
abbrev pub replay : ℕ → ℕ → List ℕ → RateCap
replay max_calls start [] = fresh max_calls start
replay max_calls start (d ∷ days) = (consume (replay max_calls start days) d).1

abbrev pub is_ok : {E A : Type 0} → Result E A → Bool
is_ok (ok _) = true
is_ok (err _) = false

-- How many of the calls tried on `day` were let through.
abbrev pub admitted_on : ℕ → ℕ → ℕ → List ℕ → ℕ
admitted_on max_calls start day [] = 0
admitted_on max_calls start day (d ∷ days) =
    (if d == day then if is_ok (consume (replay max_calls start days) d).0 then 1 else 0 else 0)
    + admitted_on max_calls start day days

abbrev pub tried_on : ℕ → List ℕ → ℕ
tried_on day [] = 0
tried_on day (d ∷ days) = (if d == day then 1 else 0) + tried_on day days

-- The clock does not go back: each day is at least the next older one, and the oldest at least
-- `start`.
abbrev pub newest : ℕ → List ℕ → ℕ
newest start [] = start
newest start (d ∷ days) = d

abbrev pub IsChronological : ℕ → List ℕ → Type 0
IsChronological start [] = Unit
IsChronological start (d ∷ days) = (newest start days ≤ d) × IsChronological start days

record Tracks (max_calls start : ℕ) (days : List ℕ) (c : RateCap) : Type 0 where
  cap_kept : c.max_calls ≡ max_calls
  day_newest : c.day ≡ newest start days
  used_counted : c.used ≡ min max_calls (tried_on c.day days)

tried_on-later :
    (start day : ℕ) (days : List ℕ)
    → IsChronological start days
    → newest start days + 1 ≤ day
    → tried_on day days ≡ 0
tried_on-later start day [] h later = refl
tried_on-later start day (d ∷ []) h later = ground arith
tried_on-later start day (d ∷ e ∷ days) h later =
    ground (arith, tried_on-later start day (e ∷ days) h.1)

-- One call, on the day of the newest one or on a later one.
module _ (max_calls start d : ℕ) (days : List ℕ) (c : RateCap)
    (t : Tracks max_calls start days c) where
  consume-Tracks_same : d ≡ c.day → Tracks max_calls start (d ∷ days) (consume c d).1
  unfolding consume
  consume-Tracks_same e = ground (arith, t.cap_kept, t.day_newest, t.used_counted)

  consume-Tracks_later :
      c.day + 1 ≤ d → tried_on d days ≡ 0 → Tracks max_calls start (d ∷ days) (consume c d).1
  unfolding consume
  consume-Tracks_later later none_tried = ground (arith, t.cap_kept, none_tried)

  consume-Tracks :
      newest start days ≤ d
      → (newest start days + 1 ≤ d → tried_on d days ≡ 0)
      → Tracks max_calls start (d ∷ days) (consume c d).1
  consume-Tracks le none_tried = elim (Bool-cases (d == c.day)) [
    | inl same ↦ consume-Tracks_same (ground arith)
    | inr other ↦
        let later : c.day + 1 ≤ d = ground (arith, t.day_newest) in
        consume-Tracks_later later (none_tried (omega (arith, t.day_newest)))
  ]

  -- A call is let through where less than the cap was tried on its day.
  consume-is_ok :
      newest start days ≤ d
      → (newest start days + 1 ≤ d → tried_on d days ≡ 0)
      → is_ok (consume c d).0 ≡ ltb (tried_on d days) max_calls
  unfolding consume
  consume-is_ok le none_tried = elim (Bool-cases (d == c.day)) [
    | inl same ↦
        let e : d ≡ c.day = ground arith in
        ground (arith, t.cap_kept, t.used_counted, ap (λ k. tried_on k days) e)
    | inr other ↦
        let later : c.day + 1 ≤ d = ground (arith, t.day_newest) in
        ground (arith, t.cap_kept, none_tried (omega (arith, t.day_newest)))
  ]

replay-Tracks :
    (max_calls start : ℕ) (days : List ℕ)
    → IsChronological start days
    → Tracks max_calls start days (replay max_calls start days)
replay-Tracks max_calls start [] h = ground arith
replay-Tracks max_calls start (d ∷ days) h =
    consume-Tracks max_calls start d days (replay max_calls start days)
      (replay-Tracks max_calls start days h.1) h.0 (tried_on-later start d days h.1)

add_admitted :
    (cap tried admitted : ℕ)
    → admitted ≡ min cap tried
    → (if ltb tried cap then 1 else 0) + admitted ≡ min cap (1 + tried)
add_admitted cap tried admitted h = ground arith

-- With a clock that does not go back, the calls let through on a day are the smaller of the cap and
-- the calls tried on that day: never more than the cap, and no call refused while some of it is left.
pub consume-admitted :
    (max_calls start day : ℕ) (days : List ℕ)
    → IsChronological start days
    → admitted_on max_calls start day days ≡ min max_calls (tried_on day days)
consume-admitted max_calls start day [] h = omega arith
consume-admitted max_calls start day (d ∷ days) h =
    let let_through =
      consume-is_ok max_calls start d days (replay max_calls start days)
        (replay-Tracks max_calls start days h.1) h.0 (tried_on-later start d days h.1) in
    elim (Bool-cases (d == day)) [
      | inl same ↦
          let e : d ≡ day = ground arith in
          let let_through' = let_through ∙ ap (λ k. ltb (tried_on k days) max_calls) e in
          rw (same, let_through')
            (add_admitted max_calls _ _ (consume-admitted max_calls start day days h.1))
      | inr other ↦ rw other (omega (arith, consume-admitted max_calls start day days h.1))
    ]
