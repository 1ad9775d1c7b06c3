-- ===== src/RateLimit/Retry.antt =====
-- What a refused check tells its user.
use text.Mathlib.TextPositions.{eq_refl}
use mathlib.Core.Path.{ap₂}
use briefed.Base.{
  ℕ, ◌+◌, ◌*◌, ◌-◌, ◌/◌, ◌≤◌, ◌≡◌, ◌↔◌, ◌∙◌, ap, sym, subst, String, List, [], ◌∷◌, true, arith,
  length, filter, All, All-map, max, filter-All, le→leb,
}
use briefed.Base.Dict.{get_or, get_or-insert}
use briefed.Base.Result.{err}
use briefed.RateLimit.{Limiter, Refusal, too_many, index_error, is_recent, refusal, check, second}

-- The entries of a user's bucket that a check keeps.
abbrev pub kept : Limiter → String → ℕ → List ℕ
kept l user ts = filter (is_recent l.window ts) (get_or user [] l.buckets)

-- A check ends with `IndexError` exactly when the capacity is zero and the user has no recent entry.
check-index_error :
    (l : Limiter) (user : String) (ts : ℕ)
    → ((check l user ts).0 ≡ err index_error) ↔ ((l.capacity ≡ 0) × (kept l user ts ≡ []))
unfolding check
check-index_error l user ts = (λ e. ground arith, λ h. ground arith)

-- A refused check prunes the bucket to what it kept.
refused-kept :
    (l : Limiter) (user : String) (ts : ℕ)
    → l.capacity ≤ length (kept l user ts)
    → ((check l user ts).1.capacity ≡ l.capacity)
      × ((check l user ts).1.window ≡ l.window)
      × (get_or user [] (check l user ts).1.buckets ≡ kept l user ts)
unfolding check
refused-kept l user ts full =
    ground (arith, get_or-insert user user (kept l user ts) [] l.buckets, eq_refl user)

full-refused :
    (l : Limiter) (user : String) (ts : ℕ)
    → l.capacity ≤ length (kept l user ts)
    → (r : Refusal) × ((check l user ts).0 ≡ err r)
unfolding check
full-refused l user ts full = (refusal l.window ts (kept l user ts), ground arith)

-- A check that was refused as one too many had a full bucket, and quotes the whole seconds, at least
-- one, that the oldest entry it kept has left in the window.
too_many-full :
    (l : Limiter) (user : String) (ts count retry_after oldest : ℕ) (rest : List ℕ)
    → kept l user ts ≡ oldest ∷ rest
    → (check l user ts).0 ≡ err (too_many count retry_after)
    → (l.capacity ≤ length (kept l user ts))
      × (retry_after ≡ max 1 ((oldest + l.window - ts) / second))
unfolding check refusal
too_many-full l user ts count retry_after oldest rest e refused = ground arith

still_recent :
    (window ts oldest : ℕ) (rest : List ℕ)
    → ts ≤ oldest + window
    → All (λ t. oldest ≤ t) rest
    → All (λ t. is_recent window ts t ≡ true) (oldest ∷ rest)
still_recent window ts oldest rest le older =
    (le→leb _ _ le, All-map (λ t h. le→leb _ _ (omega arith)) rest older)

-- A refused user who waits exactly the advertised `Retry-After` is refused again: the seconds are
-- rounded down and the window's end is still inside it. This holds whenever the bucket is in order
-- of time and its oldest entry has at least a second left.
pub retry_after_refused :
    (l : Limiter) (user : String) (ts count retry_after oldest : ℕ) (rest : List ℕ)
    → kept l user ts ≡ oldest ∷ rest
    → All (λ t. oldest ≤ t) rest
    → ts + second ≤ oldest + l.window
    → (check l user ts).0 ≡ err (too_many count retry_after)
    → (r : Refusal) × ((check (check l user ts).1 user (ts + retry_after * second)).0 ≡ err r)
retry_after_refused l user ts count retry_after oldest rest e older left refused =
    let (full, quoted) = too_many-full l user ts count retry_after oldest rest e refused in
    let (c, w, b) = refused-kept l user ts full in
    let l' : Limiter = (check l user ts).1 in
    let ts' : ℕ = ts + retry_after * second in
    let in_time : ts' ≤ oldest + l.window = omega arith in
    let same : kept l' user ts' ≡ kept l user ts =
      ap₂ (λ window xs. filter (is_recent window ts') xs) w b
      ∙ subst (λ xs. filter (is_recent l.window ts') xs ≡ xs) (sym e)
          (filter-All (is_recent l.window ts') (oldest ∷ rest)
            (still_recent l.window ts' oldest rest in_time older)) in
    full-refused l' user ts' (omega (arith, c, ap length same))
