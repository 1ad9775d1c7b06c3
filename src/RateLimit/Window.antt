-- ===== src/RateLimit/Window.antt =====
-- The limiter against a log of every run that was ever let through.
use text.Mathlib.TextPositions.{eq_refl}
use mathlib.Core.Path.{ap₂}
use briefed.Base.{
  ℕ, ◌≤◌, ◌≡◌, refl, ◌∙◌, sym, ap, subst, append-nil, String, List, [], ◌∷◌, ◌++◌, Bool, true,
  false, arith, ltb, length, filter, filter-append, filter-filter, eq_iff, str_eq, inl, inr,
  Bool-cases, if◌then◌else◌,
}
use briefed.Base.Dict.{get_or, lookup, insert, get_or-insert}
use briefed.Base.Result.{Result, ok, err}
use briefed.RateLimit.{Limiter, is_recent, check}

abbrev pub is_ok : {E A : Type 0} → Result E A → Bool
is_ok (ok _) = true
is_ok (err _) = false

-- The times at which a user's runs were let through, oldest first.
abbrev pub times_of : String → List (String × ℕ) → List ℕ
times_of user [] = []
times_of user ((u, t) ∷ log) =
    let rest = times_of user log in if str_eq u user then t ∷ rest else rest

-- The specification: a run is let through if fewer than `capacity` of the user's runs were let
-- through within the window before it.
abbrev pub admits : ℕ → ℕ → List (String × ℕ) → String → ℕ → Bool
admits capacity window log user ts =
    ltb (length (filter (is_recent window ts) (times_of user log))) capacity

abbrev pub decide_all : ℕ → ℕ → List (String × ℕ) → List (String × ℕ) → List Bool
decide_all capacity window log [] = []
decide_all capacity window log ((user, ts) ∷ tries) =
    let let_through = admits capacity window log user ts in
    let_through
    ∷ decide_all capacity window (if let_through then log ++ (user, ts) ∷ [] else log) tries

-- The limiter's own decisions on the tries, oldest first.
abbrev pub check_all : Limiter → List (String × ℕ) → List Bool
check_all l [] = []
check_all l ((user, ts) ∷ tries) = is_ok (check l user ts).0 ∷ check_all (check l user ts).1 tries

abbrev pub IsChronological : ℕ → List (String × ℕ) → Type 0
IsChronological now [] = Unit
IsChronological now ((user, ts) ∷ tries) = (now ≤ ts) × IsChronological ts tries

times_of-append :
    (user : String) (log more : List (String × ℕ))
    → times_of user (log ++ more) ≡ times_of user log ++ times_of user more
times_of-append user [] more = refl
times_of-append user ((u, t) ∷ log) more = ground (arith, times_of-append user log more)

capacity-check : (l : Limiter) (user : String) (ts : ℕ) → (check l user ts).1.capacity ≡ l.capacity
unfolding check
capacity-check l user ts = ground arith

window-check : (l : Limiter) (user : String) (ts : ℕ) → (check l user ts).1.window ≡ l.window
unfolding check
window-check l user ts = ground arith

-- From `now` on, the buckets have the recent entries of the log.
record Agrees (capacity window now : ℕ) (log : List (String × ℕ)) (l : Limiter) : Type 0 where
  capacity_kept : l.capacity ≡ capacity
  window_kept : l.window ≡ window
  recent :
      (user : String) (ts : ℕ)
      → now ≤ ts
      → filter (is_recent window ts) (get_or user [] l.buckets)
        ≡ filter (is_recent window ts) (times_of user log)

module _ (capacity window now : ℕ) (log : List (String × ℕ)) (l : Limiter)
    (a : Agrees capacity window now log l) (user : String) (ts : ℕ) (later : now ≤ ts) where
  -- What the check keeps of the user's bucket.
  abbrev kept : List ℕ
  kept = filter (is_recent window ts) (get_or user [] l.buckets)

  check-admits : is_ok (check l user ts).0 ≡ admits capacity window log user ts
  unfolding check
  check-admits =
      let same : length kept ≡ length (filter (is_recent window ts) (times_of user log)) =
        ap length (a.recent user ts later) in
      ground (arith, a.capacity_kept, a.window_kept, same)

  -- Pruning at `ts` does not matter to a later reading.
  kept_recent :
      (ts' : ℕ)
      → ts ≤ ts'
      → filter (is_recent window ts') kept ≡ filter (is_recent window ts') (times_of user log)
  kept_recent ts' le =
      filter-filter (is_recent window ts') (is_recent window ts) (λ t h. ground arith)
        (get_or user [] l.buckets)
      ∙ a.recent user ts' (omega arith)

  appended_recent :
      (ts' : ℕ)
      → ts ≤ ts'
      → filter (is_recent window ts') (kept ++ ts ∷ [])
        ≡ filter (is_recent window ts') (times_of user log ++ ts ∷ [])
  appended_recent ts' le =
      filter-append (is_recent window ts') kept (ts ∷ [])
      ∙ ap (λ xs. xs ++ filter (is_recent window ts') (ts ∷ [])) (kept_recent ts' le)
      ∙ sym (filter-append (is_recent window ts') (times_of user log) (ts ∷ []))

  -- The buckets and the log after the check.
  abbrev bucket' : List ℕ
  bucket' = if admits capacity window log user ts then kept ++ ts ∷ [] else kept

  abbrev log' : List (String × ℕ)
  log' = if admits capacity window log user ts then log ++ (user, ts) ∷ [] else log

  buckets-check : (check l user ts).1.buckets ≡ insert user bucket' l.buckets
  unfolding check
  buckets-check =
      let same : length kept ≡ length (filter (is_recent window ts) (times_of user log)) =
        ap length (a.recent user ts later) in
      ground (arith, a.capacity_kept, a.window_kept, same)

  own_recent :
      (ts' : ℕ)
      → ts ≤ ts'
      → filter (is_recent window ts') bucket' ≡ filter (is_recent window ts') (times_of user log')
  own_recent ts' le = elim (Bool-cases (admits capacity window log user ts)) [
    | inl through ↦
        rw (through, times_of-append user log ((user, ts) ∷ []), eq_refl user)
          (appended_recent ts' le)
    | inr refused ↦ rw refused (kept_recent ts' le)
  ]

  other_recent :
      (other : String) (ts' : ℕ)
      → str_eq user other ≡ false
      → ts ≤ ts'
      → filter (is_recent window ts') (get_or other [] l.buckets)
        ≡ filter (is_recent window ts') (times_of other log')
  other_recent other ts' ne le = elim (Bool-cases (admits capacity window log user ts)) [
    | inl through ↦
        rw (through, times_of-append other log ((user, ts) ∷ []), ne)
          (rw append-nil (a.recent other ts' (omega arith)))
    | inr refused ↦ rw refused (a.recent other ts' (omega arith))
  ]

  check-Agrees : Agrees capacity window ts log' (check l user ts).1
  check-Agrees = record {
    capacity_kept = capacity-check l user ts ∙ a.capacity_kept;
    window_kept = window-check l user ts ∙ a.window_kept;
    recent = λ other ts' le.
        rw (buckets-check, get_or-insert user other bucket' [] l.buckets)
          (elim (Bool-cases (str_eq user other)) [
            | inl own ↦ rw own (
                subst
                  (λ u.
                    filter (is_recent window ts') bucket'
                    ≡ filter (is_recent window ts') (times_of u log'))
                  ((eq_iff user other).0 own) (own_recent ts' le))
            | inr ne ↦ rw ne (other_recent other ts' ne le)
          ]);
  }

check_all-decide :
    (capacity window now : ℕ) (log : List (String × ℕ)) (l : Limiter) (tries : List (String × ℕ))
    → Agrees capacity window now log l
    → IsChronological now tries
    → check_all l tries ≡ decide_all capacity window log tries
check_all-decide capacity window now log l [] a h = refl
check_all-decide capacity window now log l ((user, ts) ∷ tries) a h =
    let next = check-Agrees capacity window now log l a user ts h.0 in
    ap₂ (λ b bs. b ∷ bs) (check-admits capacity window now log l a user ts h.0)
      (check_all-decide capacity window ts _ (check l user ts).1 tries next h.1)

abbrev pub new_limiter : ℕ → ℕ → Limiter
new_limiter capacity window = record { capacity = capacity; window = window; buckets = [] }

new_limiter-Agrees :
    (capacity window : ℕ) → Agrees capacity window 0 [] (new_limiter capacity window)
unfolding lookup
new_limiter-Agrees capacity window = record {
  capacity_kept = refl;
  window_kept = refl;
  recent = λ user ts le. refl;
}

-- On any sequence of tries by any users, in order of time, a new limiter lets through exactly those
-- that the log of all runs let through allows: a try by a user who had fewer than `capacity` runs
-- let through in the window before it. Pruning a bucket never changes a decision, and one user's
-- tries never change another's.
pub check_all-new :
    (capacity window : ℕ) (tries : List (String × ℕ))
    → IsChronological 0 tries
    → check_all (new_limiter capacity window) tries ≡ decide_all capacity window [] tries
check_all-new capacity window tries h =
    check_all-decide capacity window 0 [] (new_limiter capacity window) tries
      (new_limiter-Agrees capacity window) h
