-- ===== src/Llm/Breaker/History.antt =====
-- The breaker against the history of its provider's outcomes.
use briefed.Base.{
  ℕ, ◌+◌, ◌≤◌, ◌≡◌, Bool, true, false, ◌&&◌, Option, none, some, List, [], ◌∷◌, arith, ltb, leb,
  ◌==◌, is_some, refl, if◌then◌else◌,
}
use briefed.Base.Result.{Result, ok, err}
use briefed.Llm.Breaker.{
  CircuitBreaker, CircuitOpenError, before_call, record_success, record_failure,
}

-- What a provider call reports to its breaker; a failure with the clock's reading.
pub data Outcome : Type 0 where
  succeeded : Outcome
  failed : ℕ → Outcome

abbrev pub closed : ℕ → ℕ → CircuitBreaker
closed threshold cool_down = record {
  fail_threshold = threshold;
  cool_down = cool_down;
  consecutive_failures = 0;
  opened_at = none;
}

abbrev pub report : Outcome → CircuitBreaker → CircuitBreaker
report succeeded b = record_success b
report (failed now) b = (record_failure b now).0

-- The breaker after a history, newest outcome first.
abbrev pub replay : ℕ → ℕ → List Outcome → CircuitBreaker
replay threshold cool_down [] = closed threshold cool_down
replay threshold cool_down (o ∷ h) = report o (replay threshold cool_down h)

-- The number of failures since the last success.
abbrev pub failure_run : List Outcome → ℕ
failure_run [] = 0
failure_run (succeeded ∷ h) = 0
failure_run (failed now ∷ h) = failure_run h + 1

-- The newest outcome's time, where it is a failure.
abbrev pub failed_at : List Outcome → Option ℕ
failed_at (failed now ∷ h) = some now
failed_at _ = none

record Tracks (threshold cool_down : ℕ) (h : List Outcome) (b : CircuitBreaker) : Type 0 where
  threshold_kept : b.fail_threshold ≡ threshold
  cool_down_kept : b.cool_down ≡ cool_down
  run_counted : b.consecutive_failures ≡ failure_run h
  opening : b.opened_at ≡ (if leb threshold (failure_run h) then failed_at h else none)

report-Tracks :
    (threshold cool_down : ℕ) (o : Outcome) (h : List Outcome) (b : CircuitBreaker)
    → Tracks threshold cool_down h b
    → Tracks threshold cool_down (o ∷ h) (report o b)
unfolding record_success record_failure
report-Tracks threshold cool_down succeeded h b t = ground arith
report-Tracks threshold cool_down (failed now) h b t = ground arith

replay-Tracks :
    (threshold cool_down : ℕ) (h : List Outcome)
    → Tracks threshold cool_down h (replay threshold cool_down h)
replay-Tracks threshold cool_down [] = ground arith
replay-Tracks threshold cool_down (o ∷ h) =
    report-Tracks threshold cool_down o h (replay threshold cool_down h)
      (replay-Tracks threshold cool_down h)

abbrev pub is_refused : {A : Type 0} → Result CircuitOpenError A → Bool
is_refused (ok _) = false
is_refused (err _) = true

abbrev pub is_cooling : ℕ → ℕ → Option ℕ → Bool
is_cooling cool_down now none = false
is_cooling cool_down now (some t) = ltb now (t + cool_down)

-- After any history of outcomes the breaker refuses a call exactly when the last `threshold`
-- outcomes or more were failures and the newest of them is less than `cool_down` old.
pub before_call-replay :
    (threshold cool_down now : ℕ) (h : List Outcome)
    → is_refused (before_call (replay threshold cool_down h) now)
      ≡ leb threshold (failure_run h) && is_cooling cool_down now (failed_at h)
unfolding before_call
before_call-replay threshold cool_down now h =
    let t = replay-Tracks threshold cool_down h in ground (arith, t.opening, t.cool_down_kept)

-- A run of failures that is not empty has a newest failure.
failed_at-run : (h : List Outcome) → 1 ≤ failure_run h → is_some (failed_at h) ≡ true
failed_at-run [] p = absurd (omega arith)
failed_at-run (succeeded ∷ h) p = absurd (omega arith)
failed_at-run (failed now ∷ h) p = refl

-- With a threshold of at least one, a failure asks for the `llm.breaker.opened` event exactly when
-- it makes the run of failures as long as the threshold; so a failure after the cool-down, which
-- opens the breaker again, asks for none.
pub record_failure-opened :
    (threshold cool_down now : ℕ) (h : List Outcome)
    → 1 ≤ threshold
    → (record_failure (replay threshold cool_down h) now).1 ≡ (failure_run h + 1 == threshold)
unfolding record_failure
record_failure-opened threshold cool_down now h pos =
    let t = replay-Tracks threshold cool_down h in
    ground (arith, t.opening, t.threshold_kept, t.run_counted, failed_at-run h)
