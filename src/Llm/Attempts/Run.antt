-- ===== src/Llm/Attempts/Run.antt =====
-- The retry loop as a relation: one constructor for each way a round ends.
use briefed.Base.{
  ℕ, zero, suc, ◌+◌, ◌≤◌, ◌≡◌, Bool, true, false, arith, inl, inr, Bool-cases, ◌||◌, not, ◌==◌,
  String, ◌⊎◌, refl,
}
use briefed.Base.Result.{Result, ok, err}
use briefed.Llm.Types.{
  PromptSpec, CallResult, Provider, AdapterError, ProviderException, llm_provider_error,
  other_exception, adapter, circuit_open, cap_exhausted,
}
use briefed.Llm.Attempts.{
  Env, Config, State, Attempted, returned, raised, escaped, attempt_loop, send, succeed, fail,
  sleep, is_circuit_open, is_capped, call_provider,
}

-- What a provider does.
Answer-cases :
    (answer : Result ProviderException CallResult)
    → ((r : CallResult) × (answer ≡ ok r))
      ⊎ (((e : AdapterError) × (answer ≡ err (llm_provider_error e)))
          ⊎ (answer ≡ err other_exception))
Answer-cases (ok r) = inl (r, refl)
Answer-cases (err (llm_provider_error e)) = inr (inl (e, refl))
Answer-cases (err other_exception) = inr (inr refl)

module _ (env : Env) (config : Config) (spec : PromptSpec) (prompt : String) (p : Provider) where
  -- The state after a request, and after its failure.
  abbrev pub sent : State → State
  sent s = (send env config spec prompt p s).1

  -- From attempt `k` in a state, the loop ends with a result in a state.
  pub data Run : ℕ → State → Attempted → State → Type 0 where
    answered :
        {k : ℕ} {s : State} {r : CallResult}
        → p.complete_json spec prompt s.step ≡ ok r
        → Run k s (returned r) (succeed p.name (sent s))
    gave_up :
        {k : ℕ} {s : State} {e : AdapterError}
        → p.complete_json spec prompt s.step ≡ err (llm_provider_error e)
        → Run k s (raised (adapter e.is_retryable)) (fail env p.name (sent s))
    crashed :
        {k : ℕ} {s : State}
        → p.complete_json spec prompt s.step ≡ err other_exception
        → Run k s escaped (sent s)
    retried :
        {k : ℕ} {s : State} {e : AdapterError} {a : Attempted} {t : State}
        → p.complete_json spec prompt s.step ≡ err (llm_provider_error e)
        → e.is_retryable ≡ true
        → k + 1 ≤ config.max_retries
        → Run (k + 1) (sleep env config k (fail env p.name (sent s))) a t
        → Run k s a t

  -- The test that ends the loop after a failure.
  abbrev stops : AdapterError → ℕ → Bool
  stops e k = not e.is_retryable || (k == config.max_retries)

  -- With the rounds that are left of `max_retries + 1`, the loop does one of these runs, so it never
  -- comes to the assertion.
  pub attempt_loop-Run :
      (rounds k : ℕ) (s : State)
      → k + suc rounds ≡ config.max_retries + 1
      → let (a, t) = attempt_loop env config spec prompt p (suc rounds) k s in Run k s a t
  unfolding attempt_loop send
  attempt_loop-Run zero k s left = elim (Answer-cases (p.complete_json spec prompt s.step)) [
    | inl (r, h) ↦ rw (h, attempt_loop) (answered h)
    | inr (inr h) ↦ rw (h, attempt_loop) (crashed h)
    | inr (inl (e, h)) ↦
        let last : stops e k ≡ true = ground arith in rw (h, attempt_loop) (rw last (gave_up h))
  ]
  attempt_loop-Run (suc rounds) k s left =
      elim (Answer-cases (p.complete_json spec prompt s.step)) [
        | inl (r, h) ↦ rw (h, attempt_loop) (answered h)
        | inr (inr h) ↦ rw (h, attempt_loop) (crashed h)
        | inr (inl (e, h)) ↦ elim (Bool-cases (stops e k)) [
          | inl stop ↦ rw (h, attempt_loop) (rw stop (gave_up h))
          | inr more ↦
              let rest =
                attempt_loop-Run rounds (k + 1) (sleep env config k (fail env p.name (sent s)))
                  (omega arith) in
              rw (h, attempt_loop) (rw more (retried {e = e} h (ground arith) (ground arith) rest))
        ]
      ]

  -- The state in which the cap is asked, and that in which the loop begins.
  abbrev pub admitted : State → State
  admitted s = (is_circuit_open env config spec prompt p s).1

  abbrev pub counted : State → State
  counted s = (is_capped env config spec prompt p (admitted s)).1

  -- The ways in which `_call_provider` ends.
  pub data Called (s : State) : Attempted → State → Type 0 where
    refused_open :
        (is_circuit_open env config spec prompt p s).0 ≡ true
        → Called s (raised circuit_open) (admitted s)
    refused_capped :
        (is_circuit_open env config spec prompt p s).0 ≡ false
        → (is_capped env config spec prompt p (admitted s)).0 ≡ true
        → Called s (raised cap_exhausted) (counted s)
    ran :
        {a : Attempted} {t : State}
        → (is_circuit_open env config spec prompt p s).0 ≡ false
        → (is_capped env config spec prompt p (admitted s)).0 ≡ false
        → Run 0 (counted s) a t
        → Called s a t

  pub call_provider-Called :
      (s : State) → let (a, t) = call_provider env config spec prompt p s in Called s a t
  unfolding call_provider
  call_provider-Called s = elim (Bool-cases (is_circuit_open env config spec prompt p s).0) [
    | inl shut ↦ rw (shut, call_provider) (refused_open shut)
    | inr free ↦ elim (Bool-cases (is_capped env config spec prompt p (admitted s)).0) [
      | inl spent ↦ rw (free, spent, call_provider) (refused_capped free spent)
      | inr left ↦
          let rounds : config.max_retries + 1 ≡ suc config.max_retries = omega arith in
          rw (free, left, call_provider)
            (rw rounds
              (ran free left (attempt_loop-Run config.max_retries 0 (counted s) (omega arith))))
    ]
  ]
