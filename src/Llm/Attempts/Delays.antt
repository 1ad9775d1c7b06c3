-- ===== src/Llm/Attempts/Delays.antt =====
-- The delays between the attempts of one `_call_provider`, and its refusals.
use briefed.Base.{
  ℕ, ◌+◌, ◌-◌, ◌*◌, ◌^◌, ◌≤◌, ◌<◌, ◌≡◌, refl, ◌∙◌, List, [], ◌∷◌, ◌++◌, arith, length, All,
  All-append, length-append, append_assoc, sym, min, some, true, String, ap,
}
use briefed.Base.Dict.{lookup, lookup-insert_self}
use briefed.Llm.Breaker.{CircuitBreaker, before_call}
use briefed.Llm.Types.{PromptSpec, Provider, circuit_open}
use briefed.Llm.Attempts.{
  Env, Config, State, Attempted, raised, call_provider, fail, sleep, is_circuit_open, is_capped,
  send, succeed, backoff, breaker_for,
}
use briefed.Llm.Attempts.Run.{
  Run, answered, gave_up, crashed, retried, sent, Called, refused_open, refused_capped, ran,
  call_provider-Called, admitted, counted,
}

-- From one state to a later one at most `n` delays were slept, none longer than `longest`.
abbrev pub Sleeps : ℕ → ℕ → State → State → Type 0
Sleeps longest n s t =
    (new : List ℕ) × (t.delays ≡ new ++ s.delays) × All (λ d. d ≤ longest) new × (length new ≤ n)

module _ (env : Env) (config : Config) (spec : PromptSpec) (prompt : String) (p : Provider) where
  abbrev after : State → State
  after s = sent env config spec prompt p s

  delays-fail : (s : State) → (fail env p.name (after s)).delays ≡ s.delays
  unfolding fail send
  delays-fail s = refl

  delays-succeed : (s : State) → (succeed p.name (after s)).delays ≡ s.delays
  unfolding succeed send
  delays-succeed s = refl

  delays-after : (s : State) → (after s).delays ≡ s.delays
  unfolding send
  delays-after s = refl

  delays-counted : (s : State) → (counted env config spec prompt p s).delays ≡ s.delays
  unfolding is_capped is_circuit_open
  delays-counted s = ground arith

  delays-admitted : (s : State) → (admitted env config spec prompt p s).delays ≡ s.delays
  unfolding is_circuit_open
  delays-admitted s = refl

  requests-admitted : (s : State) → (admitted env config spec prompt p s).requests ≡ s.requests
  unfolding is_circuit_open
  requests-admitted s = refl

  rate_caps-admitted : (s : State) → (admitted env config spec prompt p s).rate_caps ≡ s.rate_caps
  unfolding is_circuit_open
  rate_caps-admitted s = refl

  -- `random.uniform(0, high)` is at most `high`.
  module _ (uniform-le : (high step : ℕ) → env.uniform high step ≤ high) where
    backoff-le : (k step : ℕ) → backoff env config k step ≤ config.max_backoff
    unfolding backoff
    backoff-le k step =
        omega (arith, uniform-le (min (config.base_backoff * 2 ^ k) config.max_backoff) step)

    retry-Sleeps :
        (k : ℕ) (s : State) {n : ℕ} (t : State)
        → Sleeps config.max_backoff n (sleep env config k (fail env p.name (after s))) t
        → Sleeps config.max_backoff (n + 1) s t
    unfolding sleep
    retry-Sleeps k s t (new, e, all, l) =
        let d = backoff env config k (fail env p.name (after s)).step in
        (
          new ++ (d ∷ []),
          e ∙ ap (λ ds. new ++ (d ∷ ds)) (delays-fail s) ∙ sym (append_assoc new (d ∷ []) s.delays),
          All-append _ new _ all (backoff-le k _, tt),
          rw length-append (omega arith),
        )

    Run-Sleeps :
        {k : ℕ} {s t : State} {a : Attempted}
        → k ≤ config.max_retries
        → Run env config spec prompt p k s a t
        → Sleeps config.max_backoff (config.max_retries - k) s t
    Run-Sleeps {s = s} le (answered h) = ([], delays-succeed s, tt, omega arith)
    Run-Sleeps {s = s} le (gave_up h) = ([], delays-fail s, tt, omega arith)
    Run-Sleeps {s = s} le (crashed h) = ([], delays-after s, tt, omega arith)
    Run-Sleeps {k} {s} {t} le (retried h again more rest) =
        let (new, e, all, l) = retry-Sleeps k s t (Run-Sleeps more rest) in
        (new, e, all, omega arith)

    Called-Sleeps :
        {s t : State} {a : Attempted}
        → Called env config spec prompt p s a t
        → Sleeps config.max_backoff config.max_retries s t
    Called-Sleeps {s} (refused_open h) = ([], delays-admitted s, tt, omega arith)
    Called-Sleeps {s} (refused_capped h l) = ([], delays-counted s, tt, omega arith)
    Called-Sleeps {s} {t} (ran h l run) =
        let (new, e, all, len) = Run-Sleeps (omega arith) run in
        (new, e ∙ ap (λ ds. new ++ ds) (delays-counted s), all, omega arith)

    -- Where `random.uniform` stays below its upper bound, one `_call_provider` sleeps at most
    -- `max_retries` times, and never longer than `max_backoff` at a time.
    pub call_provider-Sleeps :
        (s : State)
        → Sleeps config.max_backoff config.max_retries s
            (call_provider env config spec prompt p s).1
    call_provider-Sleeps s = Called-Sleeps (call_provider-Called env config spec prompt p s)

  is_cooling :
      (s : State) (b : CircuitBreaker) (t : ℕ)
      → lookup p.name s.breakers ≡ some b
      → b.opened_at ≡ some t
      → env.monotonic s.step < t + b.cool_down
      → ((is_circuit_open env config spec prompt p s).0 ≡ true)
        × (lookup p.name (admitted env config spec prompt p s).breakers ≡ some b)
  unfolding is_circuit_open breaker_for before_call
  is_cooling s b t found opened early = ground (arith, lookup-insert_self p.name b s.breakers)

  -- A provider whose breaker opened less than its cool-down ago is refused with a circuit error, and
  -- neither asked, nor counted against its cap, nor its breaker changed.
  pub call_provider_cooling :
      (s : State) (b : CircuitBreaker) (t : ℕ)
      → lookup p.name s.breakers ≡ some b
      → b.opened_at ≡ some t
      → env.monotonic s.step < t + b.cool_down
      → let (a, s') = call_provider env config spec prompt p s in
        (a ≡ raised circuit_open)
        × (s'.requests ≡ s.requests)
        × (s'.rate_caps ≡ s.rate_caps)
        × (lookup p.name s'.breakers ≡ some b)
  unfolding call_provider
  call_provider_cooling s b t found opened early =
      let (shut, kept) = is_cooling s b t found opened early in
      rw (shut, call_provider) (refl, requests-admitted s, rate_caps-admitted s, kept)
