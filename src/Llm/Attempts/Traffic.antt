-- ===== src/Llm/Attempts/Traffic.antt =====
-- What one `_call_provider` sends and how long it sleeps.
use briefed.Base.{
  ℕ, ◌+◌, ◌-◌, ◌≤◌, ◌≡◌, refl, List, [], ◌∷◌, ◌++◌, arith, length, All, All-append, length-append,
  append_assoc, sym, String,
}
use briefed.Llm.Types.{PromptSpec, Provider}
use briefed.Llm.Attempts.{
  Env, Config, Request, State, Attempted, call_provider, fail, sleep, is_circuit_open, is_capped,
  send, succeed,
}
use briefed.Llm.Attempts.Run.{
  Run, answered, gave_up, crashed, retried, sent, Called, refused_open, refused_capped, ran,
  call_provider-Called, admitted, counted,
}

-- From one state to a later one at most `n` requests were sent, and each of them has `P`.
abbrev pub Sends : (Request → Type 0) → ℕ → State → State → Type 0
Sends P n s s' =
    (new : List Request) × (s'.requests ≡ new ++ s.requests) × All P new × (length new ≤ n)

pub Sends-none :
    {P : Request → Type 0} {n : ℕ} (s t : State) → t.requests ≡ s.requests → Sends P n s t
Sends-none s t e = ([], e, tt, omega arith)

pub Sends-trans :
    {P : Request → Type 0} {n m : ℕ} (s t u : State)
    → Sends P n s t
    → Sends P m t u
    → Sends P (n + m) s u
Sends-trans {P} s t u (a, ea, pa, la) (b, eb, pb, lb) = (
  b ++ a,
  rw (eb, ea) (sym (append_assoc b a s.requests)),
  All-append P b a pb pa,
  rw length-append (omega arith),
)

pub Sends-le :
    {P : Request → Type 0} {n m : ℕ} (s t : State) → n ≤ m → Sends P n s t → Sends P m s t
Sends-le s t le (new, e, all, l) = (new, e, all, omega arith)

pub requests-fail :
    (env : Env) (name : String) (s : State) → (fail env name s).requests ≡ s.requests
unfolding fail
requests-fail env name s = refl

-- A request to the provider, with the prompt.
abbrev pub IsOurs : String → Provider → Request → Type 0
IsOurs prompt p r = (r.provider ≡ p.name) × (r.prompt ≡ prompt)

module _ (env : Env) (config : Config) (spec : PromptSpec) (prompt : String) (p : Provider) where
  abbrev after : State → State
  after s = sent env config spec prompt p s

  sent-Sends : (s t : State) → t.requests ≡ (after s).requests → Sends (IsOurs prompt p) 1 s t
  unfolding send
  sent-Sends s t e =
      (record { provider = p.name; prompt = prompt } ∷ [], e, ((refl, refl), tt), omega arith)

  requests-retry :
      (k : ℕ) (s : State) → (sleep env config k (fail env p.name s)).requests ≡ s.requests
  unfolding fail sleep
  requests-retry k s = refl

  requests-succeed : (s : State) → (succeed p.name s).requests ≡ s.requests
  unfolding succeed
  requests-succeed s = refl

  Run-Sends :
      {k : ℕ} {s t : State} {a : Attempted}
      → k ≤ config.max_retries
      → Run env config spec prompt p k s a t
      → Sends (IsOurs prompt p) (config.max_retries + 1 - k) s t
  Run-Sends {k} {s} {t} le (answered h) =
      Sends-le s t (omega arith) (sent-Sends s t (requests-succeed (after s)))
  Run-Sends {k} {s} {t} le (gave_up h) =
      Sends-le s t (omega arith) (sent-Sends s t (requests-fail env p.name (after s)))
  Run-Sends {k} {s} {t} le (crashed h) = Sends-le s t (omega arith) (sent-Sends s t refl)
  Run-Sends {k} {s} {t} le (retried h again more rest) =
      let u = sleep env config k (fail env p.name (after s)) in
      Sends-le s t (omega arith)
        (Sends-trans s u t (sent-Sends s u (requests-retry k (after s))) (Run-Sends more rest))

  requests-admitted : (s : State) → (admitted env config spec prompt p s).requests ≡ s.requests
  unfolding is_circuit_open
  requests-admitted s = refl

  requests-counted : (s : State) → (counted env config spec prompt p s).requests ≡ s.requests
  unfolding is_capped is_circuit_open
  requests-counted s = ground arith

  Called-Sends :
      {s t : State} {a : Attempted}
      → Called env config spec prompt p s a t
      → Sends (IsOurs prompt p) (config.max_retries + 1) s t
  Called-Sends {s} {t} (refused_open h) = Sends-none s t (requests-admitted s)
  Called-Sends {s} {t} (refused_capped h l) = Sends-none s t (requests-counted s)
  Called-Sends {s} {t} (ran h l run) =
      let c = counted env config spec prompt p s in
      Sends-le s t (omega arith) (
        Sends-trans s c t (Sends-none {n = 0} s c (requests-counted s))
          (Run-Sends (omega arith) run))

  -- From any state, one `_call_provider` sends its provider at most `max_retries + 1` requests, each
  -- with the prompt that it was given, and sends nothing else.
  pub call_provider-Sends :
      (s : State)
      → Sends
          (IsOurs prompt p)
          (config.max_retries + 1)
          s
          (call_provider env config spec prompt p s).1
  call_provider-Sends s = Called-Sends (call_provider-Called env config spec prompt p s)
