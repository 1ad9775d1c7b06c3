-- ===== src/Llm/Attempts/Frame.antt =====
-- How one `_call_provider` ends, how long it sleeps, and what it leaves alone.
use briefed.Base.{
  ℕ, ◌≡◌, ◌≢◌, refl, ◌∙◌, String, List, none, some, Option, subst, Option-cases, inl, inr,
}
use briefed.Base.Dict.{lookup, insert, lookup-insert_other, lookup-insert_self}
use briefed.Llm.Breaker.{CircuitBreaker, record_success}
use briefed.Llm.Types.{PromptSpec, CallResult, Provider}
use briefed.Llm.Attempts.{
  Env, Config, State, Attempted, returned, assertion, call_provider, fail, sleep, is_circuit_open,
  is_capped, send, succeed,
}
use briefed.Llm.Attempts.Run.{
  Run, answered, gave_up, crashed, retried, Called, refused_open, refused_capped, ran,
  call_provider-Called,
}

-- The rows, the budget guard, and the breakers and caps of providers other than `name` are the same.
pub record Keeps (name : String) (s t : State) : Type 0 where
  pub rows : t.rows ≡ s.rows
  pub budget_guard : t.budget_guard ≡ s.budget_guard
  pub breakers : (other : String) → other ≢ name → lookup other t.breakers ≡ lookup other s.breakers
  pub rate_caps :
      (other : String) → other ≢ name → lookup other t.rate_caps ≡ lookup other s.rate_caps

pub Keeps-trans : {name : String} {s t u : State} → Keeps name s t → Keeps name t u → Keeps name s u
Keeps-trans h k = record {
  rows = k.rows ∙ h.rows;
  budget_guard = k.budget_guard ∙ h.budget_guard;
  breakers = λ other ne. k.breakers other ne ∙ h.breakers other ne;
  rate_caps = λ other ne. k.rate_caps other ne ∙ h.rate_caps other ne;
}

-- A breaker that counts no failure and is not open.
abbrev pub IsClosed : Option CircuitBreaker → Type 0
IsClosed none = ⊥
IsClosed (some b) = (b.consecutive_failures ≡ 0) × (b.opened_at ≡ none)

abbrev IsEnd : Attempted → Type 0
IsEnd assertion = ⊥
IsEnd _ = Unit

module _ (env : Env) (config : Config) (spec : PromptSpec) (prompt : String) (p : Provider) where
  send-Keeps : (s : State) → Keeps p.name s (send env config spec prompt p s).1
  unfolding send
  send-Keeps s = record {
    rows = refl;
    budget_guard = refl;
    breakers = λ o ne. refl;
    rate_caps = λ o ne. refl;
  }

  -- Two writes at the provider's name leave the other entries.
  written_twice :
      (b c : CircuitBreaker) (d : List (String × CircuitBreaker)) (o : String)
      → o ≢ p.name
      → lookup o (insert p.name c (insert p.name b d)) ≡ lookup o d
  written_twice b c d o ne =
      lookup-insert_other p.name o c (insert p.name b d) ne ∙ lookup-insert_other p.name o b d ne

  fail-Keeps : (s : State) → Keeps p.name s (fail env p.name s)
  unfolding fail
  fail-Keeps s = record {
    rows = refl;
    budget_guard = refl;
    breakers = λ o ne. written_twice _ _ s.breakers o ne;
    rate_caps = λ o ne. refl;
  }

  succeed-Keeps : (s : State) → Keeps p.name s (succeed p.name s)
  unfolding succeed
  succeed-Keeps s = record {
    rows = refl;
    budget_guard = refl;
    breakers = λ o ne. written_twice _ _ s.breakers o ne;
    rate_caps = λ o ne. refl;
  }

  sleep-Keeps : (k : ℕ) (s : State) → Keeps p.name s (sleep env config k s)
  unfolding sleep
  sleep-Keeps k s = record {
    rows = refl;
    budget_guard = refl;
    breakers = λ o ne. refl;
    rate_caps = λ o ne. refl;
  }

  Run-Keeps :
      {k : ℕ} {s t : State} {a : Attempted}
      → Run env config spec prompt p k s a t
      → Keeps p.name s t
  Run-Keeps {s = s} (answered h) = Keeps-trans (send-Keeps s) (succeed-Keeps _)
  Run-Keeps {s = s} (gave_up h) = Keeps-trans (send-Keeps s) (fail-Keeps _)
  Run-Keeps {s = s} (crashed h) = send-Keeps s
  Run-Keeps {s = s} (retried h again more rest) =
      Keeps-trans (send-Keeps s)
        (Keeps-trans (fail-Keeps _) (Keeps-trans (sleep-Keeps _ _) (Run-Keeps rest)))

  is_circuit_open-Keeps :
      (s : State) → Keeps p.name s (is_circuit_open env config spec prompt p s).1
  unfolding is_circuit_open
  is_circuit_open-Keeps s = record {
    rows = refl;
    budget_guard = refl;
    breakers = λ o ne. lookup-insert_other p.name o _ s.breakers ne;
    rate_caps = λ o ne. refl;
  }

  is_capped-Keeps : (s : State) → Keeps p.name s (is_capped env config spec prompt p s).1
  unfolding is_capped
  is_capped-Keeps s = elim (Option-cases (lookup p.name s.rate_caps)) [
    | inl uncapped ↦
        rw (uncapped, is_capped)
          (record {
            rows = refl;
            budget_guard = refl;
            breakers = λ o ne. refl;
            rate_caps = λ o ne. refl;
          })
    | inr (cap, e) ↦
        rw (e, is_capped)
          (record {
            rows = refl;
            budget_guard = refl;
            breakers = λ o ne. refl;
            rate_caps = λ o ne. lookup-insert_other p.name o _ s.rate_caps ne;
          })
  ]

  Called-Keeps :
      {s t : State} {a : Attempted} → Called env config spec prompt p s a t → Keeps p.name s t
  Called-Keeps {s} (refused_open h) = is_circuit_open-Keeps s
  Called-Keeps {s} (refused_capped h l) = Keeps-trans (is_circuit_open-Keeps s) (is_capped-Keeps _)
  Called-Keeps {s} (ran h l run) =
      Keeps-trans (is_circuit_open-Keeps s) (Keeps-trans (is_capped-Keeps _) (Run-Keeps run))

  -- One `_call_provider` leaves alone the rows, the budget guard, and the breaker and the cap of
  -- every other provider.
  pub call_provider-Keeps :
      (s : State) → Keeps p.name s (call_provider env config spec prompt p s).1
  call_provider-Keeps s = Called-Keeps (call_provider-Called env config spec prompt p s)

  Run-IsEnd : {k : ℕ} {s t : State} {a : Attempted} → Run env config spec prompt p k s a t → IsEnd a
  Run-IsEnd (answered h) = tt
  Run-IsEnd (gave_up h) = tt
  Run-IsEnd (crashed h) = tt
  Run-IsEnd (retried h again more rest) = Run-IsEnd rest

  Called-IsEnd : {s t : State} {a : Attempted} → Called env config spec prompt p s a t → IsEnd a
  Called-IsEnd (refused_open h) = tt
  Called-IsEnd (refused_capped h l) = tt
  Called-IsEnd (ran h l run) = Run-IsEnd run

  -- The retry loop always ends by its own return or raise: the `max_retries + 1` rounds are enough,
  -- and the assertion behind the loop is never reached, whatever the provider answers.
  pub call_provider-ne-assertion :
      (s : State) → (call_provider env config spec prompt p s).0 ≢ assertion
  call_provider-ne-assertion s e =
      subst IsEnd e (Called-IsEnd (call_provider-Called env config spec prompt p s))

  succeed-IsClosed : (s : State) → IsClosed (lookup p.name (succeed p.name s).breakers)
  unfolding succeed record_success
  succeed-IsClosed s = rw lookup-insert_self (refl, refl)

  abbrev ClosesAfter : Attempted → State → Type 0
  ClosesAfter (returned r) t = IsClosed (lookup p.name t.breakers)
  ClosesAfter _ t = Unit

  Run-ClosesAfter :
      {k : ℕ} {s t : State} {a : Attempted} → Run env config spec prompt p k s a t → ClosesAfter a t
  Run-ClosesAfter (answered h) = succeed-IsClosed _
  Run-ClosesAfter (gave_up h) = tt
  Run-ClosesAfter (crashed h) = tt
  Run-ClosesAfter (retried h again more rest) = Run-ClosesAfter rest

  Called-ClosesAfter :
      {s t : State} {a : Attempted} → Called env config spec prompt p s a t → ClosesAfter a t
  Called-ClosesAfter (refused_open h) = tt
  Called-ClosesAfter (refused_capped h l) = tt
  Called-ClosesAfter (ran h l run) = Run-ClosesAfter run

  -- A result, however many failures came before it in this call, leaves the provider's breaker
  -- closed with no failure counted.
  pub call_provider-IsClosed :
      (s : State) (r : CallResult)
      → (call_provider env config spec prompt p s).0 ≡ returned r
      → IsClosed (lookup p.name (call_provider env config spec prompt p s).1.breakers)
  call_provider-IsClosed s r e =
      let t = (call_provider env config spec prompt p s).1 in
      subst (λ a. ClosesAfter a t) e
        (Called-ClosesAfter (call_provider-Called env config spec prompt p s))
