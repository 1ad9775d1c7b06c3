-- ===== src/Llm/Client/Tried.antt =====
-- The loop over the provider chain as a relation, one constructor for each way to go on.
use briefed.Base.{
  ℕ, ◌+◌, ◌≡◌, ◌≢◌, Option, none, some, List, [], ◌∷◌, ◌++◌, Option-cases, inl, inr, ◌⊎◌, refl,
}
use briefed.Base.Result.{Result, ok, err, Result-cases}
use briefed.Redaction.{RedactionResult}
use briefed.Llm.Budget.{BudgetExceeded}
use briefed.Llm.Types.{Fields, CallResult, ProviderError, Provider}
use briefed.Llm.Attempts.{
  Env, State, Attempted, returned, raised, escaped, assertion, call_provider, fail,
}
use briefed.Llm.Attempts.Frame.{call_provider-ne-assertion}
use briefed.Llm.Client.{
  Client, Arguments, Failure, provider_failed, schema_mismatch, CallError, every_provider_failed,
  Response, prompt_to_send, failure_row, log_row, payload_of, finish, try_chain, check_budget,
  check_reidentify, redact, active_sanitizer, budget_exceeded, provider_exception, call,
}

Attempted-cases :
    (a : Attempted)
    → a ≢ assertion
    → ((r : CallResult) × (a ≡ returned r))
      ⊎ (((e : ProviderError) × (a ≡ raised e)) ⊎ (a ≡ escaped))
Attempted-cases (returned r) h = inl (r, refl)
Attempted-cases (raised e) h = inr (inl (e, refl))
Attempted-cases escaped h = inr (inr refl)
Attempted-cases assertion h = absurd (h refl)

module _ {Parsed : Type 0} (env : Env) (validate : Fields → Option Parsed) (c : Client)
    (args : Arguments) (redaction : Option RedactionResult) where
  -- One `_call_provider` of this call.
  abbrev pub ask : Provider → State → Attempted × State
  ask p s = call_provider env c.config args.spec (prompt_to_send args redaction) p s

  pub data Tried
      : List Provider
        → ℕ
        → List Failure
        → State
        → Result CallError (Response Parsed)
        → State
        → Type 0 where
    exhausted :
        {i : ℕ} {errors : List Failure} {s : State}
        → Tried [] i errors s
            (err (every_provider_failed errors))
            (log_row args (failure_row c args redaction) s)
    unavailable :
        {p : Provider} {ps : List Provider} {i : ℕ} {errors : List Failure} {s : State}
        {e : ProviderError} {out : Result CallError (Response Parsed)} {t : State}
        → (ask p s).0 ≡ raised e
        → Tried ps (i + 1) (errors ++ provider_failed p.name e ∷ []) (ask p s).1 out t
        → Tried (p ∷ ps) i errors s out t
    crashed :
        {p : Provider} {ps : List Provider} {i : ℕ} {errors : List Failure} {s : State}
        → (ask p s).0 ≡ escaped
        → Tried (p ∷ ps) i errors s (err provider_exception) (ask p s).1
    invalid :
        {p : Provider} {ps : List Provider} {i : ℕ} {errors : List Failure} {s : State}
        {r : CallResult} {out : Result CallError (Response Parsed)} {t : State}
        → (ask p s).0 ≡ returned r
        → validate (payload_of env validate c args redaction r) ≡ none
        → Tried ps
            (i + 1)
            (errors ++ schema_mismatch p.name ∷ [])
            (fail env p.name (ask p s).1)
            out
            t
        → Tried (p ∷ ps) i errors s out t
    answered :
        {p : Provider} {ps : List Provider} {i : ℕ} {errors : List Failure} {s : State}
        {r : CallResult} {parsed : Parsed}
        → (ask p s).0 ≡ returned r
        → validate (payload_of env validate c args redaction r) ≡ some parsed
        → Tried
            (p ∷ ps)
            i
            errors
            s
            (ok (finish env validate c args redaction i parsed r (ask p s).1).0)
            (finish env validate c args redaction i parsed r (ask p s).1).1

  pub try_chain-Tried :
      (ps : List Provider) (i : ℕ) (errors : List Failure) (s : State)
      → let (out, t) = try_chain env validate c args redaction ps i errors s in
        Tried ps i errors s out t
  unfolding try_chain
  try_chain-Tried [] i errors s = exhausted
  try_chain-Tried (p ∷ ps) i errors s =
      elim (Attempted-cases (ask p s).0
        (call_provider-ne-assertion env c.config args.spec (prompt_to_send args redaction) p s)) [
          | inl (r, h) ↦
              elim (Option-cases (validate (payload_of env validate c args redaction r))) [
                | inl bad ↦
                    rw (h, try_chain) (rw bad (invalid h bad (try_chain-Tried ps (i + 1) _ _)))
                | inr (parsed, good) ↦ rw (h, try_chain) (rw good (answered h good))
              ]
          | inr (inr h) ↦ rw (h, try_chain) (crashed h)
          | inr (inl (e, h)) ↦ rw (h, try_chain) (unavailable h (try_chain-Tried ps (i + 1) _ _))
        ]

module _ {Parsed : Type 0} (env : Env) (validate : Fields → Option Parsed) (c : Client)
    (args : Arguments) where
  -- The state after the budget check.
  abbrev pub checked : State → State
  checked s = (check_budget env s).1

  abbrev pub redaction_of : Option RedactionResult
  redaction_of = redact args (active_sanitizer c args)

  -- The ways in which a call ends.
  pub data Ended (s : State) : Result CallError (Response Parsed) → State → Type 0 where
    over_budget :
        {e : BudgetExceeded}
        → (check_budget env s).0 ≡ err e
        → Ended s (err (budget_exceeded e)) (checked s)
    refused :
        {e : CallError} {u : Unit {0}}
        → (check_budget env s).0 ≡ ok u
        → check_reidentify args (active_sanitizer c args) ≡ err e
        → Ended s (err e) (checked s)
    tried :
        {u v : Unit {0}} {out : Result CallError (Response Parsed)} {t : State}
        → (check_budget env s).0 ≡ ok u
        → check_reidentify args (active_sanitizer c args) ≡ ok v
        → Tried env validate c args redaction_of (c.primary ∷ c.fallbacks) 0 [] (checked s) out t
        → Ended s out t

  pub call-Ended : (s : State) → let (out, t) = call env validate c args s in Ended s out t
  unfolding call
  call-Ended s = elim (Result-cases (check_budget env s).0) [
    | inr (spent, h) ↦ rw (h, call) (over_budget h)
    | inl (within, h) ↦ elim (Result-cases (check_reidentify args (active_sanitizer c args))) [
      | inr (e, g) ↦ rw (h, call) (rw g (refused h g))
      | inl (allowed, g) ↦
          rw (h, call)
            (rw g (
              tried h g (
                try_chain-Tried env validate c args redaction_of (c.primary ∷ c.fallbacks) 0 []
                  (checked s))))
    ]
  ]
