-- ===== src/Llm/Client/Privacy.antt =====
-- What a call lets out: which prompts reach the providers, and how often.
use briefed.Base.{
  ℕ, suc, ◌+◌, ◌*◌, ◌≡◌, Option, some, List, arith, length, All-map, String, ap, subst,
}
use briefed.Base.Result.{Result}
use briefed.Redaction.{RedactionResult, Sanitizer}
use briefed.Llm.Types.{Fields, CallResult, Provider}
use briefed.Llm.Attempts.{Env, State, Request, fail}
use briefed.Llm.Attempts.Traffic.{
  Sends, Sends-none, Sends-trans, Sends-le, call_provider-Sends, requests-fail,
}
use briefed.Llm.Client.{
  Client, Arguments, Failure, CallError, Response, active_sanitizer, redact, prompt_to_send, finish,
  charge, check_budget, call,
}
use briefed.Llm.Client.Tried.{
  Tried, exhausted, unavailable, crashed, invalid, answered, ask, redaction_of, Ended, over_budget,
  refused, tried, call-Ended,
}

-- A request whose prompt is the given one.
abbrev pub HasPrompt : String → Request → Type 0
HasPrompt prompt r = r.prompt ≡ prompt

-- The requests of a call, at most `max_retries + 1` for each provider of the chain.
abbrev pub allowance : Client → ℕ
allowance c = suc (length c.fallbacks) * (c.config.max_retries + 1)

module _ {Parsed : Type 0} (env : Env) (validate : Fields → Option Parsed) (c : Client)
    (args : Arguments) (redaction : Option RedactionResult) where
  abbrev prompt : String
  prompt = prompt_to_send args redaction

  abbrev per_provider : ℕ
  per_provider = c.config.max_retries + 1

  ask-Sends :
      (p : Provider) (s : State)
      → Sends (HasPrompt prompt) per_provider s (ask env validate c args redaction p s).1
  ask-Sends p s =
      let (new, e, ours, l) = call_provider-Sends env c.config args.spec prompt p s in
      (new, e, All-map (λ r h. h.1) new ours, l)

  requests-finish :
      (i : ℕ) (parsed : Parsed) (r : CallResult) (s : State)
      → (finish env validate c args redaction i parsed r s).1.requests ≡ s.requests
  unfolding finish charge
  requests-finish i parsed r s = ground arith

  Tried-Sends :
      {ps : List Provider} {i : ℕ} {errors : List Failure} {s t : State}
      {out : Result CallError (Response Parsed)}
      → Tried env validate c args redaction ps i errors s out t
      → Sends (HasPrompt prompt) (length ps * per_provider) s t
  Tried-Sends {s = s} {t = t} exhausted = Sends-none s t (ground arith)
  Tried-Sends {s = s} {t = t} (unavailable {p} {ps} h rest) =
      let m : State = (ask env validate c args redaction p s).1 in
      Sends-le s t (omega arith) (Sends-trans s m t (ask-Sends p s) (Tried-Sends rest))
  Tried-Sends {s = s} {t = t} (crashed {p} {ps} h) = Sends-le s t (omega arith) (ask-Sends p s)
  Tried-Sends {s = s} {t = t} (invalid {p} {ps} h bad rest) =
      let m : State = (ask env validate c args redaction p s).1 in
      let failed =
        Sends-trans s m (fail env p.name m) (ask-Sends p s)
          (Sends-none {n = 0} m (fail env p.name m) (requests-fail env p.name m)) in
      Sends-le s t (omega arith) (Sends-trans s (fail env p.name m) t failed (Tried-Sends rest))
  Tried-Sends {s = s} {t = t} (answered {p} {ps} {i} {r = r} {parsed = parsed} h good) =
      let m : State = (ask env validate c args redaction p s).1 in
      Sends-le s t (omega arith)
        (Sends-trans s m t (ask-Sends p s) (Sends-none {n = 0} m t (requests-finish i parsed r m)))

module _ {Parsed : Type 0} (env : Env) (validate : Fields → Option Parsed) (c : Client)
    (args : Arguments) where
  requests-check_budget : (s : State) → (check_budget env s).1.requests ≡ s.requests
  unfolding check_budget
  requests-check_budget s = ground arith

  abbrev redaction : Option RedactionResult
  redaction = redaction_of env validate c args

  Ended-Sends :
      {s t : State} {out : Result CallError (Response Parsed)}
      → Ended env validate c args s out t
      → Sends (HasPrompt (prompt_to_send args redaction)) (allowance c) s t
  Ended-Sends {s} {t} (over_budget h) = Sends-none s t (requests-check_budget s)
  Ended-Sends {s} {t} (refused h g) = Sends-none s t (requests-check_budget s)
  Ended-Sends {s} {t} (tried h g run) =
      let s1 : State = (check_budget env s).1 in
      Sends-le s t (omega arith) (
        Sends-trans s s1 t (Sends-none {n = 0} s s1 (requests-check_budget s))
          (Tried-Sends env validate c args redaction run))

  -- With a sanitizer active, every request that a call sends to any provider, on any attempt, has
  -- as its prompt the sanitizer's text and not the rendered prompt; and a call sends at most
  -- `max_retries + 1` requests for each provider of the chain.
  pub call-Sends_redacted :
      (z : Sanitizer) (s : State)
      → active_sanitizer c args ≡ some z
      → Sends
          (HasPrompt (z.sanitize args.rendered_prompt).text)
          (allowance c)
          s
          (call env validate c args s).1
  unfolding redact prompt_to_send
  call-Sends_redacted z s e =
      let same : prompt_to_send args redaction ≡ (z.sanitize args.rendered_prompt).text =
        ap (λ a. prompt_to_send args (redact args a)) e in
      subst (λ prompt. Sends (HasPrompt prompt) (allowance c) s (call env validate c args s).1) same
        (Ended-Sends (call-Ended env validate c args s))
