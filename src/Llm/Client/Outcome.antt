-- ===== src/Llm/Client/Outcome.antt =====
-- How a call ends: its result, its row, and what a refused call leaves alone.
use mathlib.Core.List.{Memᴰ}
use mathlib.Core.List.Memᴰ.{head, tail}
use briefed.Base.{
  suc, ◌+◌, length, ℕ, ◌≡◌, refl, ◌∙◌, true, Option, some, List, [], ◌∷◌, ◌++◌, map, arith, ltb,
  String, append_assoc, ap, sym, map-append, append-nil, if◌then◌else◌,
}
use briefed.Base.Result.{Result, ok, err}
use briefed.Redaction.{RedactionResult}
use briefed.Llm.Types.{Fields, CallResult, Provider, PromptCallRecord}
use briefed.Llm.Attempts.{Env, State, returned, escaped, fail}
use briefed.Llm.Attempts.Frame.{Keeps, call_provider-Keeps}
use briefed.Llm.Client.{
  Client, Arguments, Failure, provider_failed, schema_mismatch, CallError, Response,
  budget_exceeded, needs_sanitizer, flow_not_allowed, every_provider_failed, provider_exception,
  assertion_failed, active_sanitizer, check_reidentify, answer_row, prompt_to_send, failure_row,
  log_row, payload_of, finish, charge, check_budget, call,
}
use briefed.Llm.Client.Tried.{
  Tried, exhausted, unavailable, crashed, invalid, answered, ask, Ended, over_budget, refused,
  tried, redaction_of, call-Ended,
}

abbrev pub failed_name : Failure → String
failed_name (provider_failed name e) = name
failed_name (schema_mismatch name) = name

abbrev pub provider_name : Provider → String
provider_name p = p.name

-- The rows after one row was handed to `log_call`.
abbrev pub with_row : Arguments → PromptCallRecord → List PromptCallRecord → List PromptCallRecord
with_row args row rows = if args.logs then row ∷ rows else rows

-- Nothing was sent or logged, and no breaker or cap changed.
pub record Untouched (s t : State) : Type 0 where
  pub requests : t.requests ≡ s.requests
  pub rows : t.rows ≡ s.rows
  pub breakers : t.breakers ≡ s.breakers
  pub rate_caps : t.rate_caps ≡ s.rate_caps

plus_zero : (i : ℕ) → i ≡ i + 0
plus_zero i = omega arith

plus_one : (i n : ℕ) → i + 1 + n ≡ i + suc n
plus_one i n = omega arith

rows-fail : (env : Env) (name : String) (s : State) → (fail env name s).rows ≡ s.rows
unfolding fail
rows-fail env name s = refl

module _ {Parsed : Type 0} (env : Env) (validate : Fields → Option Parsed) (c : Client)
    (args : Arguments) (redaction : Option RedactionResult) where
  -- A response belongs to one answer: a provider of the chain gave it, at the place `index + i` where
  -- as many of them stand before it; its payload validated to what the response holds, and the row has
  -- that answer's figures and the status of that place.
  pub record Answers (index : ℕ) (ps : List Provider) (response : Response Parsed) : Type 0 where
    pub earlier : List Provider
    pub provider : Provider
    pub later : List Provider
    pub chain : ps ≡ earlier ++ provider ∷ later
    pub asked_in : State
    pub gave :
        (ask env validate c args redaction provider asked_in).0 ≡ returned response.call_result
    pub row : response.row ≡ answer_row args redaction (index + length earlier) response.call_result
    pub fallback_used : response.fallback_used ≡ ltb 0 (index + length earlier)
    pub validated :
        validate (payload_of env validate c args redaction response.call_result)
        ≡ some response.parsed

  -- A provider of the chain raised an exception that is no `LLMProviderError`.
  abbrev pub HasCrashed : List Provider → Type 0
  HasCrashed ps =
      (p : Provider) × Memᴰ p ps
      × ((m : State) × ((ask env validate c args redaction p m).0 ≡ escaped))

  -- The end of the loop that begins with the failures `errors` and the providers `ps` left.
  abbrev EndsLoop :
      List Provider → ℕ → List Failure → State → Result CallError (Response Parsed) → State → Type 0
  EndsLoop ps i errors s (ok response) t =
      Answers i ps response × (t.rows ≡ with_row args response.row s.rows)
  EndsLoop ps i errors s (err (every_provider_failed failures)) t =
      (map failed_name failures ≡ map failed_name errors ++ map provider_name ps)
      × (t.rows ≡ with_row args (failure_row c args redaction) s.rows)
  EndsLoop ps i errors s (err provider_exception) t = HasCrashed ps × (t.rows ≡ s.rows)
  EndsLoop ps i errors s (err _) t = ⊥

  rows-log_row :
      (row : PromptCallRecord) (s : State) → (log_row args row s).rows ≡ with_row args row s.rows
  rows-log_row row s = ground arith

  rows-finish :
      (i : ℕ) (parsed : Parsed) (r : CallResult) (s : State)
      → (finish env validate c args redaction i parsed r s).1.rows
        ≡ with_row args (answer_row args redaction i r) s.rows
  unfolding finish charge
  rows-finish i parsed r s = ground arith

  row-finish :
      (i : ℕ) (parsed : Parsed) (r : CallResult) (s : State)
      → (finish env validate c args redaction i parsed r s).0.row ≡ answer_row args redaction i r
  unfolding finish
  row-finish i parsed r s = refl

  Answers-finish :
      (i : ℕ) (p : Provider) (ps : List Provider) (parsed : Parsed) (r : CallResult) (m s : State)
      → (ask env validate c args redaction p m).0 ≡ returned r
      → validate (payload_of env validate c args redaction r) ≡ some parsed
      → Answers i (p ∷ ps) (finish env validate c args redaction i parsed r s).0
  unfolding finish
  Answers-finish i p ps parsed r m s gave good = record {
    earlier = [];
    provider = p;
    later = ps;
    chain = refl;
    asked_in = m;
    gave = gave;
    row = ap (λ k. answer_row args redaction k r) (plus_zero i);
    fallback_used = ap (ltb 0) (plus_zero i);
    validated = good;
  }

  -- The place of a provider in a chain with one more before it.
  Answers-later :
      (i : ℕ) (p : Provider) (ps : List Provider) (response : Response Parsed)
      → Answers (i + 1) ps response
      → Answers i (p ∷ ps) response
  Answers-later i p ps response a =
      let moved = plus_one i (length a.earlier) in
      record {
        earlier = p ∷ a.earlier;
        provider = a.provider;
        later = a.later;
        chain = ap (λ qs. p ∷ qs) a.chain;
        asked_in = a.asked_in;
        gave = a.gave;
        row = a.row ∙ ap (λ k. answer_row args redaction k response.call_result) moved;
        fallback_used = a.fallback_used ∙ ap (ltb 0) moved;
        validated = a.validated;
      }

  asked : (p : Provider) (s : State) → Keeps p.name s (ask env validate c args redaction p s).1
  asked p s = call_provider-Keeps env c.config args.spec (prompt_to_send args redaction) p s

  EndsLoop-later :
      (p : Provider) (ps : List Provider) (i : ℕ) (errors : List Failure) (f : Failure)
      (s m : State) (out : Result CallError (Response Parsed)) (t : State)
      → failed_name f ≡ p.name
      → m.rows ≡ s.rows
      → EndsLoop ps (i + 1) (errors ++ f ∷ []) m out t
      → EndsLoop (p ∷ ps) i errors s out t
  EndsLoop-later p ps i errors f s m (ok response) t name same (answers, rows) =
      (Answers-later i p ps response answers, rows ∙ ap (with_row args response.row) same)
  EndsLoop-later p ps i errors f s m (err (every_provider_failed failures)) t name same
        (names, rows) =
      (
        names
            ∙ ap (λ ns. ns ++ map provider_name ps) (map-append failed_name errors (f ∷ []))
            ∙ append_assoc (map failed_name errors) (failed_name f ∷ []) (map provider_name ps)
            ∙ ap (λ n. map failed_name errors ++ n ∷ map provider_name ps) name,
        rows ∙ ap (with_row args (failure_row c args redaction)) same,
      )
  EndsLoop-later p ps i errors f s m (err (budget_exceeded e)) t name same h = absurd h
  EndsLoop-later p ps i errors f s m (err needs_sanitizer) t name same h = absurd h
  EndsLoop-later p ps i errors f s m (err flow_not_allowed) t name same h = absurd h
  EndsLoop-later p ps i errors f s m (err provider_exception) t name same ((q, m1, crash), rows) =
      ((q, tail m1, crash), rows ∙ same)
  EndsLoop-later p ps i errors f s m (err assertion_failed) t name same h = absurd h

  Tried-EndsLoop :
      {ps : List Provider} {i : ℕ} {errors : List Failure} {s t : State}
      {out : Result CallError (Response Parsed)}
      → Tried env validate c args redaction ps i errors s out t
      → EndsLoop ps i errors s out t
  Tried-EndsLoop {errors = errors} {s = s} exhausted =
      (sym (append-nil (map failed_name errors)), rows-log_row (failure_row c args redaction) s)
  Tried-EndsLoop {s = s} {t = t} {out = out}
        (unavailable {p} {ps} {i} {errors = errors} {e = e} h rest) =
      EndsLoop-later p ps i errors (provider_failed p.name e) s
        (ask env validate c args redaction p s).1 out t refl (asked p s).rows (Tried-EndsLoop rest)
  Tried-EndsLoop {s = s} {t = t} {out = out} (invalid {p} {ps} {i} {errors = errors} h bad rest) =
      let m : State = (ask env validate c args redaction p s).1 in
      EndsLoop-later p ps i errors (schema_mismatch p.name) s (fail env p.name m) out t refl
        (rows-fail env p.name m ∙ (asked p s).rows) (Tried-EndsLoop rest)
  Tried-EndsLoop {s = s} (crashed {p} h) = ((p, head refl, (s, h)), (asked p s).rows)
  Tried-EndsLoop {s = s} (answered {p} {ps} {i} {r = r} {parsed = parsed} h good) =
      let m : State = (ask env validate c args redaction p s).1 in
      (
        Answers-finish i p ps parsed r s m h good,
        rows-finish i parsed r m
            ∙ ap (with_row args (answer_row args redaction i r)) (asked p s).rows
            ∙ ap (λ row. with_row args row s.rows) (sym (row-finish i parsed r m)),
      )

module _ {Parsed : Type 0} (env : Env) (validate : Fields → Option Parsed) (c : Client)
    (args : Arguments) where
  abbrev redaction : Option RedactionResult
  redaction = redaction_of env validate c args

  -- What holds at the end of a call, by its result.
  abbrev pub Ends : State → Result CallError (Response Parsed) → State → Type 0
  Ends s (ok response) t =
      Answers env validate c args redaction 0 (c.primary ∷ c.fallbacks) response
      × (t.rows ≡ with_row args response.row s.rows)
  Ends s (err (every_provider_failed failures)) t =
      (map failed_name failures ≡ map provider_name (c.primary ∷ c.fallbacks))
      × (t.rows ≡ with_row args (failure_row c args redaction) s.rows)
  Ends s (err provider_exception) t =
      HasCrashed env validate c args redaction (c.primary ∷ c.fallbacks) × (t.rows ≡ s.rows)
  Ends s (err assertion_failed) t = ⊥
  Ends s (err _) t = Untouched s t

  checked-Untouched : (s : State) → Untouched s (check_budget env s).1
  unfolding check_budget
  checked-Untouched s = ground arith

  EndsLoop-Ends :
      (s m : State) (out : Result CallError (Response Parsed)) (t : State)
      → m.rows ≡ s.rows
      → EndsLoop env validate c args redaction (c.primary ∷ c.fallbacks) 0 [] m out t
      → Ends s out t
  EndsLoop-Ends s m (ok response) t same (a, rows) =
      (a, rows ∙ ap (with_row args response.row) same)
  EndsLoop-Ends s m (err (every_provider_failed failures)) t same (names, rows) =
      (names, rows ∙ ap (with_row args (failure_row c args redaction)) same)
  EndsLoop-Ends s m (err (budget_exceeded e)) t same h = absurd h
  EndsLoop-Ends s m (err needs_sanitizer) t same h = absurd h
  EndsLoop-Ends s m (err flow_not_allowed) t same h = absurd h
  EndsLoop-Ends s m (err provider_exception) t same (crash, rows) = (crash, rows ∙ same)
  EndsLoop-Ends s m (err assertion_failed) t same h = absurd h

  check_reidentify-Ends :
      (e : CallError) (s t : State)
      → check_reidentify args (active_sanitizer c args) ≡ err e
      → Untouched s t
      → Ends s (err e) t
  unfolding check_reidentify
  check_reidentify-Ends (budget_exceeded e) s t h u = u
  check_reidentify-Ends needs_sanitizer s t h u = u
  check_reidentify-Ends flow_not_allowed s t h u = u
  check_reidentify-Ends (every_provider_failed failures) s t h u = absurd (ground arith)
  check_reidentify-Ends provider_exception s t h u = absurd (ground arith)
  check_reidentify-Ends assertion_failed s t h u = ground arith

  Ended-Ends :
      {s t : State} {out : Result CallError (Response Parsed)}
      → Ended env validate c args s out t
      → Ends s out t
  Ended-Ends {s} (over_budget h) = checked-Untouched s
  Ended-Ends {s} {t} (refused {e} h g) = check_reidentify-Ends e s t g (checked-Untouched s)
  Ended-Ends {s} {t} {out} (tried h g run) =
      EndsLoop-Ends s (check_budget env s).1 out t (checked-Untouched s).rows
        (Tried-EndsLoop env validate c args redaction run)

  pub call-Ends : (s : State) → let (out, t) = call env validate c args s in Ends s out t
  call-Ends s = Ended-Ends (call-Ended env validate c args s)

  abbrev pub IsRefused : Result CallError (Response Parsed) → Type 0
  IsRefused (err (budget_exceeded e)) = Unit
  IsRefused (err needs_sanitizer) = Unit
  IsRefused (err flow_not_allowed) = Unit
  IsRefused _ = ⊥

  abbrev RefusesFlow : Result CallError (Unit {0}) → Type 0
  RefusesFlow (ok _) = ⊥
  RefusesFlow (err e) = IsRefused (err e)

  check_reidentify-IsRefused :
      args.reidentify ≡ true
      → (r : Result CallError (Unit {0})) → check_reidentify args (active_sanitizer c args) ≡ r
      → RefusesFlow r
  unfolding check_reidentify
  check_reidentify-IsRefused on (ok u) h = ground arith
  check_reidentify-IsRefused on (err (budget_exceeded e)) h = tt
  check_reidentify-IsRefused on (err needs_sanitizer) h = tt
  check_reidentify-IsRefused on (err flow_not_allowed) h = tt
  check_reidentify-IsRefused on (err (every_provider_failed failures)) h = ground arith
  check_reidentify-IsRefused on (err provider_exception) h = ground arith
  check_reidentify-IsRefused on (err assertion_failed) h = ground arith

  Ended-IsRefused :
      {s t : State} {out : Result CallError (Response Parsed)}
      → args.reidentify ≡ true
      → Ended env validate c args s out t
      → IsRefused out × Untouched s t
  Ended-IsRefused {s} on (over_budget h) = (tt, checked-Untouched s)
  Ended-IsRefused {s} on (refused {e} h g) =
      (check_reidentify-IsRefused on (err e) g, checked-Untouched s)
  Ended-IsRefused on (tried {v = v} h g run) = absurd (check_reidentify-IsRefused on (ok v) g)

  -- With `reidentify=True` every call is refused, whatever its flow and sanitizer: it sends and logs
  -- nothing and leaves breakers and caps as they were.
  pub call_reidentify :
      (s : State)
      → args.reidentify ≡ true
      → let (out, t) = call env validate c args s in IsRefused out × Untouched s t
  call_reidentify s on = Ended-IsRefused on (call-Ended env validate c args s)
