-- ===== src/Classify/Traffic.antt =====
-- What a classification sends to providers.
use briefed.Base.{
  ℕ, [], ◌≡◌, refl, ap, ◌∙◌, String, Bool, true, false, Option, none, some, leb, Option-cases, inl,
  inr, if◌then◌else◌, All-map, not,
}
use briefed.Base.Result.{Result, ok, err, Result-cases}
use briefed.Redaction.{Sanitizer}
use briefed.Tables.{Email, Db}
use briefed.Rubric.Engine.{RuleDecision, RuleEngine, EngineError, evaluate}
use briefed.Llm.Attempts
use briefed.Llm.Attempts.{Request}
use briefed.Llm.Attempts.Traffic.{Sends, Sends-none}
use briefed.Llm.Client.{
  CallError, Response, provider_exception, assertion_failed, budget_exceeded, needs_sanitizer,
  flow_not_allowed, every_provider_failed, active_sanitizer, call,
}
use briefed.Llm.Client.Privacy.{allowance, call-Sends_redacted}
use briefed.Llm.Prompt.{render_prompt}
use briefed.Classify.Repository.{ClassificationWrite}
use briefed.Classify.Types.{
  TriageDecision, Runtime, ClassifyInputs, ClassifyOutcome, State, Outcome, missing_variable,
  rule_error, low_confidence_threshold, find_email, find_account,
}
use briefed.Classify.Writes.{rule_write, rule_outcome}
use briefed.Classify.{
  log_calls, protected_user_override, row_to_boundary, excerpt_for, prompt_variables, log_skipped,
  persist, persist_answer, call_arguments, ask_model, decide_by_rules, classify_row, classify_one,
}

-- The prompt is a sanitizer's text of some rendered prompt.
abbrev pub IsSanitized : Sanitizer → Request → Type 0
IsSanitized z r = (rendered : String) × (r.prompt ≡ (z.sanitize rendered).text)

-- The rules found nothing, or nothing that they are sure of.
abbrev pub is_doubtful : Option RuleDecision → Bool
is_doubtful none = true
is_doubtful (some d) = not (leb low_confidence_threshold d.confidence)

-- No model is asked: the row is the user's, or the rules are sure or raise.
abbrev pub is_settled : Runtime → ClassifyInputs → RuleEngine → Db → Email → Bool
is_settled runtime inputs engine db row = elim (protected_user_override inputs.email_id db) [
  | some outcome ↦ true
  | none ↦ elim (evaluate runtime.python engine (row_to_boundary row)) [
    | err e ↦ true
    | ok decision ↦ not (is_doubtful decision)
  ]
]

persist-llm :
    (inputs : ClassifyInputs) (w : ClassificationWrite) (outcome : ClassifyOutcome) (s : State)
    → (persist inputs w outcome s).1.llm ≡ s.llm
unfolding persist
persist-llm inputs w outcome s = refl

persist_answer-llm :
    (runtime : Runtime) (inputs : ClassifyInputs) (decision : Option RuleDecision)
    (answer : Result CallError (Response TriageDecision)) (s : State)
    → (persist_answer runtime inputs decision answer s).1.llm ≡ s.llm
unfolding persist_answer persist
persist_answer-llm runtime inputs decision (ok response) s = refl
persist_answer-llm runtime inputs decision (err provider_exception) s = refl
persist_answer-llm runtime inputs decision (err assertion_failed) s = refl
persist_answer-llm runtime inputs decision (err (budget_exceeded e)) s = refl
persist_answer-llm runtime inputs decision (err needs_sanitizer) s = refl
persist_answer-llm runtime inputs decision (err flow_not_allowed) s = refl
persist_answer-llm runtime inputs decision (err (every_provider_failed failures)) s = refl

module _ (runtime : Runtime) (inputs : ClassifyInputs) (engine : RuleEngine)
    (run_id : Option String) (z : Sanitizer) (masks : inputs.llm.sanitizer ≡ some z)
    (s : State) where
  abbrev pub Sent : ℕ → Outcome → Type 0
  Sent n r = Sends (IsSanitized z) n s.llm r.1.llm

  answer-Sent :
      (decision : Option RuleDecision) (rendered : String)
      → let (answer, llm) =
          call runtime.env runtime.validate inputs.llm
            (call_arguments inputs run_id rendered)
            (record s.llm { rows = [] }) in
        Sent (allowance inputs.llm) (
          persist_answer runtime inputs decision answer
            (record { db = log_calls runtime run_id llm.rows s.db; llm = llm }))
  unfolding active_sanitizer
  answer-Sent decision rendered =
      let args = call_arguments inputs run_id rendered in
      let fresh : Attempts.State = record s.llm { rows = [] } in
      let asked = call runtime.env runtime.validate inputs.llm args fresh in
      let (new, e, ours, le) =
        call-Sends_redacted runtime.env runtime.validate inputs.llm args z fresh masks in
      (
        new,
        ap (λ (llm : Attempts.State). llm.requests)
              (persist_answer-llm runtime inputs decision asked.0
                (record { db = log_calls runtime run_id asked.1.rows s.db; llm = asked.1 }))
            ∙ e,
        All-map (λ r h. (rendered, h)) new ours,
        le,
      )

  rendered-Sent :
      (decision : Option RuleDecision) (rendered : Option String)
      → Sent (allowance inputs.llm) (elim rendered [
        | none ↦ (err missing_variable, s)
        | some prompt ↦
            let (answer, llm) =
              call runtime.env runtime.validate inputs.llm
                (call_arguments inputs run_id prompt)
                (record s.llm { rows = [] }) in
            persist_answer runtime inputs decision answer
              (record { db = log_calls runtime run_id llm.rows s.db; llm = llm })
      ])
  rendered-Sent decision none = Sends-none s.llm s.llm refl
  rendered-Sent decision (some rendered) = answer-Sent decision rendered

  ask_model-Sent :
      (decision : Option RuleDecision) (row : Email)
      → Sent (allowance inputs.llm) (ask_model runtime inputs run_id decision row s)
  unfolding ask_model
  ask_model-Sent decision row = elim (Result-cases (excerpt_for runtime inputs row)) [
    | inl (excerpt, e) ↦
        rw (e, ask_model)
          (rendered-Sent decision (
            render_prompt runtime.set_order inputs.prompt
              (prompt_variables runtime decision row excerpt)))
    | inr (x, e) ↦ rw (e, ask_model) (Sends-none s.llm s.llm refl)
  ]

  by_confidence-Sent :
      (sure : Bool) (x y : Outcome)
      → x.1.llm.requests ≡ s.llm.requests
      → Sent (allowance inputs.llm) y
      → Sent (if not (not sure) then 0 else allowance inputs.llm) (if sure then x else y)
  by_confidence-Sent true x y e h = Sends-none s.llm x.1.llm e
  by_confidence-Sent false x y e h = h

  decide_by_rules-Sent :
      (decision : Option RuleDecision) (row : Email)
      → Sent
          (if not (is_doubtful decision) then 0 else allowance inputs.llm)
          (decide_by_rules runtime inputs run_id row decision s)
  unfolding decide_by_rules log_skipped
  decide_by_rules-Sent none row = ask_model-Sent none row
  decide_by_rules-Sent (some d) row =
      let logged = log_skipped runtime inputs run_id s in
      by_confidence-Sent (leb low_confidence_threshold d.confidence)
        (persist inputs (rule_write runtime inputs d) (rule_outcome inputs d) logged)
        (ask_model runtime inputs run_id (some d) row s)
        (ap (λ (llm : Attempts.State). llm.requests)
          (persist-llm inputs (rule_write runtime inputs d) (rule_outcome inputs d) logged))
        (ask_model-Sent (some d) row)

  evaluated-Sent :
      (row : Email) (decided : Result EngineError (Option RuleDecision))
      → Sent
          (if elim decided [ err e ↦ true | ok decision ↦ not (is_doubtful decision) ]
            then 0
            else allowance inputs.llm)
          (elim decided [
            | err e ↦ (err (rule_error e), s)
            | ok decision ↦ decide_by_rules runtime inputs run_id row decision s
          ])
  evaluated-Sent row (err e) = Sends-none s.llm s.llm refl
  evaluated-Sent row (ok decision) = decide_by_rules-Sent decision row

  classify_row-Sent :
      (row : Email)
      → Sent
          (if is_settled runtime inputs engine s.db row then 0 else allowance inputs.llm)
          (classify_row runtime inputs engine run_id row s)
  unfolding classify_row
  classify_row-Sent row = elim (Option-cases (find_account row.account_id s.db.accounts)) [
    | inl e ↦ rw (e, classify_row) (Sends-none s.llm s.llm refl)
    | inr (account, e) ↦ elim (Option-cases (protected_user_override inputs.email_id s.db)) [
      | inl free ↦
          rw (e, free, classify_row, is_settled)
            (evaluated-Sent row (evaluate runtime.python engine (row_to_boundary row)))
      | inr (outcome, own) ↦ rw (e, own, classify_row) (Sends-none s.llm s.llm refl)
    ]
  ]

  -- With a sanitizer on the client, every request that a classification sends carries the sanitizer's
  -- text of a rendered prompt, and there are at most `max_retries + 1` for each provider of the chain;
  -- there are none where the row is the user's, or the rules are sure or raise.
  pub classify_one-Sent :
      (row : Email)
      → find_email inputs.email_id s.db.emails ≡ some row
      → Sent
          (if is_settled runtime inputs engine s.db row then 0 else allowance inputs.llm)
          (classify_one runtime inputs engine run_id s)
  unfolding classify_one
  classify_one-Sent row found = rw (found, classify_one) (classify_row-Sent row)
