-- ===== src/Classify/Ends.antt =====
-- How a classification ends.
use briefed.Base.{
  ◌≡◌, ◌≢◌, ◌≤◌, List, [], ◌∷◌, ◌++◌, append-nil, map, length, All, ap, refl, sym, subst, ◌∙◌,
  String, Option, none, some, eq_iff, arith, inl, inr,
}
use briefed.Base.Result.{Result, ok, err, Result-cases}
use briefed.Tables.{Email, Classification, PromptCallLog, Db}
use briefed.Envelope.{Bytes, CryptoError, decrypt_excerpt}
use briefed.Rubric.Engine.{RuleDecision, RuleEngine, EngineError, evaluate}
use briefed.Llm.Client.{
  answer_row, failure_row, CallError, Response, provider_exception, assertion_failed,
  budget_exceeded, needs_sanitizer, flow_not_allowed, every_provider_failed,
}
use briefed.Llm.Attempts
use briefed.Llm.Types.{PromptCallRecord}
use briefed.Llm.Client.Outcome.{HasCrashed, Ends as CallEnds}
use briefed.Llm.Client.Tried.{redaction_of}
use briefed.Llm.Prompt.{render_prompt}
use briefed.Classify.Repository.{
  ClassificationWrite, encrypt_reasons, row_of, reasons_of, put, upsert,
}
use briefed.Classify.Types.{
  TriageDecision, Runtime, ClassifyInputs, ClassifyOutcome, ClassifyError, email_not_found,
  account_not_found, missing_variable, not_utf8, rule_error, crypto_error, Outcome, State,
  find_email, find_account, find_classification,
}
use briefed.Classify.Writes.{
  to_decimal, rule_write, rule_outcome, review_write, review_outcome, model_write, model_outcome,
}
use briefed.Classify.{
  protected_user_override, row_to_boundary, prompt_variables, persist, persist_answer, call_log,
  call_arguments, skipped_call,
}
use briefed.Classify.Rows.{find-put_row, find-put_row_other}

module _ (runtime : Runtime) (inputs : ClassifyInputs) (engine : RuleEngine)
    (run_id : Option String) (db : Db) where
  -- At most one row of the log, for this email and run.
  abbrev pub IsLogged : List PromptCallLog → Type 0
  IsLogged new =
      (length new ≤ 1)
      × All (λ (r : PromptCallLog). (r.email_id ≡ some inputs.email_id) × (r.run_id ≡ run_id)) new

  -- The tables with such rows, and a change to no row of `classifications` but this email's.
  pub record Leaves (db' : Db) : Type 0 where
    pub others :
        (id : String)
        → id ≢ inputs.email_id
        → find_classification id db'.classifications ≡ find_classification id db.classifications
    pub new : List PromptCallLog
    pub logged : IsLogged new
    pub calls : db'.prompt_calls ≡ db.prompt_calls ++ new
    pub tables :
        record db' { classifications = db.classifications; prompt_calls = db.prompt_calls } ≡ db

  -- The email is classified as the outcome says; a row that the user chose is as it was, and so are
  -- all tables then.
  pub record IsClassified (outcome : ClassifyOutcome) (db' : Db) : Type 0 where
    pub row : Classification
    pub found : find_classification inputs.email_id db'.classifications ≡ some row
    pub label : row.label ≡ outcome.label
    pub score : row.score ≡ to_decimal outcome.score
    pub source : row.decision_source ≡ outcome.decision_source
    pub protected :
        (c : Classification)
        → find_classification inputs.email_id db.classifications ≡ some c
        → c.model ≡ "user_override"
        → db' ≡ db
    pub leaves : Leaves db'

  -- Why a call raises.
  pub data Cause : ClassifyError → Type 0 where
    no_email : find_email inputs.email_id db.emails ≡ none → Cause email_not_found
    no_account :
        {row : Email}
        → find_email inputs.email_id db.emails ≡ some row
        → find_account row.account_id db.accounts ≡ none
        → Cause account_not_found
    rules_raise :
        {row : Email} {e : EngineError}
        → find_email inputs.email_id db.emails ≡ some row
        → evaluate runtime.python engine (row_to_boundary row) ≡ err e
        → Cause (rule_error e)
    no_utf8 :
        {row : Email} (bytes : Bytes)
        → find_email inputs.email_id db.emails ≡ some row
        → decrypt_excerpt inputs.content_cipher row.plain_text_excerpt_ct row.id inputs.user_id
          ≡ ok bytes
        → runtime.decode bytes ≡ none
        → Cause not_utf8
    no_variable :
        {row : Email} (decision : Option RuleDecision) (excerpt : String)
        → find_email inputs.email_id db.emails ≡ some row
        → render_prompt runtime.set_order inputs.prompt
            (prompt_variables runtime decision row excerpt)
          ≡ none
        → Cause missing_variable
    crash :
        (prompt : String)
        → HasCrashed runtime.env runtime.validate inputs.llm
            (call_arguments inputs run_id prompt)
            (redaction_of runtime.env runtime.validate inputs.llm
              (call_arguments inputs run_id prompt))
            (inputs.llm.primary ∷ inputs.llm.fallbacks)
        → Cause ClassifyError.provider_exception
    no_encryption :
        (w : ClassificationWrite) {e : CryptoError}
        → encrypt_reasons inputs.repo w.reasons inputs.email_id inputs.user_id ≡ err e
        → Cause (crypto_error e)

  abbrev pub IsUnprotected : Type 0
  IsUnprotected =
      (c : Classification)
      → find_classification inputs.email_id db.classifications ≡ some c
      → c.model ≢ "user_override"

  -- Where a call raises, no classification is written, but for the email's row before its reasons are
  -- encrypted, which the user has not chosen then.
  abbrev pub Unwritten : ClassifyError → Db → Type 0
  Unwritten (crypto_error e) db' = IsUnprotected
  Unwritten _ db' = db'.classifications ≡ db.classifications

  abbrev pub ClassifyEnds : Outcome → Type 0
  ClassifyEnds (ok outcome, t) = IsClassified outcome t.db
  ClassifyEnds (err e, t) = Cause e × Leaves t.db × Unwritten e t.db

  -- What `persist` is given.
  pub record Describes (w : ClassificationWrite) (outcome : ClassifyOutcome) : Type 0 where
    pub email : w.email_id ≡ inputs.email_id
    pub user : w.user_id ≡ inputs.user_id
    pub label : w.label ≡ outcome.label
    pub score : w.score ≡ to_decimal outcome.score
    pub source : w.decision_source ≡ outcome.decision_source

  -- The tables with more rows in the log.
  abbrev pub with_calls : List PromptCallLog → Db
  with_calls new = record db { prompt_calls = db.prompt_calls ++ new }

  Leaves-with_calls : (new : List PromptCallLog) → IsLogged new → Leaves (with_calls new)
  Leaves-with_calls new logged = record {
    others = λ id ne. refl;
    new = new;
    logged = logged;
    calls = refl;
    tables = refl;
  }

  pub Leaves-same : Leaves db
  Leaves-same = record {
    others = λ id ne. refl;
    new = [];
    logged = (omega arith, tt);
    calls = sym (append-nil db.prompt_calls);
    tables = refl;
  }

  Leaves-put :
      (w : ClassificationWrite) (reasons_ct : Option Bytes) (new : List PromptCallLog)
      → IsLogged new
      → w.email_id ≡ inputs.email_id
      → Leaves (put w reasons_ct (with_calls new))
  unfolding row_of
  Leaves-put w reasons_ct new logged own = record {
    others = λ id ne.
        find-put_row_other id (row_of w reasons_ct) (λ e. ne (sym e ∙ own)) db.classifications;
    new = new;
    logged = logged;
    calls = refl;
    tables = refl;
  }

  persist_stored :
      (w : ClassificationWrite) (outcome : ClassifyOutcome) (st : State) (ciphertext : Bytes)
      → encrypt_reasons inputs.repo w.reasons w.email_id w.user_id ≡ ok ciphertext
      → persist inputs w outcome st ≡ (ok outcome, record st { db = put w (some ciphertext) st.db })
  unfolding persist upsert
  persist_stored w outcome st ciphertext h = rw (h, persist, upsert) refl

  persist_raised :
      (w : ClassificationWrite) (outcome : ClassifyOutcome) (st : State) (e : CryptoError)
      → encrypt_reasons inputs.repo w.reasons w.email_id w.user_id ≡ err e
      → persist inputs w outcome st ≡ (
        err (crypto_error e),
        record st { db = put w (reasons_of w.email_id st.db.classifications) st.db },
      )
  unfolding persist upsert
  persist_raised w outcome st e h = rw (h, persist, upsert) refl

  pub persist-ClassifyEnds :
      (w : ClassificationWrite) (outcome : ClassifyOutcome) (new : List PromptCallLog)
      (llm : Attempts.State)
      → IsLogged new
      → IsUnprotected
      → Describes w outcome
      → ClassifyEnds (persist inputs w outcome (record { db = with_calls new; llm = llm }))
  unfolding row_of
  persist-ClassifyEnds w outcome new llm logged free d =
      let st : State = record { db = with_calls new; llm = llm } in
      elim (Result-cases (encrypt_reasons inputs.repo w.reasons w.email_id w.user_id)) [
        | inl (c, e) ↦ subst ClassifyEnds (sym (persist_stored w outcome st c e)) (record {
          row = row_of w (some c);
          found = find-put_row inputs.email_id (row_of w (some c)) d.email db.classifications;
          label = d.label;
          score = d.score;
          source = d.source;
          protected = λ c e own. absurd (free c e own);
          leaves = Leaves-put w (some c) new logged d.email;
        })
        | inr (x, e) ↦ subst ClassifyEnds (sym (persist_raised w outcome st x e)) (
          no_encryption w (
              subst (λ u. encrypt_reasons inputs.repo w.reasons inputs.email_id u ≡ err x) d.user
                (subst (λ m. encrypt_reasons inputs.repo w.reasons m w.user_id ≡ err x) d.email e)),
          Leaves-put w (reasons_of w.email_id db.classifications) new logged d.email,
          free,
        )
      ]

  pub rule-Describes :
      (d : RuleDecision) → Describes (rule_write runtime inputs d) (rule_outcome inputs d)
  unfolding rule_write rule_outcome
  rule-Describes d = record { email = refl; user = refl; label = refl; score = refl; source = refl }

  review-Describes :
      (reason : String) → Describes (review_write inputs reason) (review_outcome inputs)
  unfolding review_write review_outcome to_decimal
  review-Describes reason = record {
    email = refl;
    user = refl;
    label = refl;
    score = refl;
    source = refl;
  }

  model-Describes :
      (decision : Option RuleDecision) (response : Response TriageDecision)
      → Describes
          (model_write runtime inputs decision response)
          (model_outcome inputs decision response)
  unfolding model_write model_outcome
  model-Describes decision response = record {
    email = refl;
    user = refl;
    label = refl;
    score = refl;
    source = refl;
  }

  -- No row of the user's is found: the override is not in force.
  pub unprotected : protected_user_override inputs.email_id db ≡ none → IsUnprotected
  unfolding protected_user_override
  unprotected free c found own = ground (arith, free, found, own, eq_iff c.model "user_override")

  IsLogged-one :
      (call_record : PromptCallRecord)
      → call_record.email_id ≡ some inputs.email_id
      → IsLogged (map (call_log runtime run_id) (call_record ∷ []))
  unfolding call_log
  IsLogged-one call_record own = (omega arith, ((own, refl), tt))

  IsLogged-rows :
      (rows : List PromptCallRecord) (call_record : PromptCallRecord)
      → rows ≡ call_record ∷ []
      → call_record.email_id ≡ some inputs.email_id
      → IsLogged (map (call_log runtime run_id) rows)
  IsLogged-rows rows call_record e own =
      subst (λ rs. IsLogged (map (call_log runtime run_id) rs)) (sym e)
        (IsLogged-one call_record own)

  IsLogged-none :
      (rows : List PromptCallRecord) → rows ≡ [] → IsLogged (map (call_log runtime run_id) rows)
  IsLogged-none rows e =
      subst (λ rs. IsLogged (map (call_log runtime run_id) rs)) (sym e) (omega arith, tt)

  pub IsLogged-skipped : IsLogged (map (call_log runtime run_id) (skipped_call inputs run_id ∷ []))
  unfolding skipped_call
  IsLogged-skipped = IsLogged-one (skipped_call inputs run_id) refl

  -- The tables after a call of the client.
  abbrev pub after_call : Attempts.State → Db
  after_call llm = with_calls (map (call_log runtime run_id) llm.rows)

  pub persist_answer-ClassifyEnds :
      (decision : Option RuleDecision) (prompt : String)
      (answer : Result CallError (Response TriageDecision)) (llm llm' : Attempts.State)
      → IsUnprotected
      → llm.rows ≡ []
      → CallEnds runtime.env runtime.validate inputs.llm
          (call_arguments inputs run_id prompt)
          llm
          answer
          llm'
      → ClassifyEnds (
          persist_answer runtime inputs decision answer
            (record { db = after_call llm'; llm = llm' }))
  unfolding persist_answer answer_row failure_row
  persist_answer-ClassifyEnds decision prompt (ok response) llm llm' free none_yet (answers, rows) =
      let own = ap (λ (r : PromptCallRecord). r.email_id) answers.row in
      persist-ClassifyEnds (model_write runtime inputs decision response)
        (model_outcome inputs decision response) _ llm'
        (IsLogged-rows llm'.rows response.row (rows ∙ ap (λ rs. response.row ∷ rs) none_yet) own)
        free (model-Describes decision response)
  persist_answer-ClassifyEnds decision prompt (err provider_exception) llm llm' free none_yet
        (crashed, rows) =
      (crash prompt crashed, Leaves-with_calls _ (IsLogged-none llm'.rows (rows ∙ none_yet)), refl)
  persist_answer-ClassifyEnds decision prompt (err assertion_failed) llm llm' free none_yet ends =
      absurd ends
  persist_answer-ClassifyEnds decision prompt (err (budget_exceeded e)) llm llm' free none_yet
        same =
      persist-ClassifyEnds (review_write inputs _) (review_outcome inputs) _ llm'
        (IsLogged-none llm'.rows (same.rows ∙ none_yet)) free (review-Describes _)
  persist_answer-ClassifyEnds decision prompt (err needs_sanitizer) llm llm' free none_yet same =
      persist-ClassifyEnds (review_write inputs _) (review_outcome inputs) _ llm'
        (IsLogged-none llm'.rows (same.rows ∙ none_yet)) free (review-Describes _)
  persist_answer-ClassifyEnds decision prompt (err flow_not_allowed) llm llm' free none_yet same =
      persist-ClassifyEnds (review_write inputs _) (review_outcome inputs) _ llm'
        (IsLogged-none llm'.rows (same.rows ∙ none_yet)) free (review-Describes _)
  persist_answer-ClassifyEnds decision prompt (err (every_provider_failed failures)) llm llm' free
        none_yet (named, rows) =
      let args = call_arguments inputs run_id prompt in
      let row =
        failure_row inputs.llm args (redaction_of runtime.env runtime.validate inputs.llm args) in
      persist-ClassifyEnds (review_write inputs _) (review_outcome inputs) _ llm'
        (IsLogged-rows llm'.rows row (rows ∙ ap (λ rs. row ∷ rs) none_yet) refl) free
        (review-Describes _)
