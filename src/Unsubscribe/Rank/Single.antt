-- ===== src/Unsubscribe/Rank/Single.antt =====
-- What the loop of `rank_senders` of backend/app/services/unsubscribe/aggregator.py does with one sender.
use briefed.Base.{
  ℕ, ◌+◌, ◌≤◌, ◌≡◌, ◌≢◌, refl, sym, subst, String, Option, none, some, ◌∷◌, arith, ltb, ◌==◌, inl,
  inr, if-elim,
}
use briefed.Base.Result.{Result, ok, err, Result-cases}
use briefed.Llm.Attempts
use briefed.Llm.Client.{
  CallError, Response, provider_exception, assertion_failed, budget_exceeded, needs_sanitizer,
  flow_not_allowed, every_provider_failed, call,
}
use briefed.Llm.Client.Outcome.{HasCrashed, Ends, call-Ends}
use briefed.Llm.Client.Tried.{redaction_of}
use briefed.Llm.Prompt.{render_prompt}
use briefed.Envelope.{Bytes, CryptoError}
use briefed.Unsubscribe.Senders.{SenderStats, score_sender}
use briefed.Unsubscribe.Suggestions.{UnsubscribeSuggestionWrite, encrypt_rationale, put_row, upsert}
use briefed.Unsubscribe.Rank.{
  UnsubscribeDecision, Runtime, RankInputs, RankOutcome, RankError, State, borderline_variables,
  rule_write, model_write, call_arguments, persist, persist_answer, ask_model, rank_sender,
}

-- Senders that were counted.
abbrev pub counted : RankOutcome → ℕ
counted c = c.rule_recommendations + (c.model_recommendations + (c.skipped + c.llm_errors))

abbrev pub hits : SenderStats → ℕ
hits t = (score_sender t).hit_count

-- The client answered the prompt that is rendered for the sender.
abbrev pub IsAnswer : Runtime → RankInputs → SenderStats → Response UnsubscribeDecision → Type 0
IsAnswer runtime inputs t response =
    (prompt : String) × (render_prompt runtime.set_order inputs.prompt
        (borderline_variables runtime t (score_sender t))
      ≡ some prompt)
    × ((llm : Attempts.State) × ((call runtime.env runtime.validate inputs.llm
            (call_arguments inputs prompt) llm).0
          ≡ ok response))

module _ (runtime : Runtime) (inputs : RankInputs) (t : SenderStats) (c : RankOutcome)
    (s : State) where
  -- One sender more is counted, and nobody is added.
  abbrev pub Counts : RankOutcome → Type 0
  Counts c' = (counted c' ≡ counted c + 1) × (c'.candidates ≡ c.candidates)

  abbrev encrypted : UnsubscribeSuggestionWrite → Result CryptoError Bytes
  encrypted w = encrypt_rationale inputs.repo w.rationale w.account_id w.sender_email w.user_id

  -- Why a sender's turn may raise: the prompt names another variable, a provider of the chain raises an
  -- exception that is no `LLMProviderError`, or a rationale cannot be encrypted.
  abbrev pub Cause : RankError → Type 0
  Cause RankError.account_not_found = ⊥
  Cause RankError.client_assertion = ⊥
  Cause RankError.provider_exception =
      (prompt : String) × HasCrashed runtime.env runtime.validate inputs.llm
        (call_arguments inputs prompt)
        (redaction_of runtime.env runtime.validate inputs.llm (call_arguments inputs prompt))
        (inputs.llm.primary ∷ inputs.llm.fallbacks)
  Cause RankError.missing_variable =
      render_prompt runtime.set_order inputs.prompt
        (borderline_variables runtime t (score_sender t))
      ≡ none
  Cause (RankError.crypto_error e) =
      (w : UnsubscribeSuggestionWrite) × (w.sender_email ≡ t.sender_email) × (encrypted w ≡ err e)

  -- How the body of the loop ends.
  pub data Ranked : Result RankError RankOutcome × State → Type 0 where
    raised : (e : RankError) (s' : State) → Cause e → Ranked (err e, s')
    kept :
        (c' : RankOutcome) (s' : State)
        → hits t ≢ 3
        → s'.suggestions ≡ s.suggestions
        → Counts c'
        → Ranked (ok c', s')
    ruled :
        (ciphertext : Bytes) (c' : RankOutcome) (s' : State)
        → hits t ≡ 3
        → s'.suggestions
          ≡ put_row (rule_write runtime inputs t (score_sender t)) ciphertext s.suggestions
        → Counts c'
        → Ranked (ok c', s')
    modelled :
        (response : Response UnsubscribeDecision) (ciphertext : Bytes) (c' : RankOutcome)
        (s' : State)
        → IsAnswer runtime inputs t response
        → 2 ≤ hits t
        → hits t ≢ 3
        → s'.suggestions ≡ put_row (model_write inputs t response) ciphertext s.suggestions
        → Counts c'
        → Ranked (ok c', s')

  persist_raised :
      (w : UnsubscribeSuggestionWrite) (c' : RankOutcome) (s1 : State)
      → (e : CryptoError) → encrypted w ≡ err e
      → persist inputs w c' s1 ≡ (err (RankError.crypto_error e), s1)
  unfolding persist upsert
  persist_raised w c' s1 e h = ground arith

  persist_written :
      (w : UnsubscribeSuggestionWrite) (c' : RankOutcome) (s1 : State) (ciphertext : Bytes)
      → encrypted w ≡ ok ciphertext
      → persist inputs w c' s1
        ≡ (ok c', record s1 { suggestions = put_row w ciphertext s1.suggestions })
  unfolding persist upsert
  persist_written w c' s1 ciphertext h = ground arith

  rule-Ranked :
      hits t ≡ 3
      → Ranked (
          persist inputs
            (rule_write runtime inputs t (score_sender t))
            (record c { rule_recommendations = c.rule_recommendations + 1 })
            s)
  rule-Ranked three =
      let w = rule_write runtime inputs t (score_sender t) in
      let c' : RankOutcome = record c { rule_recommendations = c.rule_recommendations + 1 } in
      elim (Result-cases (encrypted w)) [
        | inr (e, h) ↦
            subst Ranked (sym (persist_raised w c' s e h))
              (raised (RankError.crypto_error e) s (w, unfold rule_write in refl, h))
        | inl (ciphertext, h) ↦ subst Ranked (sym (persist_written w c' s ciphertext h)) (
            ruled ciphertext c' (record s { suggestions = put_row w ciphertext s.suggestions })
              three refl (omega arith, refl))
      ]

  llm_error-Ranked :
      (llm : Attempts.State)
      → hits t ≢ 3
      → Ranked (ok (record c { llm_errors = c.llm_errors + 1 }), record s { llm = llm })
  llm_error-Ranked llm other =
      kept (record c { llm_errors = c.llm_errors + 1 }) (record s { llm = llm }) other refl
        (omega arith, refl)

  answer-Ranked :
      (prompt : String) (answer : Result CallError (Response UnsubscribeDecision))
      (llm : Attempts.State)
      → render_prompt runtime.set_order inputs.prompt
          (borderline_variables runtime t (score_sender t))
        ≡ some prompt
      → (call runtime.env runtime.validate inputs.llm (call_arguments inputs prompt) s.llm).0
        ≡ answer
      → 2 ≤ hits t
      → hits t ≢ 3
      → Ends runtime.env runtime.validate inputs.llm (call_arguments inputs prompt) s.llm answer llm
      → Ranked (persist_answer inputs t c answer (record s { llm = llm }))
  unfolding persist_answer
  answer-Ranked prompt (ok response) llm rendered given two other ends =
      let w = model_write inputs t response in
      let c' : RankOutcome = record c { model_recommendations = c.model_recommendations + 1 } in
      let s1 : State = record s { llm = llm } in
      elim (Result-cases (encrypted w)) [
        | inr (e, h) ↦
            subst Ranked (sym (persist_raised w c' s1 e h))
              (raised (RankError.crypto_error e) s1 (w, unfold model_write in refl, h))
        | inl (ciphertext, h) ↦ subst Ranked (sym (persist_written w c' s1 ciphertext h)) (
            modelled response ciphertext c'
              (record s1 { suggestions = put_row w ciphertext s.suggestions })
              (prompt, rendered, (s.llm, given)) two other refl (omega arith, refl))
      ]
  answer-Ranked prompt (err provider_exception) llm rendered given two other ends =
      raised RankError.provider_exception (record s { llm = llm }) (prompt, ends.0)
  answer-Ranked prompt (err assertion_failed) llm rendered given two other ends = absurd ends
  answer-Ranked prompt (err (budget_exceeded e)) llm rendered given two other ends =
      llm_error-Ranked llm other
  answer-Ranked prompt (err needs_sanitizer) llm rendered given two other ends =
      llm_error-Ranked llm other
  answer-Ranked prompt (err flow_not_allowed) llm rendered given two other ends =
      llm_error-Ranked llm other
  answer-Ranked prompt (err (every_provider_failed failures)) llm rendered given two other ends =
      llm_error-Ranked llm other

  rendered-Ranked :
      (rendered : Option String)
      → render_prompt runtime.set_order inputs.prompt
          (borderline_variables runtime t (score_sender t))
        ≡ rendered
      → 2 ≤ hits t
      → hits t ≢ 3
      → Ranked (elim rendered [
        | none ↦ (err RankError.missing_variable, s)
        | some prompt ↦
            let (answer, llm) =
              call runtime.env runtime.validate inputs.llm (call_arguments inputs prompt) s.llm in
            persist_answer inputs t c answer (record s { llm = llm })
      ])
  rendered-Ranked none e two other = raised RankError.missing_variable s e
  rendered-Ranked (some prompt) e two other =
      let asked =
        call runtime.env runtime.validate inputs.llm (call_arguments inputs prompt) s.llm in
      answer-Ranked prompt asked.0 asked.1 e refl two other
        (call-Ends runtime.env runtime.validate inputs.llm (call_arguments inputs prompt) s.llm)

  ask_model-Ranked :
      2 ≤ hits t → hits t ≢ 3 → Ranked (ask_model runtime inputs t (score_sender t) c s)
  unfolding ask_model
  ask_model-Ranked two other =
      rendered-Ranked
        (render_prompt runtime.set_order inputs.prompt
          (borderline_variables runtime t (score_sender t)))
        refl two other

  pub rank_sender-Ranked : Ranked (rank_sender runtime inputs t c s)
  unfolding rank_sender
  rank_sender-Ranked =
      if-elim Ranked (ltb (hits t) 2)
        (λ few.
          kept (record c { skipped = c.skipped + 1 }) s (λ e. ground arith) refl
            (omega arith, refl))
        (λ two.
          if-elim Ranked (hits t == 3) (λ three. rule-Ranked (ground arith))
            (λ other. ask_model-Ranked (ground arith) (λ e. ground arith)))
