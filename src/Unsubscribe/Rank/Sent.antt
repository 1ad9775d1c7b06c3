-- ===== src/Unsubscribe/Rank/Sent.antt =====
-- What `rank_senders` of backend/app/services/unsubscribe/aggregator.py sends to providers.
use briefed.Base.{
  ℕ, ◌+◌, ◌≡◌, refl, ap, ◌∙◌, String, List, [], ◌∷◌, Bool, true, false, not, ◌&&◌, Option, none,
  some, ltb, ◌==◌, if◌then◌else◌, arith, All-map, Option-cases, inl, inr,
}
use briefed.Base.Result.{Result, ok, err, Result-cases}
use briefed.Redaction.{Sanitizer}
use briefed.Tables.{Email, ConnectedAccount, Classification}
use briefed.Classify.Types.{find_account}
use briefed.Classify.Traffic.{IsSanitized}
use briefed.Llm.Attempts
use briefed.Llm.Attempts.Traffic.{Sends, Sends-none, Sends-trans, Sends-le}
use briefed.Llm.Client.{
  CallError, Response, provider_exception, assertion_failed, budget_exceeded, needs_sanitizer,
  flow_not_allowed, every_provider_failed, active_sanitizer, call,
}
use briefed.Llm.Client.Privacy.{allowance, call-Sends_redacted}
use briefed.Llm.Prompt.{render_prompt}
use briefed.Unsubscribe.Senders.{SenderStats, score_sender, aggregate_sender_stats}
use briefed.Unsubscribe.Suggestions.{UnsubscribeSuggestionWrite, encrypt_rationale, upsert}
use briefed.Unsubscribe.Rank.{
  UnsubscribeDecision, Runtime, RankInputs, RankOutcome, RankError, State, borderline_variables,
  rule_write, call_arguments, persist, persist_answer, ask_model, rank_sender, rank_all,
  rank_senders,
}

-- A sender that meets two criteria of the three.
abbrev pub is_borderline : SenderStats → Bool
is_borderline t = not (ltb (score_sender t).hit_count 2) && not ((score_sender t).hit_count == 3)

persist-llm :
    (inputs : RankInputs) (w : UnsubscribeSuggestionWrite) (c : RankOutcome) (s : State)
    → (persist inputs w c s).1.llm ≡ s.llm
unfolding persist upsert
persist-llm inputs w c s =
    elim (Result-cases
      (encrypt_rationale inputs.repo w.rationale w.account_id w.sender_email w.user_id)) [
        | inl (ciphertext, e) ↦ rw (e, persist, upsert) refl
        | inr (x, e) ↦ rw (e, persist, upsert) refl
      ]

persist_answer-llm :
    (inputs : RankInputs) (t : SenderStats) (c : RankOutcome)
    (answer : Result CallError (Response UnsubscribeDecision)) (s : State)
    → (persist_answer inputs t c answer s).1.llm ≡ s.llm
unfolding persist_answer
persist_answer-llm inputs t c (ok response) s = persist-llm inputs _ _ s
persist_answer-llm inputs t c (err provider_exception) s = refl
persist_answer-llm inputs t c (err assertion_failed) s = refl
persist_answer-llm inputs t c (err (budget_exceeded e)) s = refl
persist_answer-llm inputs t c (err needs_sanitizer) s = refl
persist_answer-llm inputs t c (err flow_not_allowed) s = refl
persist_answer-llm inputs t c (err (every_provider_failed failures)) s = refl

module _ (runtime : Runtime) (inputs : RankInputs) (z : Sanitizer)
    (masks : inputs.llm.sanitizer ≡ some z) where
  abbrev pub Sent : ℕ → State → Result RankError RankOutcome × State → Type 0
  Sent n s r = Sends (IsSanitized z) n s.llm r.1.llm

  rendered-Sent :
      (t : SenderStats) (c : RankOutcome) (s : State) (rendered : Option String)
      → Sent (allowance inputs.llm) s (elim rendered [
        | none ↦ (err RankError.missing_variable, s)
        | some prompt ↦
            let (answer, llm) =
              call runtime.env runtime.validate inputs.llm (call_arguments inputs prompt) s.llm in
            persist_answer inputs t c answer (record s { llm = llm })
      ])
  unfolding active_sanitizer
  rendered-Sent t c s none = Sends-none s.llm s.llm refl
  rendered-Sent t c s (some prompt) =
      let args = call_arguments inputs prompt in
      let asked = call runtime.env runtime.validate inputs.llm args s.llm in
      let (new, e, ours, le) =
        call-Sends_redacted runtime.env runtime.validate inputs.llm args z s.llm masks in
      (
        new,
        ap (λ (llm : Attempts.State). llm.requests)
              (persist_answer-llm inputs t c asked.0 (record s { llm = asked.1 }))
            ∙ e,
        All-map (λ r h. (prompt, h)) new ours,
        le,
      )

  ask_model-Sent :
      (t : SenderStats) (c : RankOutcome) (s : State)
      → Sent (allowance inputs.llm) s (ask_model runtime inputs t (score_sender t) c s)
  unfolding ask_model
  ask_model-Sent t c s = rendered-Sent t c s (
      render_prompt runtime.set_order inputs.prompt
        (borderline_variables runtime t (score_sender t)))

  -- The allowance for a sender.
  abbrev allowed : SenderStats → ℕ
  allowed t = if is_borderline t then allowance inputs.llm else 0

  by_hits-Sent :
      (few three : Bool) (s : State) (x y w : Result RankError RankOutcome × State)
      → x.1.llm ≡ s.llm
      → y.1.llm ≡ s.llm
      → Sent (allowance inputs.llm) s w
      → Sent
          (if not few && not three then allowance inputs.llm else 0)
          s
          (if few then x else if three then y else w)
  by_hits-Sent true three s x y w hx hy hw =
      Sends-none s.llm x.1.llm (ap (λ (llm : Attempts.State). llm.requests) hx)
  by_hits-Sent false true s x y w hx hy hw =
      Sends-none s.llm y.1.llm (ap (λ (llm : Attempts.State). llm.requests) hy)
  by_hits-Sent false false s x y w hx hy hw = hw

  rank_sender-Sent :
      (t : SenderStats) (c : RankOutcome) (s : State)
      → Sent (allowed t) s (rank_sender runtime inputs t c s)
  unfolding rank_sender
  rank_sender-Sent t c s =
      let score = score_sender t in
      by_hits-Sent (ltb score.hit_count 2) (score.hit_count == 3) s
        (ok (record c { skipped = c.skipped + 1 }), s)
        (persist inputs (rule_write runtime inputs t score)
          (record c { rule_recommendations = c.rule_recommendations + 1 }) s)
        (ask_model runtime inputs t score c s) refl (persist-llm inputs _ _ s)
        (ask_model-Sent t c s)

  -- The allowance for all of them.
  abbrev pub allowed_all : List SenderStats → ℕ
  allowed_all [] = 0
  allowed_all (t ∷ stats) = allowed t + allowed_all stats

  after_sender :
      (t : SenderStats) (stats : List SenderStats) (s : State)
      (p : Result RankError RankOutcome × State)
      → Sent (allowed t) s p
      → ((c1 : RankOutcome)
          → (s1 : State) → Sent (allowed_all stats) s1 (rank_all runtime inputs stats c1 s1))
      → Sent
          (allowed t + allowed_all stats)
          s
          (elim p.0 [ err e ↦ (err e, p.1) | ok c1 ↦ rank_all runtime inputs stats c1 p.1 ])
  after_sender t stats s (err e, s1) first rest = Sends-le s.llm s1.llm (omega arith) first
  after_sender t stats s (ok c1, s1) first rest =
      Sends-trans s.llm s1.llm (rank_all runtime inputs stats c1 s1).1.llm first (rest c1 s1)

  rank_all-Sent :
      (stats : List SenderStats) (c : RankOutcome) (s : State)
      → Sent (allowed_all stats) s (rank_all runtime inputs stats c s)
  unfolding rank_all
  rank_all-Sent [] c s = Sends-none s.llm s.llm refl
  rank_all-Sent (t ∷ stats) c s =
      after_sender t stats s (rank_sender runtime inputs t c s) (rank_sender-Sent t c s)
        (λ c1 s1. rank_all-Sent stats c1 s1)

  -- With a sanitizer on the client, every request that a ranking sends carries the sanitizer's text of
  -- a rendered prompt; and there are at most `max_retries + 1` for each provider of the chain and each
  -- sender that meets two criteria of the three, and none for the other senders.
  pub rank_senders-Sent :
      (now : ℕ) (accounts : List ConnectedAccount) (emails : List Email)
      (classifications : List Classification) (s : State)
      → Sent
          (allowed_all
            (aggregate_sender_stats runtime.collate inputs.account_id now emails classifications))
          s
          (rank_senders runtime inputs now accounts emails classifications s)
  unfolding rank_senders
  rank_senders-Sent now accounts emails classifications s =
      elim (Option-cases (find_account inputs.account_id accounts)) [
        | inl missing ↦ rw (missing, rank_senders) (Sends-none s.llm s.llm refl)
        | inr (account, found) ↦
            rw (found, rank_senders)
              (rank_all-Sent
                (aggregate_sender_stats runtime.collate inputs.account_id now emails
                  classifications)
                _ s)
      ]
