-- ===== src/Unsubscribe/Rank/Rows.antt =====
-- The table of suggestions under the upserts of `rank_senders` of
-- backend/app/services/unsubscribe/aggregator.py.
use mathlib.Core.List.{Memᴰ}
use mathlib.Core.List.Memᴰ
use mathlib.Core.List.Memᴰ.{head, tail}
use briefed.Base.{
  ℕ, ◌≤◌, ◌≡◌, ◌≢◌, ◌⊎◌, inl, inr, refl, sym, ap, ◌∙◌, String, List, [], ◌∷◌, Bool, true, false,
  ◌&&◌, Option, none, some, str_eq, eq_iff, if◌then◌else◌, arith, Bool-cases,
}
use briefed.Base.Result.{ok}
use briefed.Rubric.Texts.{Text, equals}
use briefed.Envelope.{Bytes}
use briefed.Unsubscribe.Header.Parsed.{equals→eq, equals_refl}
use briefed.Llm.Client.{Response}
use briefed.Unsubscribe.Senders.{SenderStats, score_sender, round_half_even}
use briefed.Unsubscribe.Suggestions.{
  UnsubscribeSuggestion, UnsubscribeSuggestionWrite, row_of, is_row, put_row,
}
use briefed.Unsubscribe.Rank.{
  UnsubscribeDecision, Runtime, RankInputs, RankOutcome, State, rule_write, model_write,
  gated_confidence, quantize, policy_gate_min,
}
use briefed.Unsubscribe.Rank.Single.{hits, IsAnswer, Ranked, kept, ruled, modelled}

abbrev pub find_row : String → Text → List UnsubscribeSuggestion → Option UnsubscribeSuggestion
find_row a s [] = none
find_row a s (row ∷ rows) = if is_row a s row then some row else find_row a s rows

-- The dismissal that a row carries on.
abbrev pub is_dismissed : Option UnsubscribeSuggestion → Bool
is_dismissed none = false
is_dismissed (some row) = row.dismissed

abbrev pub when_dismissed : Option UnsubscribeSuggestion → Option ℕ
when_dismissed none = none
when_dismissed (some row) = row.dismissed_at

pub find_row-put_row_self :
    (w : UnsubscribeSuggestionWrite) (ciphertext : Bytes) (rows : List UnsubscribeSuggestion)
    → let old = find_row w.account_id w.sender_email rows in
      find_row w.account_id w.sender_email (put_row w ciphertext rows)
      ≡ some (row_of w ciphertext (is_dismissed old) (when_dismissed old))
unfolding put_row row_of
find_row-put_row_self w ciphertext [] =
    ground (arith, eq_iff w.account_id w.account_id, equals_refl w.sender_email)
find_row-put_row_self w ciphertext (row ∷ rows) = ground (
  arith,
  find_row-put_row_self w ciphertext rows,
  eq_iff w.account_id w.account_id,
  equals_refl w.sender_email,
)

find_row-put_row_other :
    (w : UnsubscribeSuggestionWrite) (ciphertext : Bytes) (a : String) (s : Text)
    (rows : List UnsubscribeSuggestion)
    → (str_eq w.account_id a && equals w.sender_email s) ≡ false
    → find_row a s (put_row w ciphertext rows) ≡ find_row a s rows
unfolding put_row row_of
find_row-put_row_other w ciphertext a s [] other = ground arith
find_row-put_row_other w ciphertext a s (row ∷ rows) other = ground (
  arith,
  find_row-put_row_other w ciphertext a s rows,
  eq_iff row.account_id w.account_id,
  equals→eq row.sender_email w.sender_email,
)

-- The model's confidence, which a veto caps at 0.200.
abbrev pub IsGated : UnsubscribeDecision → ℕ → Type 0
IsGated d confidence =
    ((d.should_recommend ≡ true) × (confidence ≡ quantize d.confidence))
    ⊎ ((d.should_recommend ≡ false)
        × (confidence ≤ 200)
        × (d.confidence ≤ policy_gate_min → confidence ≡ quantize d.confidence))

-- How a suggestion was decided on, for a sender that meets at least two criteria: by the rules with all
-- three; else by an answer of the model, whose confidence is gated.
abbrev pub IsDecided : Runtime → RankInputs → SenderStats → UnsubscribeSuggestion → Type 0
IsDecided runtime inputs t r =
    ((hits t ≡ 3) × (r.decision_source ≡ "rule") × (r.confidence ≡ 900))
    ⊎ ((2 ≤ hits t)
        × (hits t ≢ 3)
        × (r.decision_source ≡ "model")
        × ((response : Response UnsubscribeDecision) × IsAnswer runtime inputs t response
            × IsGated response.parsed r.confidence))

-- A row for a sender's statistics, which carries on the dismissal of the row before it.
pub record IsSuggested (runtime : Runtime) (inputs : RankInputs) (t : SenderStats)
    (old : Option UnsubscribeSuggestion) (r : UnsubscribeSuggestion) : Type 0 where
  pub account : r.account_id ≡ inputs.account_id
  pub sender : r.sender_email ≡ t.sender_email
  pub frequency : r.frequency_30d ≡ t.frequency_30d
  pub engagement : r.engagement_score ≡ t.engagement_score
  pub wasted : r.waste_rate ≡ t.waste_rate
  pub action : r.list_unsubscribe ≡ t.list_unsubscribe
  pub decided : IsDecided runtime inputs t r
  pub dismissed : r.dismissed ≡ is_dismissed old
  pub dismissed_at : r.dismissed_at ≡ when_dismissed old

IsGated-gated_confidence : (d : UnsubscribeDecision) → IsGated d (gated_confidence d)
unfolding gated_confidence quantize round_half_even
IsGated-gated_confidence d = elim (Bool-cases d.should_recommend) [
  | inl yes_please ↦ inl (yes_please, ground arith)
  | inr veto ↦ inr (veto, ground arith, λ small. ground arith)
]

module _ (runtime : Runtime) (inputs : RankInputs) where
  -- The row of a key stays, or becomes one for a sender of the statistics.
  abbrev pub Changed :
      List SenderStats
      → String
      → Text
      → Option UnsubscribeSuggestion
      → Option UnsubscribeSuggestion
      → Type 0
  Changed stats a s old new =
      (new ≡ old)
      ⊎ ((inputs.account_id ≡ a)
          × ((t : SenderStats) × Memᴰ t stats
              × (t.sender_email ≡ s)
              × ((r : UnsubscribeSuggestion) × (new ≡ some r)
                  × IsSuggested runtime inputs t old r)))

  module _ (a : String) (s : Text) where
    put-Changed :
        (t : SenderStats) (w : UnsubscribeSuggestionWrite) (ciphertext : Bytes)
        (rows rows' : List UnsubscribeSuggestion)
        → w.account_id ≡ inputs.account_id
        → w.sender_email ≡ t.sender_email
        → rows' ≡ put_row w ciphertext rows
        → ((old : Option UnsubscribeSuggestion)
            → IsSuggested runtime inputs t old
                (row_of w ciphertext (is_dismissed old) (when_dismissed old)))
        → Changed (t ∷ []) a s (find_row a s rows) (find_row a s rows')
    put-Changed t w ciphertext rows rows' own sender e suggested =
        elim (Bool-cases (str_eq w.account_id a && equals w.sender_email s)) [
          | inr other ↦
              inl (ap (find_row a s) e ∙ find_row-put_row_other w ciphertext a s rows other)
          | inl same ↦
              let old = find_row a s rows in
              let ours : w.account_id ≡ a = (eq_iff w.account_id a).0 (ground arith) in
              let theirs : w.sender_email ≡ s = equals→eq w.sender_email s (ground arith) in
              let found : find_row a s rows'
                  ≡ some (row_of w ciphertext (is_dismissed old) (when_dismissed old)) =
                ap (find_row a s) e ∙ cc (find_row-put_row_self w ciphertext rows) in
              inr (
                sym own ∙ ours,
                (
                  t,
                  head refl,
                  sym sender ∙ theirs,
                  (
                    row_of w ciphertext (is_dismissed old) (when_dismissed old),
                    found,
                    suggested old,
                  ),
                ),
              )
        ]

    pub rank_sender-Changed :
        (t : SenderStats) (c c' : RankOutcome) (st st' : State)
        → Ranked runtime inputs t c st (ok c', st')
        → Changed (t ∷ []) a s (find_row a s st.suggestions) (find_row a s st'.suggestions)
    unfolding rule_write model_write row_of
    rank_sender-Changed t c c' st st' (kept _ _ other same n) = inl (ap (find_row a s) same)
    rank_sender-Changed t c c' st st' (ruled ciphertext _ _ three e n) =
        put-Changed t (rule_write runtime inputs t (score_sender t)) ciphertext st.suggestions
          st'.suggestions refl refl e
          (λ old. record {
            account = refl;
            sender = refl;
            frequency = refl;
            engagement = refl;
            wasted = refl;
            action = refl;
            decided = inl (three, refl, refl);
            dismissed = refl;
            dismissed_at = refl;
          })
    rank_sender-Changed t c c' st st' (modelled response ciphertext _ _ given two other e n) =
        put-Changed t (model_write inputs t response) ciphertext st.suggestions st'.suggestions refl
          refl e
          (λ old. record {
            account = refl;
            sender = refl;
            frequency = refl;
            engagement = refl;
            wasted = refl;
            action = refl;
            decided =
                inr (two, other, refl, (response, given, IsGated-gated_confidence response.parsed));
            dismissed = refl;
            dismissed_at = refl;
          })

    -- A change that follows another one.
    pub Changed-trans :
        (t : SenderStats) (stats : List SenderStats) (old mid new : Option UnsubscribeSuggestion)
        → Changed (t ∷ []) a s old mid
        → Changed stats a s mid new
        → Changed (t ∷ stats) a s old new
    Changed-trans t stats old mid new first (inr (own, (u, listed, sender, (r, e, k)))) =
        let kept_on = same_dismissal first in
        inr (
          own,
          (
            u,
            tail listed,
            sender,
            (
              r,
              e,
              record {
                account = k.account;
                sender = k.sender;
                frequency = k.frequency;
                engagement = k.engagement;
                wasted = k.wasted;
                action = k.action;
                decided = k.decided;
                dismissed = k.dismissed ∙ kept_on.0;
                dismissed_at = k.dismissed_at ∙ kept_on.1;
              },
            ),
          ),
        )
      where
        same_dismissal :
            Changed (t ∷ []) a s old mid
            → (is_dismissed mid ≡ is_dismissed old) × (when_dismissed mid ≡ when_dismissed old)
        same_dismissal (inl same) = (ap is_dismissed same, ap when_dismissed same)
        same_dismissal (inr (o, (v, l, sd, (q, eq, kq)))) =
            (ap is_dismissed eq ∙ kq.dismissed, ap when_dismissed eq ∙ kq.dismissed_at)
    Changed-trans t stats old mid new (inl same) (inl e) = inl (e ∙ same)
    Changed-trans t stats old mid new (inr (own, (u, listed, sender, (r, found, k)))) (inl e) =
        inr (own, (u, widen listed, sender, (r, e ∙ found, k)))
      where
        widen : {u : SenderStats} → Memᴰ u (t ∷ []) → Memᴰ u (t ∷ stats)
        widen m = elim (Memᴰ.cases_cons m) [
          | inl e ↦ head e
          | inr later ↦ absurd (Memᴰ.not-nil later)
        ]
