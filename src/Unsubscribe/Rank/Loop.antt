-- ===== src/Unsubscribe/Rank/Loop.antt =====
-- The loop of `rank_senders` of backend/app/services/unsubscribe/aggregator.py over the senders.
use mathlib.Core.List.{Memᴰ}
use mathlib.Core.List.Memᴰ.{head, tail}
use briefed.Base.{
  ◌+◌, ◌≡◌, ◌≢◌, ◌⊎◌, inl, inr, refl, ap, ◌∙◌, String, List, [], ◌∷◌, Option, some, length, arith,
  All,
}
use briefed.Base.Result.{Result, ok, err}
use briefed.Rubric.Texts.{Text}
use briefed.Unsubscribe.Senders.{SenderStats, score_sender}
use briefed.Unsubscribe.Suggestions.{UnsubscribeSuggestion, row_of}
use briefed.Unsubscribe.Rank.{
  Runtime, RankInputs, RankOutcome, RankError, State, rule_write, rank_sender, rank_all,
}
use briefed.Unsubscribe.Rank.Single.{
  counted, hits, Cause, Ranked, raised, kept, ruled, modelled, rank_sender-Ranked,
}
use briefed.Unsubscribe.Rank.Rows.{
  find_row, is_dismissed, when_dismissed, Changed, Changed-trans, rank_sender-Changed,
  find_row-put_row_self,
}

module _ (runtime : Runtime) (inputs : RankInputs) where
  -- A sender with all three criteria has a row.
  abbrev pub HasRow : SenderStats → State → Type 0
  HasRow t st =
      (r : UnsubscribeSuggestion) × (find_row inputs.account_id t.sender_email st.suggestions
        ≡ some r)

  abbrev pub IsServed : State → SenderStats → Type 0
  IsServed st t = (hits t ≢ 3) ⊎ HasRow t st

  module _ (a : String) (s : Text) where
    -- What a loop over some senders leaves.
    abbrev pub Left : List SenderStats → RankOutcome → State → RankOutcome → State → Type 0
    Left stats c st c' st' =
        Changed runtime inputs stats a s (find_row a s st.suggestions)
          (find_row a s st'.suggestions)
        × (counted c' ≡ counted c + length stats)
        × (c'.candidates ≡ c.candidates)

    -- How a loop ends: with the rows that it leaves, or for a cause of one of its senders.
    abbrev pub Ends :
        List SenderStats → RankOutcome → State → Result RankError RankOutcome × State → Type 0
    Ends stats c st (err e, st') = (t : SenderStats) × Memᴰ t stats × Cause runtime inputs t c st e
    Ends stats c st (ok c', st') = Left stats c st c' st'

    Left-cons :
        (t : SenderStats) (stats : List SenderStats) (c c1 c' : RankOutcome) (st s1 st' : State)
        → Ranked runtime inputs t c st (ok c1, s1)
        → Left stats c1 s1 c' st'
        → Left (t ∷ stats) c st c' st'
    Left-cons t stats c c1 c' st s1 st' ranked (changed, n, same) =
        let (one_more, nobody) = tally ranked in
        (
          Changed-trans runtime inputs a s t stats (find_row a s st.suggestions)
              (find_row a s s1.suggestions) (find_row a s st'.suggestions)
              (rank_sender-Changed runtime inputs a s t c c1 st s1 ranked) changed,
          omega arith,
          same ∙ nobody,
        )
      where
        tally :
            Ranked runtime inputs t c st (ok c1, s1)
            → (counted c1 ≡ counted c + 1) × (c1.candidates ≡ c.candidates)
        tally (kept _ _ other e n) = n
        tally (ruled ciphertext _ _ three e n) = n
        tally (modelled response ciphertext _ _ given two other e n) = n

    Ends-cons :
        (t : SenderStats) (stats : List SenderStats) (c c1 : RankOutcome) (st s1 : State)
        (p : Result RankError RankOutcome × State)
        → Ranked runtime inputs t c st (ok c1, s1)
        → Ends stats c1 s1 p
        → Ends (t ∷ stats) c st p
    Ends-cons t stats c c1 st s1 (err e, st') ranked (u, listed, cause) =
        (u, tail listed, again e cause)
      where
        again : (e : RankError) → Cause runtime inputs u c1 s1 e → Cause runtime inputs u c st e
        again RankError.account_not_found h = h
        again RankError.missing_variable h = h
        again RankError.provider_exception h = h
        again RankError.client_assertion h = h
        again (RankError.crypto_error x) h = h
    Ends-cons t stats c c1 st s1 (ok c', st') ranked left =
        Left-cons t stats c c1 c' st s1 st' ranked left

    after_sender :
        (t : SenderStats) (stats : List SenderStats) (c : RankOutcome) (st : State)
        (p : Result RankError RankOutcome × State)
        → Ranked runtime inputs t c st p
        → ((c1 : RankOutcome)
            → (s1 : State) → Ends stats c1 s1 (rank_all runtime inputs stats c1 s1))
        → Ends
            (t ∷ stats)
            c
            st
            (elim p.0 [ err e ↦ (err e, p.1) | ok c1 ↦ rank_all runtime inputs stats c1 p.1 ])
    after_sender t stats c st (err e, s1) (raised _ _ cause) rest = (t, head refl, cause)
    after_sender t stats c st (ok c1, s1) ranked rest =
        Ends-cons t stats c c1 st s1 (rank_all runtime inputs stats c1 s1) ranked (rest c1 s1)

    pub rank_all-Ends :
        (stats : List SenderStats) (c : RankOutcome) (st : State)
        → Ends stats c st (rank_all runtime inputs stats c st)
    unfolding rank_all
    rank_all-Ends [] c st = (inl refl, omega arith, refl)
    rank_all-Ends (t ∷ stats) c st =
        after_sender t stats c st (rank_sender runtime inputs t c st)
          (rank_sender-Ranked runtime inputs t c st) (λ c1 s1. rank_all-Ends stats c1 s1)

  Changed-some :
      (a : String) (s : Text) (stats : List SenderStats) (old new : Option UnsubscribeSuggestion)
      → Changed runtime inputs stats a s old new
      → (r : UnsubscribeSuggestion) × (old ≡ some r)
      → (r : UnsubscribeSuggestion) × (new ≡ some r)
  Changed-some a s stats old new (inl same) (r, e) = (r, same ∙ e)
  Changed-some a s stats old new (inr (own, (t, listed, sender, (q, e, k)))) (r, e') = (q, e)

  rank_sender-IsServed :
      (t : SenderStats) (c c' : RankOutcome) (st st' : State)
      → Ranked runtime inputs t c st (ok c', st')
      → IsServed st' t
  unfolding rule_write
  rank_sender-IsServed t c c' st st' (kept _ _ other same n) = inl other
  rank_sender-IsServed t c c' st st' (modelled response ciphertext _ _ given two other e n) =
      inl other
  rank_sender-IsServed t c c' st st' (ruled ciphertext _ _ three e n) =
      let w = rule_write runtime inputs t (score_sender t) in
      let old = find_row inputs.account_id t.sender_email st.suggestions in
      inr (
        row_of w ciphertext (is_dismissed old) (when_dismissed old),
        ap (find_row inputs.account_id t.sender_email) e
            ∙ find_row-put_row_self w ciphertext st.suggestions,
      )

  -- Where a loop ends without an error, each of its senders is served.
  abbrev pub Served : List SenderStats → Result RankError RankOutcome × State → Type 0
  Served stats (err e, st') = Unit {0}
  Served stats (ok c', st') = All (IsServed st') stats

  Served-cons :
      (t : SenderStats) (stats : List SenderStats) (c c1 : RankOutcome) (st s1 : State)
      (p : Result RankError RankOutcome × State)
      → Ranked runtime inputs t c st (ok c1, s1)
      → Ends inputs.account_id t.sender_email stats c1 s1 p
      → Served stats p
      → Served (t ∷ stats) p
  Served-cons t stats c c1 st s1 (err e, st') ranked ends rest = tt
  Served-cons t stats c c1 st s1 (ok c', st') ranked ends rest =
      (on_to_the_end (rank_sender-IsServed t c c1 st s1 ranked), rest)
    where
      on_to_the_end : IsServed s1 t → IsServed st' t
      on_to_the_end (inl other) = inl other
      on_to_the_end (inr row) = inr (
          Changed-some inputs.account_id t.sender_email stats
            (find_row inputs.account_id t.sender_email s1.suggestions)
            (find_row inputs.account_id t.sender_email st'.suggestions) ends.0 row)

  Served-after_sender :
      (t : SenderStats) (stats : List SenderStats) (c : RankOutcome) (st : State)
      (p : Result RankError RankOutcome × State)
      → Ranked runtime inputs t c st p
      → ((c1 : RankOutcome) → (s1 : State) → Served stats (rank_all runtime inputs stats c1 s1))
      → Served
          (t ∷ stats)
          (elim p.0 [ err e ↦ (err e, p.1) | ok c1 ↦ rank_all runtime inputs stats c1 p.1 ])
  Served-after_sender t stats c st (err e, s1) ranked rest = tt
  Served-after_sender t stats c st (ok c1, s1) ranked rest =
      Served-cons t stats c c1 st s1 (rank_all runtime inputs stats c1 s1) ranked
        (rank_all-Ends inputs.account_id t.sender_email stats c1 s1) (rest c1 s1)

  pub rank_all-Served :
      (stats : List SenderStats) (c : RankOutcome) (st : State)
      → Served stats (rank_all runtime inputs stats c st)
  unfolding rank_all
  rank_all-Served [] c st = tt
  rank_all-Served (t ∷ stats) c st =
      Served-after_sender t stats c st (rank_sender runtime inputs t c st)
        (rank_sender-Ranked runtime inputs t c st) (λ c1 s1. rank_all-Served stats c1 s1)
