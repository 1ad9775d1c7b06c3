-- ===== src/Unsubscribe/Rank/Table.antt =====
-- What a run of `rank_senders` of backend/app/services/unsubscribe/aggregator.py leaves in the table of
-- suggestions.
use mathlib.Core.List.{Memᴰ}
use briefed.Base.{
  ℕ, ◌≡◌, ◌⊎◌, inl, inr, refl, ◌∙◌, String, List, none, length, arith, All, Option-cases,
}
use briefed.Base.Result.{Result, ok, err}
use briefed.Rubric.Texts.{Text}
use briefed.Tables.{Email, ConnectedAccount, Classification}
use briefed.Classify.Types.{find_account}
use briefed.Unsubscribe.Senders.{SenderStats, aggregate_sender_stats}
use briefed.Unsubscribe.Rank.{
  Runtime, RankInputs, RankOutcome, RankError, State, rank_all, rank_senders,
}
use briefed.Unsubscribe.Rank.Single.{counted, Cause}
use briefed.Unsubscribe.Rank.Rows.{find_row, Changed}
use briefed.Unsubscribe.Rank.Loop.{Ends, Served, IsServed, rank_all-Ends, rank_all-Served}

-- What a ranking does to the row of a key, by how it ends: `stats` are the statistics of the account.
abbrev pub RankEnds :
    Runtime
    → RankInputs
    → List SenderStats
    → List ConnectedAccount
    → String
    → Text
    → State
    → Result RankError RankOutcome × State
    → Type 0
RankEnds runtime inputs stats accounts a s st (err e, st') =
    (find_account inputs.account_id accounts ≡ none)
    ⊎ ((t : SenderStats) × Memᴰ t stats × ((c : RankOutcome) × Cause runtime inputs t c st e))
RankEnds runtime inputs stats accounts a s st (ok c, st') =
    Changed runtime inputs stats a s (find_row a s st.suggestions) (find_row a s st'.suggestions)
    × (c.candidates ≡ length stats)
    × (counted c ≡ length stats)
    × All (IsServed runtime inputs st') stats

loop-RankEnds :
    (runtime : Runtime) (inputs : RankInputs) (stats : List SenderStats)
    (accounts : List ConnectedAccount) (a : String) (s : Text) (c : RankOutcome) (st : State)
    (r : Result RankError RankOutcome × State)
    → c.candidates ≡ length stats
    → counted c ≡ 0
    → Ends runtime inputs a s stats c st r
    → Served runtime inputs stats r
    → RankEnds runtime inputs stats accounts a s st r
loop-RankEnds runtime inputs stats accounts a s c st (err e, st') all zero (t, listed, cause)
      served =
    inr (t, listed, (c, cause))
loop-RankEnds runtime inputs stats accounts a s c st (ok c', st') all zero (changed, n, same)
      served =
    (changed, same ∙ all, omega arith, served)

-- A ranking raises only where the account is missing, or for one of its senders the prompt names
-- another variable, a provider raises an exception that is no `LLMProviderError`, or the rationale
-- cannot be encrypted. Else the row of an account and a sender is as
-- it was, or it is one of the ranked account, for a sender that meets two criteria or more, with the
-- numbers of that sender: by the rules with confidence 0.900 exactly for all three criteria, or by an
-- answer of the client to the prompt about that sender, with the answer's confidence, or at most 0.200
-- where it vetoes. A row that is replaced carries on
-- its dismissal, and a new one is not dismissed. Each sender is counted once, and each one with all
-- three criteria has a row.
pub rank_senders-RankEnds :
    (runtime : Runtime) (inputs : RankInputs) (now : ℕ) (accounts : List ConnectedAccount)
    (emails : List Email) (classifications : List Classification) (st : State) (a : String)
    (s : Text)
    → RankEnds runtime inputs
        (aggregate_sender_stats runtime.collate inputs.account_id now emails classifications)
        accounts
        a
        s
        st
        (rank_senders runtime inputs now accounts emails classifications st)
unfolding rank_senders
rank_senders-RankEnds runtime inputs now accounts emails classifications st a s =
    let stats =
      aggregate_sender_stats runtime.collate inputs.account_id now emails classifications in
    elim (Option-cases (find_account inputs.account_id accounts)) [
      | inl missing ↦ rw (missing, rank_senders) (inl missing)
      | inr (account, found) ↦
          let zero : RankOutcome = record {
            candidates = length stats;
            rule_recommendations = 0;
            model_recommendations = 0;
            skipped = 0;
            llm_errors = 0;
          } in
          rw (found, rank_senders)
            (loop-RankEnds runtime inputs stats accounts a s zero st
              (rank_all runtime inputs stats zero st) refl refl
              (rank_all-Ends runtime inputs a s stats zero st)
              (rank_all-Served runtime inputs stats zero st))
    ]
