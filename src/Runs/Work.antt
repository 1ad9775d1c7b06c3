-- ===== src/Runs/Work.antt =====
-- What a call of `maybe_finalize_run` leaves alone.
use briefed.Base.{
  if-elim, ℕ, ◌≡◌, refl, ◌∙◌, String, List, [], ◌∷◌, Bool, false, not, ◌&&◌, some, is_some, str_eq,
  ◌==◌, arith, if◌then◌else◌,
}
use briefed.Tables.{DigestRun, Db, save_run}
use briefed.Runs.Progress.{
  RunProgressSnapshot, progress_snapshot, missing_categories, run_newsletters, find_by,
  summarized_since, pending_clusters_of, prompt_errors_of, cost_cents_of, is_unclassified,
  is_pending_summary, is_cluster_summary, has_summary, has_email_summary, has_fatal_error,
  is_non_empty_category, has_digest, classification_of, is_cluster_failure,
}
use briefed.Runs.Stages.{
  ClusterStep, CategoryStep, kept, claimed, queued, built, sent, dispatch_category-CategoryStep,
}
use briefed.Runs.{State, Senders, dispatch_category, dispatch_categories, category_stage}

-- The tables that hold the work of runs.
abbrev pub work : Db → Db
work db = record db {
  users = [];
  accounts = [];
  runs = [];
  hygiene_claims = [];
  digest_claims = [];
}

pub progress_snapshot-work :
    (db : Db) (user_id run_id : String) (account_ids : List String)
    → progress_snapshot db user_id run_id account_ids
      ≡ progress_snapshot (work db) user_id run_id account_ids
unfolding progress_snapshot missing_categories run_newsletters summarized_since pending_clusters_of
    prompt_errors_of cost_cents_of is_unclassified is_pending_summary is_cluster_summary has_summary
    has_email_summary has_fatal_error is_non_empty_category has_digest classification_of
    is_cluster_failure
progress_snapshot-work db user_id run_id [] = refl
progress_snapshot-work db user_id run_id (a ∷ ids) = refl

-- The row that is saved is the row that is found.
pub find_run-save_run :
    (run_id : String) (change : DigestRun → DigestRun)
    → ((r : DigestRun) → (change r).id ≡ r.id)
    → (runs : List DigestRun) (r : DigestRun) → find_by (λ x. str_eq x.id run_id) runs ≡ some r
    → find_by (λ x. str_eq x.id run_id) (save_run run_id change runs) ≡ some (change r)
unfolding save_run
find_run-save_run run_id change same [] r h = cc
find_run-save_run run_id change same (x ∷ runs) r h =
    ground (arith, find_run-save_run run_id change same runs r, same x)

-- With no inline build, a stage leaves the tables of the work alone.
abbrev pub Idle : State → Bool × State → Type 0
Idle s r = r.0 ≡ false → work r.1.db ≡ work s.db

pub ClusterStep-work :
    (now : ℕ) (run_id : String) (s s' : State)
    → ClusterStep now run_id s s'
    → work s'.db ≡ work s.db
ClusterStep-work now run_id s s' kept = refl
ClusterStep-work now run_id s s' (sent message) = refl

CategoryStep-Idle :
    (senders : Senders) (run_id category : String) (s : State) (r : Bool × State)
    → CategoryStep senders run_id category s r
    → Idle s r
CategoryStep-Idle senders run_id category s r kept idle = refl
CategoryStep-Idle senders run_id category s r (claimed won) idle = refl
CategoryStep-Idle senders run_id category s r (queued won) idle = refl
CategoryStep-Idle senders run_id category s r (built won build e) idle = cc

pub dispatch_categories-Idle :
    (senders : Senders) (run_id : String) (categories : List String) (s : State)
    → Idle s (dispatch_categories senders run_id categories s)
unfolding dispatch_categories
dispatch_categories-Idle senders run_id [] s idle = refl
dispatch_categories-Idle senders run_id (c ∷ cs) s idle =
    let first : Bool × State =
      if not senders.category_digest_sender && not (is_some senders.category_digest_builder)
      then (false, s)
      else dispatch_category senders run_id c s in
    let one : Idle s first =
      if-elim (Idle s) _ (λ _ _. refl)
        (λ _.
          CategoryStep-Idle senders run_id c s _
            (dispatch_category-CategoryStep senders run_id c s)) in
    let rest : Idle first.1 (dispatch_categories senders run_id cs first.1) =
      dispatch_categories-Idle senders run_id cs first.1 in
    rest (ground arith) ∙ one (ground arith)

pub category_stage-Idle :
    (senders : Senders) (run : DigestRun) (account_ids : List String)
    (snapshot : RunProgressSnapshot) (s : State)
    → Idle s (category_stage senders run account_ids snapshot s)
unfolding category_stage
category_stage-Idle senders run account_ids snapshot s =
    if-elim (Idle s) ((snapshot.pending_unclassified == 0) && (snapshot.pending_summaries == 0))
      (λ _. dispatch_categories-Idle senders run.id (missing_categories s.db run.id account_ids) s)
      (λ _ _. refl)
