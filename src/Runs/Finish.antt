-- ===== src/Runs/Finish.antt =====
-- How a call of `maybe_finalize_run` ends.
use mathlib.Core.List.{Memᴰ}
use mathlib.Core.List.Memᴰ
use briefed.Base.{
  if-elim, ℕ, ◌≡◌, ◌≢◌, refl, sym, ap, subst, ◌∙◌, String, List, [], ◌∷◌, Bool, true, false, not,
  ◌||◌, some, str_eq, eq_iff, ◌==◌, ltb, arith, Option-cases, inl, inr, if◌then◌else◌,
}
use briefed.Tables.{User, DigestRun, Db, save_user, save_run}
use briefed.Runs.Progress.{
  RunProgressSnapshot, progress_snapshot, pending_total, prompt_errors_of, find_by,
}
use briefed.Runs.{
  CategoryDigestMessage, State, Senders, find_run, account_scope, with_progress, finish_run,
  clear_user_lock, settle, cluster_stage, category_stage, finalize_run, is_terminal,
  maybe_finalize_run,
}
use briefed.Runs.Stages.{
  ClusterStep, CategoryStep, kept, sent, claimed, queued, built, with_enqueued,
  cluster_stage-ClusterStep, category_stage-keeps,
}
use briefed.Runs.Work.{
  work, progress_snapshot-work, find_run-save_run, ClusterStep-work, category_stage-Idle,
}

-- The inline builder writes no run.
abbrev pub KeepsRuns : Senders → Type 0
KeepsRuns senders =
    (build : CategoryDigestMessage → Db → Db)
    → senders.category_digest_builder ≡ some build
    → (message : CategoryDigestMessage) (db : Db) → (build message db).runs ≡ db.runs

-- The run is there and has not ended.
abbrev pub Open : String → List DigestRun → Type 0
Open run_id runs =
    (r : DigestRun) × (find_by (λ x. str_eq x.id run_id) runs ≡ some r) × (is_terminal r ≡ false)

pub ClusterStep-Open :
    (now : ℕ) (run_id : String) (s s' : State)
    → ClusterStep now run_id s s'
    → Open run_id s.db.runs
    → Open run_id s'.db.runs
ClusterStep-Open now run_id s s' kept open_run = open_run
ClusterStep-Open now run_id s s' (sent message) (r, found, going) = (
  with_enqueued now r,
  find_run-save_run run_id (with_enqueued now) (λ x. refl) s.db.runs r found,
  going,
)

pub CategoryStep-Open :
    (senders : Senders)
    → KeepsRuns senders
    → (run_id category : String) (s : State) (r : Bool × State) → Open run_id s.db.runs
    → CategoryStep senders run_id category s r
    → Open run_id r.1.db.runs
CategoryStep-Open senders keep run_id category s r o kept = o
CategoryStep-Open senders keep run_id category s r o (claimed won) = o
CategoryStep-Open senders keep run_id category s r o (queued won) = o
CategoryStep-Open senders keep run_id category s r o (built won build e) =
    subst (Open run_id) (sym (keep build e _ _)) o

pub with_progress-is_terminal :
    (account_ids : List String) (snapshot : RunProgressSnapshot) (r : DigestRun)
    → is_terminal r ≡ false
    → is_terminal (with_progress account_ids snapshot r) ≡ false
unfolding with_progress
with_progress-is_terminal account_ids snapshot r going =
    if-elim (λ status. (str_eq status "complete" || str_eq status "failed") ≡ false)
      (str_eq r.status "queued") (λ _. refl) (λ _. going)

pub with_progress-id :
    (account_ids : List String) (snapshot : RunProgressSnapshot) (r : DigestRun)
    → (with_progress account_ids snapshot r).id ≡ r.id
unfolding with_progress
with_progress-id account_ids snapshot r = refl

-- The call's answer and the tables that it leaves, for a run over the given accounts.
module _ (now : ℕ) (user_id run_id : String) (account_ids : List String)
    (result : Bool × State) where
  pub record Settled : Type 0 where
    pub exact :
        result.0 ≡ (pending_total (progress_snapshot result.1.db user_id run_id account_ids) == 0)
    pub row : DigestRun
    pub found : find_run run_id result.1.db ≡ some row
    pub ended :
        result.0 ≡ true
        → (row.status
            ≡ (if ltb 0 (prompt_errors_of result.1.db run_id) then "failed" else "complete"))
          × (row.completed_at ≡ some now)
    pub going : result.0 ≡ false → is_terminal row ≡ false
    pub released :
        result.0 ≡ true
        → (u : User) → Memᴰ u result.1.db.users
        → u.id ≡ user_id
        → u.current_run_id ≢ some run_id

progress_snapshot-prompt_errors :
    (db : Db) (user_id run_id : String) (account_ids : List String)
    → (progress_snapshot db user_id run_id account_ids).prompt_errors ≡ prompt_errors_of db run_id
unfolding progress_snapshot
progress_snapshot-prompt_errors db user_id run_id [] = refl
progress_snapshot-prompt_errors db user_id run_id (a ∷ ids) = refl

module _ (now : ℕ) (user_id run_id : String) (completed : Bool) where
  clear_user_lock_frees :
      (u : User) → (clear_user_lock run_id now completed u).current_run_id ≢ some run_id
  unfolding clear_user_lock
  clear_user_lock_frees u held = elim (Option-cases u.current_run_id) [
    | inl e ↦ ground arith
    | inr (run, e) ↦ ground (arith, eq_iff run run_id)
  ]

  abbrev Free : User → Type 0
  Free u = u.id ≡ user_id → u.current_run_id ≢ some run_id

  save_user_frees :
      (users : List User) (u : User)
      → Memᴰ u (save_user user_id (clear_user_lock run_id now completed) users)
      → Free u
  unfolding save_user
  save_user_frees [] u m = absurd (Memᴰ.not-nil m)
  save_user_frees (x ∷ users) u m = elim (Memᴰ.cases_cons m) [
    | inl e ↦ subst Free (sym e) (
        if-elim Free (str_eq x.id user_id) (λ _ _. clear_user_lock_frees x)
          (λ other same. absurd (ground (arith, other, same, eq_iff x.id user_id))))
    | inr later ↦ save_user_frees users u later
  ]

module _ (now : ℕ) (user_id run_id : String) (account_ids : List String) where
  settle-Settled :
      (s : State)
      → Open run_id s.db.runs
      → Settled now user_id run_id account_ids (
          settle now user_id run_id account_ids
            (progress_snapshot s.db user_id run_id account_ids)
            s)
  unfolding settle prompt_errors_of finish_run with_progress
  settle-Settled s (r, found, going) =
      let snapshot = progress_snapshot s.db user_id run_id account_ids in
      let failed = ltb 0 snapshot.prompt_errors in
      let updated = with_progress account_ids snapshot in
      let runs = save_run run_id updated s.db.runs in
      let found' : find_by (λ x. str_eq x.id run_id) runs ≡ some (updated r) =
        find_run-save_run run_id updated (λ x. refl) s.db.runs r found in
      let same : (db : Db)
          → work db ≡ work s.db
          → progress_snapshot db user_id run_id account_ids ≡ snapshot =
        λ db e.
          progress_snapshot-work db user_id run_id account_ids
          ∙ ap (λ w. progress_snapshot w user_id run_id account_ids) e
          ∙ sym (progress_snapshot-work s.db user_id run_id account_ids) in
      if-elim (Settled now user_id run_id account_ids) (pending_total snapshot == 0)
        (λ done. record {
          exact = sym done ∙ ap (λ p. pending_total p == 0) (sym (same _ refl));
          row = finish_run now failed (updated r);
          found =
              find_run-save_run run_id (finish_run now failed) (λ x. refl) runs (updated r) found';
          ended = λ _. (
            ap (λ n. if ltb 0 n then "failed" else "complete")
                (progress_snapshot-prompt_errors s.db user_id run_id account_ids),
            refl,
          );
          going = λ e. cc;
          released = λ _. save_user_frees now user_id run_id (not failed) s.db.users;
        })
        (λ more. record {
          exact = sym more ∙ ap (λ p. pending_total p == 0) (sym (same _ refl));
          row = updated r;
          found = found';
          ended = λ e. cc;
          going = λ _. with_progress-is_terminal account_ids snapshot r going;
          released = λ e. cc;
        })

finalize_run-Settled :
    (senders : Senders) (now : ℕ) (user_id : String) (run : DigestRun) (s : State)
    → KeepsRuns senders
    → find_run run.id s.db ≡ some run
    → is_terminal run ≡ false
    → Settled now user_id run.id
        (account_scope s.db user_id run)
        (finalize_run senders now user_id run s)
unfolding finalize_run
finalize_run-Settled senders now user_id run s keep found going =
    let ids = account_scope s.db user_id run in
    let snapshot = progress_snapshot s.db user_id run.id ids in
    let s1 : State = record s {
      db = record s.db { runs = save_run run.id (with_progress ids snapshot) s.db.runs };
    } in
    let s2 = cluster_stage senders now run ids snapshot s1 in
    let r3 = category_stage senders run ids snapshot s2 in
    let progress : Db → RunProgressSnapshot = λ db. progress_snapshot db user_id run.id ids in
    let cluster = cluster_stage-ClusterStep senders now run ids snapshot s1 in
    let open1 : Open run.id s1.db.runs = (
      with_progress ids snapshot run,
      find_run-save_run run.id (with_progress ids snapshot) (with_progress-id ids snapshot)
          s.db.runs run found,
      with_progress-is_terminal ids snapshot run going,
    ) in
    let open3 : Open run.id r3.1.db.runs =
      category_stage-keeps (λ t. Open run.id t.db.runs) senders run ids snapshot
        (λ category t r. CategoryStep-Open senders keep run.id category t r) s2
        (ClusterStep-Open now run.id s1 s2 cluster open1) in
    let fresh : (if r3.0 then progress r3.1.db else snapshot) ≡ progress r3.1.db =
      if-elim (λ p. p ≡ progress r3.1.db) r3.0 (λ _. refl)
        (λ idle.
          progress_snapshot-work s.db user_id run.id ids
          ∙ sym (progress_snapshot-work s1.db user_id run.id ids)
          ∙ progress_snapshot-work s1.db user_id run.id ids
          ∙ ap (λ w. progress_snapshot w user_id run.id ids)
              (sym (
                category_stage-Idle senders run ids snapshot s2 idle
                ∙ ClusterStep-work now run.id s1 s2 cluster))
          ∙ sym (progress_snapshot-work r3.1.db user_id run.id ids)) in
    subst (λ p. Settled now user_id run.id ids (settle now user_id run.id ids p r3.1)) (sym fresh)
      (settle-Settled now user_id run.id ids r3.1 open3)

-- With an inline builder that writes no run, a call for a run of the user that has not ended answers
-- whether no work is pending in the tables that it leaves. If so, the run has ended now, as failed
-- exactly when a fatal prompt error is on record, and the user's row holds it no more; if not, the run
-- has not ended.
pub maybe_finalize_run-Settled :
    (senders : Senders) (now : ℕ) (run : DigestRun) (s : State)
    → KeepsRuns senders
    → find_run run.id s.db ≡ some run
    → is_terminal run ≡ false
    → Settled now run.user_id run.id
        (account_scope s.db run.user_id run)
        (maybe_finalize_run senders now run.user_id (some run.id) s)
unfolding maybe_finalize_run
maybe_finalize_run-Settled senders now run s keep found going =
    rw (found, maybe_finalize_run)
      (if-elim (Settled now run.user_id run.id (account_scope s.db run.user_id run))
        (not (str_eq run.user_id run.user_id) || is_terminal run)
        (λ stop. absurd (ground (arith, going, stop, eq_iff run.user_id run.user_id)))
        (λ _. finalize_run-Settled senders now run.user_id run s keep found going))
