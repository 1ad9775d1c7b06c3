-- ===== src/Runs/Status.antt =====
-- How the row of a run changes.
use briefed.Base.{
  if-elim, ℕ, ◌≡◌, refl, sym, subst, String, List, [], ◌∷◌, Bool, false, not, ◌||◌, Option, none,
  some, str_eq, eq_iff, ◌==◌, ltb, arith, Option-cases, inl, inr, if◌then◌else◌,
}
use briefed.Tables.{DigestRun, Db, save_run}
use briefed.Runs.Progress.{RunProgressSnapshot, progress_snapshot, pending_total}
use briefed.Runs.{
  State, Senders, find_run, mark_run_running, stamp_run_membership,
  mark_unsubscribe_hygiene_enqueued, settle, finalize_run, maybe_finalize_run, account_scope,
  is_terminal, with_progress, finish_run,
}
use briefed.Runs.Stages.{
  ClusterStep, CategoryStep, kept, sent, claimed, queued, built, with_enqueued,
  cluster_stage-ClusterStep, category_stage-keeps,
}
use briefed.Runs.Steps.{
  KeepsClaims, Step, started, marked, stamped, enqueued, finalized, worked, Steps, done, then_step,
}
use briefed.Runs.Work.{find_run-save_run}
use briefed.Runs.Finish.{Open, ClusterStep-Open, with_progress-id, with_progress-is_terminal}
use briefed.Runs.Later.{
  Later, same, moved, find, RunsLater, RunsLater-refl, RunsLater-trans, save_run-RunsLater,
  append-RunsLater,
}

find-id : (id : String) (runs : List DigestRun) (r : DigestRun) → find id runs ≡ some r → r.id ≡ id
find-id id [] r e = cc
find-id id (x ∷ runs) r e = ground (arith, find-id id runs r, eq_iff x.id id)

or-false : (a b : Bool) → (a || b) ≡ false → b ≡ false
or-false a b h = ground arith

start_status :
    (status : String)
    → (if str_eq status "queued" then "running" else status) ≡ "queued"
    → status ≡ "queued"
start_status status =
    if-elim (λ st. st ≡ "queued" → status ≡ "queued") (str_eq status "queued")
      (λ is e. ground (arith, is, eq_iff status "queued")) (λ isnt e. e)

queued-is_terminal :
    (status : String)
    → status ≡ "queued"
    → (str_eq status "complete" || str_eq status "failed") ≡ false
queued-is_terminal status e =
    subst (λ st. (str_eq st "complete" || str_eq st "failed") ≡ false) (sym e) refl

mark_run_running-RunsLater :
    (run_id : Option String) (db : Db) → RunsLater db.runs (mark_run_running run_id db).runs
unfolding mark_run_running
mark_run_running-RunsLater none db = RunsLater-refl db.runs
mark_run_running-RunsLater (some run_id) db =
    save_run-RunsLater run_id _ db.runs
      (λ r.
        if-elim (λ (x : DigestRun). x.id ≡ r.id) (str_eq r.status "queued") (λ _. refl) (λ _. refl))
      (λ r found.
        if-elim (Later r) (str_eq r.status "queued")
          (λ is.
            moved (queued-is_terminal r.status (ground (arith, is, eq_iff r.status "queued"))) refl
              refl refl (λ _. ground (arith, is, eq_iff r.status "queued")))
          (λ _. same))

finish_run-id : (now : ℕ) (failed : Bool) (r : DigestRun) → (finish_run now failed r).id ≡ r.id
unfolding finish_run
finish_run-id now failed r = refl

module _ (runs : List DigestRun) (run_id : String) where
  -- The run goes on, and every run is as before or later.
  abbrev OnGoing : State → Type 0
  OnGoing s = RunsLater runs s.db.runs × Open run_id s.db.runs

  save-RunsLater :
      (s : State) (change : DigestRun → DigestRun)
      → ((r : DigestRun) → is_terminal r ≡ false → Later r (change r))
      → ((r : DigestRun) → (change r).id ≡ r.id)
      → OnGoing s
      → RunsLater runs (save_run run_id change s.db.runs)
  save-RunsLater s change later keeps (before, (r, found, going)) =
      RunsLater-trans runs s.db.runs _ before (
        save_run-RunsLater run_id change s.db.runs keeps (λ x e. later x (
          subst (λ (y : Option DigestRun). y ≡ some r → is_terminal x ≡ false) (sym e)
            (λ eq. ground (arith, eq, going)) found)))

  ClusterStep-OnGoing :
      (now : ℕ) (s s' : State) → OnGoing s → ClusterStep now run_id s s' → OnGoing s'
  ClusterStep-OnGoing now s s' h kept = h
  ClusterStep-OnGoing now s s' h (sent message) = (
    save-RunsLater s (with_enqueued now) (λ r going. moved going refl refl refl (λ q. q))
        (λ r. refl) h,
    ClusterStep-Open now run_id s _ (sent message) h.1,
  )

  CategoryStep-OnGoing :
      (senders : Senders)
      → KeepsClaims senders
      → (category : String) (s : State) (r : Bool × State) → OnGoing s
      → CategoryStep senders run_id category s r
      → OnGoing r.1
  CategoryStep-OnGoing senders keep category s r h kept = h
  CategoryStep-OnGoing senders keep category s r h (claimed won) = h
  CategoryStep-OnGoing senders keep category s r h (queued won) = h
  CategoryStep-OnGoing senders keep category s r h (built won build e) =
      subst (λ rows. RunsLater runs rows × Open run_id rows) (sym (keep build e _ _).0) h

  with_progress-Later :
      (ids : List String) (snapshot : RunProgressSnapshot) (r : DigestRun)
      → is_terminal r ≡ false
      → Later r (with_progress ids snapshot r)
  unfolding with_progress
  with_progress-Later ids snapshot r going = moved going refl refl refl (start_status r.status)

  finish_run-Later :
      (now : ℕ) (failed : Bool) (r : DigestRun)
      → is_terminal r ≡ false
      → Later r (finish_run now failed r)
  unfolding finish_run
  finish_run-Later now failed r going = moved going refl refl refl (
      if-elim (λ st. st ≡ "queued" → r.status ≡ "queued") failed
        (λ _ e. absurd (ground (arith, e, eq_iff "failed" "queued")))
        (λ _ e. absurd (ground (arith, e, eq_iff "complete" "queued"))))

  settle-RunsLater :
      (now : ℕ) (user_id : String) (ids : List String) (snapshot : RunProgressSnapshot) (s : State)
      → OnGoing s
      → RunsLater runs (settle now user_id run_id ids snapshot s).1.db.runs
  unfolding settle
  settle-RunsLater now user_id ids snapshot s h =
      let updated = with_progress ids snapshot in
      let later =
        save-RunsLater s updated (with_progress-Later ids snapshot) (with_progress-id ids snapshot)
          h in
      let (r, found, going) = h.1 in
      let s' : State = record s { db = record s.db { runs = save_run run_id updated s.db.runs } } in
      let ongoing : OnGoing s' = (
        later,
        (
          updated r,
          find_run-save_run run_id updated (with_progress-id ids snapshot) s.db.runs r found,
          with_progress-is_terminal ids snapshot r going,
        ),
      ) in
      let finish = finish_run now (ltb 0 snapshot.prompt_errors) in
      if-elim (λ (x : Bool × State). RunsLater runs x.1.db.runs) (pending_total snapshot == 0)
        (λ _.
          save-RunsLater s' finish (finish_run-Later now (ltb 0 snapshot.prompt_errors))
            (finish_run-id now (ltb 0 snapshot.prompt_errors)) ongoing)
        (λ _. later)

finalize_run-RunsLater :
    (senders : Senders)
    → KeepsClaims senders
    → (now : ℕ) (user_id : String) (run : DigestRun) (s : State) → find_run run.id s.db ≡ some run
    → is_terminal run ≡ false
    → RunsLater s.db.runs (finalize_run senders now user_id run s).1.db.runs
unfolding finalize_run
finalize_run-RunsLater senders keep now user_id run s found going =
    let ids = account_scope s.db user_id run in
    let snapshot = progress_snapshot s.db user_id run.id ids in
    let updated = with_progress ids snapshot in
    let s1 : State = record s { db = record s.db { runs = save_run run.id updated s.db.runs } } in
    let start : OnGoing s.db.runs run.id s = (RunsLater-refl s.db.runs, (run, found, going)) in
    let first : OnGoing s.db.runs run.id s1 = (
      save-RunsLater s.db.runs run.id s updated (with_progress-Later s.db.runs run.id ids snapshot)
          (with_progress-id ids snapshot) start,
      (
        updated run,
        find_run-save_run run.id updated (with_progress-id ids snapshot) s.db.runs run found,
        with_progress-is_terminal ids snapshot run going,
      ),
    ) in
    settle-RunsLater s.db.runs run.id now user_id ids _ _ (
      category_stage-keeps (OnGoing s.db.runs run.id) senders run ids snapshot
        (λ key t r. CategoryStep-OnGoing s.db.runs run.id senders keep key t r) _
        (ClusterStep-OnGoing s.db.runs run.id now s1 _ first
          (cluster_stage-ClusterStep senders now run ids snapshot s1)))

maybe_finalize_run-RunsLater :
    (senders : Senders)
    → KeepsClaims senders
    → (now : ℕ) (user_id : String) (run_id : Option String) (s : State)
    → RunsLater s.db.runs (maybe_finalize_run senders now user_id run_id s).1.db.runs
unfolding maybe_finalize_run
maybe_finalize_run-RunsLater senders keep now user_id none s = RunsLater-refl s.db.runs
maybe_finalize_run-RunsLater senders keep now user_id (some run_id) s =
    elim (Option-cases (find_run run_id s.db)) [
      | inl e ↦ rw (e, maybe_finalize_run) (RunsLater-refl s.db.runs)
      | inr (run, e) ↦
          let own : run.id ≡ run_id = find-id run_id s.db.runs run e in
          rw (e, maybe_finalize_run)
            (if-elim (λ (r : Bool × State). RunsLater s.db.runs r.1.db.runs)
              (not (str_eq run.user_id user_id) || is_terminal run) (λ _. RunsLater-refl s.db.runs)
              (λ goes_on.
                finalize_run-RunsLater senders keep now user_id run s
                  (subst (λ i. find i s.db.runs ≡ some run) (sym own) e) (or-false _ _ goes_on)))
    ]

Step-RunsLater : (s s' : State) → Step s s' → RunsLater s.db.runs s'.db.runs
unfolding stamp_run_membership mark_unsubscribe_hygiene_enqueued
Step-RunsLater s s' (started run fresh) = append-RunsLater s.db.runs (run ∷ [])
Step-RunsLater s s' (marked run_id) = mark_run_running-RunsLater run_id s.db
Step-RunsLater s s' (stamped none email_ids) = RunsLater-refl s.db.runs
Step-RunsLater s s' (stamped (some id) email_ids) = RunsLater-refl s.db.runs
Step-RunsLater s s' (enqueued none account_id) = RunsLater-refl s.db.runs
Step-RunsLater s s' (enqueued (some id) account_id) = RunsLater-refl s.db.runs
Step-RunsLater s s' (finalized senders keep now user_id run_id) =
    maybe_finalize_run-RunsLater senders keep now user_id run_id s
Step-RunsLater s s' (worked db runs_same claims_same) =
    subst (RunsLater s.db.runs) (sym runs_same) (RunsLater-refl s.db.runs)

-- Whatever happens to runs, in any order, a run stays on record, for its user and with its start; the
-- row of a run that has ended does not change, and no other goes back to `queued`. The other handlers
-- and the inline builder write no run.
pub Steps-Later :
    (s s' : State)
    → Steps s s'
    → (id : String) (r : DigestRun) → find_run id s.db ≡ some r
    → (r' : DigestRun) × (find_run id s'.db ≡ some r') × Later r r'
Steps-Later s s' done = RunsLater-refl s.db.runs
Steps-Later s s' (then_step {s1} steps step) =
    RunsLater-trans s.db.runs s1.db.runs s'.db.runs (Steps-Later s s1 steps)
      (Step-RunsLater s1 s' step)
