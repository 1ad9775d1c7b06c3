-- ===== src/ManualRun/Effects.antt =====
-- What the two branches of a manual run do to the tables, the queues and the limiter.
use briefed.Base.{
  ◌⊎◌, eq_iff, ℕ, Bool, if-elim, ◌≡◌, refl, sym, ap, subst, ◌∙◌, String, List, [], ◌∷◌, ◌++◌, none,
  some, map, append-nil, arith, inl, inr, if◌then◌else◌,
}
use briefed.Tables.{User, ConnectedAccount, DigestRun, Email, Db, save_user}
use briefed.Fanout.{IngestMessage, with_lock}
use briefed.Runs
use briefed.Runs.{Senders, find_run, stamp_run_membership, maybe_finalize_run}
use briefed.Runs.Later.{find}
use briefed.Runs.Steps.{KeepsClaims, started, stamped, finalized, worked, Steps, done, then_step}
use briefed.ManualRun.{
  Mode, incremental, reclassify_recent, ManualRunRequest, World, State, no_senders, new_run,
  insert_run, ingest_message, enqueue_ingest, ClassifyMessage, classify_message, is_not_override,
  enqueue_reclassify, reclassify_targets, window_of, reclassify,
}

-- The messages for the ingestion of the accounts, one for each.
abbrev pub ingest_for : World → String → Mode → List ConnectedAccount → List IngestMessage
ingest_for world user_id incremental accounts =
    if world.has_ingest_queue then map (ingest_message world user_id) accounts else []
ingest_for world user_id reclassify_recent accounts = []

-- The messages for the classification of emails.
abbrev pub messages_for : World → String → List Email → List ClassifyMessage
messages_for world user_id targets =
    if world.has_classify_queue then map (classify_message world user_id) targets else []

module _ (world : World) (user_id : String) where
  enqueue_reclassify-runs :
      (targets : List Email) (s : State)
      → (enqueue_reclassify world user_id targets s).runs ≡ s.runs
  unfolding enqueue_reclassify
  enqueue_reclassify-runs targets s = ground arith

  pub enqueue_ingest-runs :
      (accounts : List ConnectedAccount) (s : State)
      → (enqueue_ingest world user_id accounts s).runs ≡ s.runs
  unfolding enqueue_ingest
  enqueue_ingest-runs accounts s = ground arith

no_senders-KeepsClaims : KeepsClaims no_senders
no_senders-KeepsClaims build e message db = cc

module _ (world : World) (user_id : String) (s : State)
    (fresh : find_run world.run_id s.runs.db ≡ none) where
  pub insert_run-Steps :
      (accounts : List ConnectedAccount)
      → Steps s.runs (record s.runs { db = insert_run world user_id accounts s.runs.db })
  unfolding insert_run new_run
  insert_run-Steps accounts =
      then_step (then_step done (started (new_run world user_id accounts) fresh))
        (worked (insert_run world user_id accounts s.runs.db) refl refl)

module _ (world : World) (user_id : String) (s : State) where
  -- After the stamp, with the branch on whether there is anything to classify.
  targets-Steps :
      (targets : List Email) (m : State) (stamped_runs : Runs.State)
      → Steps s.runs stamped_runs
      → m.runs ≡ stamped_runs
      → Steps s.runs
          (elim targets as (λ (es : List Email). State) [
            | [] ↦ record m {
              runs =
                  (maybe_finalize_run no_senders
                    (world.now 2)
                    user_id
                    (some world.run_id)
                    stamped_runs).1;
            }
            | e ∷ es ↦ m
          ]).runs
  targets-Steps [] m stamped_runs steps e =
      then_step steps
        (finalized no_senders no_senders-KeepsClaims (world.now 2) user_id (some world.run_id))
  targets-Steps (x ∷ xs) m stamped_runs steps e = subst (Steps s.runs) (sym e) steps

  pub reclassify-Steps :
      (payload : ManualRunRequest) (accounts : List ConnectedAccount) (m : State)
      → Steps s.runs m.runs
      → Steps s.runs (reclassify world user_id payload accounts m).runs
  unfolding reclassify
  reclassify-Steps payload accounts m steps =
      targets-Steps _ _ _ (then_step steps (stamped (some world.run_id) _))
        (enqueue_reclassify-runs world user_id _ _)

-- A reclassification neither sends messages for ingestion nor asks the limiter.
pub record IsKept (s t : State) : Type 0 where
  pub ingest : t.ingest ≡ s.ingest
  pub limiter : t.limiter ≡ s.limiter

module _ (world : World) (user_id : String) where
  targets-IsKept :
      (targets : List Email) (m : State) (runs : Runs.State)
      → IsKept m (elim targets as (λ (es : List Email). State) [
        | [] ↦ record m { runs = runs }
        | e ∷ es ↦ m
      ])
  targets-IsKept [] m runs = record { ingest = refl; limiter = refl }
  targets-IsKept (x ∷ xs) m runs = record { ingest = refl; limiter = refl }

  enqueue_reclassify-IsKept :
      (targets : List Email) (s : State) (runs : Runs.State)
      → IsKept s (enqueue_reclassify world user_id targets (record s { runs = runs }))
  unfolding enqueue_reclassify
  enqueue_reclassify-IsKept targets s runs =
      if-elim (IsKept s) world.has_classify_queue (λ _. record { ingest = refl; limiter = refl })
        (λ _. record { ingest = refl; limiter = refl })

  pub reclassify-IsKept :
      (payload : ManualRunRequest) (accounts : List ConnectedAccount) (m : State)
      → IsKept m (reclassify world user_id payload accounts m)
  unfolding reclassify
  reclassify-IsKept payload accounts m =
      let outer = targets-IsKept _ _ _ in
      let inner = enqueue_reclassify-IsKept _ m _ in
      record { ingest = outer.ingest ∙ inner.ingest; limiter = outer.limiter ∙ inner.limiter }

  pub enqueue_ingest-lem :
      (accounts : List ConnectedAccount) (s : State)
      → ((enqueue_ingest world user_id accounts s).ingest
          ≡ s.ingest ++ ingest_for world user_id incremental accounts)
        × ((enqueue_ingest world user_id accounts s).limiter ≡ s.limiter)
  unfolding enqueue_ingest
  enqueue_ingest-lem accounts s = (ground (arith, append-nil s.ingest), ground arith)

targets-classify :
    (targets : List Email) (m : State) (runs : Runs.State)
    → (elim targets as (λ (es : List Email). State) [
      | [] ↦ record m { runs = runs }
      | e ∷ es ↦ m
    ]).classify
      ≡ m.classify
targets-classify [] m runs = refl
targets-classify (x ∷ xs) m runs = refl

enqueue_reclassify-classify :
    (world : World) (user_id : String) (targets : List Email) (s : State)
    → (enqueue_reclassify world user_id targets s).classify
      ≡ s.classify ++ messages_for world user_id targets
unfolding enqueue_reclassify
enqueue_reclassify-classify world user_id targets s = ground (arith, append-nil s.classify)

pub reclassify-classify :
    (world : World) (user_id : String) (payload : ManualRunRequest)
    (accounts : List ConnectedAccount) (m : State)
    → (reclassify world user_id payload accounts m).classify
      ≡ m.classify
        ++ messages_for world user_id (
            reclassify_targets world user_id accounts
              (window_of payload.window_days)
              payload.include_user_overrides
              m.runs.db)
unfolding reclassify
reclassify-classify world user_id payload accounts m =
    targets-classify _ _ _ ∙ enqueue_reclassify-classify world user_id _ _

pub enqueue_ingest-classify :
    (world : World) (user_id : String) (accounts : List ConnectedAccount) (s : State)
    → (enqueue_ingest world user_id accounts s).classify ≡ s.classify
unfolding enqueue_ingest
enqueue_ingest-classify world user_id accounts s = ground arith

-- The new row is the one that is found under its id.
find_run-append :
    (id : String) (r : DigestRun) (runs : List DigestRun)
    → r.id ≡ id
    → find id runs ≡ none
    → find id (runs ++ r ∷ []) ≡ some r
find_run-append id r [] own e = ground (arith, eq_iff r.id id)
find_run-append id r (x ∷ runs) own e = ground (arith, find_run-append id r runs own)

pub find_run-insert_run :
    (world : World) (user_id : String) (accounts : List ConnectedAccount) (db : Db)
    → find_run world.run_id db ≡ none
    → find world.run_id (insert_run world user_id accounts db).runs
      ≡ some (new_run world user_id accounts)
unfolding insert_run new_run
find_run-insert_run world user_id accounts db fresh =
    find_run-append world.run_id (new_run world user_id accounts) db.runs refl fresh

pub reclassify_targets-insert_run :
    (world : World) (user_id : String) (accounts : List ConnectedAccount) (days : ℕ)
    (include_user_overrides : Bool) (db : Db)
    → reclassify_targets world user_id accounts days include_user_overrides
        (insert_run world user_id accounts db)
      ≡ reclassify_targets world user_id accounts days include_user_overrides db
unfolding reclassify_targets insert_run is_not_override
reclassify_targets-insert_run world user_id accounts days include_user_overrides db = refl

pub insert_run-users :
    (world : World) (user_id : String) (accounts : List ConnectedAccount) (db : Db)
    → (insert_run world user_id accounts db).users
      ≡ save_user user_id (with_lock (some world.run_id) (some (world.now 0))) db.users
unfolding insert_run
insert_run-users world user_id accounts db = refl

-- After the targets are sent, with the branch on whether there are any.
targets-users :
    (targets : List Email) (m : State) (runs : Runs.State) (users : List User)
    → m.runs.db.users ≡ users
    → ((elim targets as (λ (es : List Email). State) [
      | [] ↦ record m { runs = runs }
      | e ∷ es ↦ m
    ]).runs.db.users
        ≡ users)
      ⊎ (targets ≡ [])
targets-users [] m runs users e = inr refl
targets-users (x ∷ xs) m runs users e = inl e

-- The lock stays with the run, unless there is nothing to classify.
pub reclassify-users :
    (world : World) (user_id : String) (payload : ManualRunRequest)
    (accounts : List ConnectedAccount) (m : State)
    → ((reclassify world user_id payload accounts m).runs.db.users ≡ m.runs.db.users)
      ⊎ (reclassify_targets world user_id accounts
            (window_of payload.window_days)
            payload.include_user_overrides
            m.runs.db
          ≡ [])
unfolding reclassify stamp_run_membership
reclassify-users world user_id payload accounts m =
    targets-users _ _ _ _
      (ap (λ (r : Runs.State). r.db.users) (enqueue_reclassify-runs world user_id _ _))
