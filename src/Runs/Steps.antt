-- ===== src/Runs/Steps.antt =====
-- What happens to runs over time: the operations of backend/app/services/runs.py, in any order, new
-- runs, and the other work of the handlers, which writes no run and no claim of a digest.
use briefed.Base.{ℕ, ◌≡◌, String, List, [], ◌∷◌, ◌++◌, Option, none, some}
use briefed.Tables.{DigestRun, Db}
use briefed.Runs.{
  CategoryDigestMessage, State, Senders, find_run, mark_run_running, stamp_run_membership,
  mark_unsubscribe_hygiene_enqueued, maybe_finalize_run,
}

-- The inline builder writes no run and no claim of a digest.
abbrev pub KeepsClaims : Senders → Type 0
KeepsClaims senders =
    (build : CategoryDigestMessage → Db → Db)
    → senders.category_digest_builder ≡ some build
    → (message : CategoryDigestMessage) (db : Db)
    → ((build message db).runs ≡ db.runs) × ((build message db).digest_claims ≡ db.digest_claims)

pub data Step (s : State) : State → Type 0 where
  started :
      (run : DigestRun)
      → find_run run.id s.db ≡ none
      → Step s (record s { db = record s.db { runs = s.db.runs ++ run ∷ [] } })
  marked : (run_id : Option String) → Step s (record s { db = mark_run_running run_id s.db })
  stamped :
      (run_id : Option String) (email_ids : List String)
      → Step s (record s { db = (stamp_run_membership run_id email_ids s.db).1 })
  enqueued :
      (run_id : Option String) (account_id : String)
      → Step s (record s { db = (mark_unsubscribe_hygiene_enqueued run_id account_id s.db).1 })
  finalized :
      (senders : Senders)
      → KeepsClaims senders
      → (now : ℕ) (user_id : String) (run_id : Option String)
      → Step s (maybe_finalize_run senders now user_id run_id s).1
  worked :
      (db : Db)
      → db.runs ≡ s.db.runs
      → db.digest_claims ≡ s.db.digest_claims
      → Step s (record s { db = db })

pub data Steps (s : State) : State → Type 0 where
  done : Steps s s
  then_step : {s1 s2 : State} → Steps s s1 → Step s1 s2 → Steps s s2
