-- ===== src/Fanout/Sent.antt =====
-- What one tick sends.

use briefed.Base.{ℕ, ◌≡◌, refl, String, [], Option, filter, length, All}
use briefed.Tables.{Db}
use briefed.Fanout.{Deps, is_candidate, run_fanout}
use briefed.Fanout.Steps.{Justified, Ticked, fan_out_users-Ticked}

module _ (deps : Deps) (user_id : Option String) (now : ℕ) (db : Db) (ids : ℕ) where
  pub run_fanout-Ticked :
      Ticked deps now
        (filter (is_candidate deps user_id) db.users)
        db.accounts
        (run_fanout deps user_id now db ids).1
  unfolding run_fanout
  run_fanout-Ticked =
      fan_out_users-Ticked deps now (filter (is_candidate deps user_id) db.users) db.accounts
        (filter (is_candidate deps user_id) db.users)
        (record { db = db; sent = []; ids = ids; enqueued = 0 }) (λ u m. m)
        (record { accounts_kept = refl; counted = refl; justified = tt; locked = tt })

  -- Every message that a tick sends, also one that a failing queue cuts short, is for an account of
  -- a candidate user who has consented and is due, and the account is the user's own, active and
  -- scanned; and the count is the number of messages sent.
  pub run_fanout-Justified :
      All
        (Justified deps now (filter (is_candidate deps user_id) db.users) db.accounts)
        (run_fanout deps user_id now db ids).1.sent
      × ((run_fanout deps user_id now db ids).1.enqueued
          ≡ length (run_fanout deps user_id now db ids).1.sent)
  run_fanout-Justified = (run_fanout-Ticked.justified, run_fanout-Ticked.counted)
