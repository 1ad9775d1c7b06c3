-- ===== src/Fanout/Tests.antt =====
-- Two users in UTC, due at the same slot; ticks a minute apart.
use mathlib.Core.List.{Memᴰ}
use mathlib.Core.List.Memᴰ.{head, tail}
use briefed.Base.{
  ℕ, ◌+◌, ◌*◌, ◌/◌, ◌≡◌, ◌≢◌, refl, String, [], ◌∷◌, true, false, none, some, sym, subst, filter,
  length, All, arith,
}
use briefed.Schedule.{Zone, is_due, is_near, is_debounced, is_locked, candidate_utc_slots, slots_on}
use briefed.Schedule.Slot.{parse_slot}
use briefed.Tables.{User, ConnectedAccount, Db, save_user}
use briefed.Fanout.{
  IngestMessage, Deps, is_candidate, run_fanout, has_current_legal_consent, schedule_view,
  clear_lock, release_user_lock, fan_out_user, fan_out_users, enqueue, acquire, send_messages,
}
use briefed.Fanout.Steps.{Justified}
use briefed.Fanout.Sent.{run_fanout-Justified}
use briefed.Fanout.Complete.{IsSentTo, run_fanout-sends}
use briefed.Fanout.Lock.{Released, run_fanout-once, release_user_lock-Released}

abbrev utc : Zone
utc = record {
  day_of = λ instant. instant / 86400;
  instant_of = λ day hour minute. day * 86400 + hour * 3600 + minute * 60;
}

abbrev user : String → User
user id = record {
  id = id;
  status = "active";
  environment = "local";
  privacy_policy_version_accepted = 1;
  terms_version_accepted = 1;
  schedule_frequency = "once_daily";
  schedule_times_local = "08:00" ∷ [];
  schedule_timezone = "UTC";
  last_run_finished_at = none;
  current_run_id = none;
  current_run_started_at = none;
}

abbrev mailbox : String → String → ConnectedAccount
mailbox id owner = record { id = id; user_id = owner; status = "active"; auto_scan_enabled = true }

abbrev db : Db
db = record {
  users = user "ana" ∷ user "ben" ∷ [];
  accounts = mailbox "a1" "ana" ∷ mailbox "a2" "ana" ∷ mailbox "b1" "ben" ∷ [];
  runs = [];
  emails = [];
  run_emails = [];
  classifications = [];
  summaries = [];
  clusters = [];
  prompt_calls = [];
  hygiene_claims = [];
  digest_claims = [];
}

abbrev deps : Deps
deps = record {
  zones = record { zone_info = λ name. some utc; utc = utc };
  new_uuid = λ n. "run";
  accepts = λ sent message. true;
  environment = "local";
  store_raw_mime = false;
}

-- The second day of 1970, a minute after the slot.
abbrev now : ℕ
now = 86400 + 8 * 3600 + 60

abbrev for_ana : IngestMessage
for_ana = record { user_id = "ana"; account_id = "a2"; run_id = "run"; store_raw_mime = false }

abbrev for_ben : IngestMessage
for_ben = record { user_id = "ben"; account_id = "b1"; run_id = "run"; store_raw_mime = false }

ana_first :
    (run_fanout deps (some "ana") now db 0).1.sent
    ≡ record { user_id = "ana"; account_id = "a1"; run_id = "run"; store_raw_mime = false }
      ∷ for_ana
      ∷ []
unfolding run_fanout fan_out_users fan_out_user enqueue acquire send_messages save_user
    has_current_legal_consent is_due is_debounced is_locked candidate_utc_slots slots_on parse_slot
    is_near
ana_first = refl

then_ben :
    (run_fanout deps none (now + 60) (run_fanout deps (some "ana") now db 0).1.db 1).1.sent
    ≡ for_ben ∷ []
unfolding run_fanout fan_out_users fan_out_user enqueue acquire send_messages save_user
    has_current_legal_consent is_due is_debounced is_locked candidate_utc_slots slots_on parse_slot
    is_near
then_ben = refl

due_users :
    (has_current_legal_consent (user "ana") ≡ true)
    × (is_due deps.zones now (schedule_view (user "ana")) ≡ true)
    × ((run_fanout deps none now db 0).0 ≡ true)
unfolding run_fanout fan_out_users fan_out_user enqueue acquire send_messages save_user
    has_current_legal_consent is_due is_debounced is_locked candidate_utc_slots slots_on parse_slot
    is_near
due_users = (refl, refl, refl)

run_fanout-Justified_example :
    All
      (Justified deps now (filter (is_candidate deps none) db.users) db.accounts)
      (run_fanout deps none now db 0).1.sent
    × ((run_fanout deps none now db 0).1.enqueued ≡ length (run_fanout deps none now db 0).1.sent)
run_fanout-Justified_example = run_fanout-Justified deps none now db 0

run_fanout-sends_example :
    IsSentTo (user "ana") (mailbox "a2" "ana") (run_fanout deps none now db 0).1.sent
run_fanout-sends_example =
    run_fanout-sends deps none now db 0 due_users.2 (user "ana") (mailbox "a2" "ana") (head refl)
      due_users.0 due_users.1 (tail (head refl)) refl

run_fanout-once_example : ◌≢◌ {A = String} "ana" "ben"
run_fanout-once_example =
    run_fanout-once deps (some "ana") none now (now + 60) 0 1 db (omega arith) for_ana for_ben
      (subst (Memᴰ for_ana) (sym ana_first) (tail (head refl)))
      (subst (Memᴰ for_ben) (sym then_ben) (head refl))

abbrev startless : User
startless = record (user "ana") { current_run_id = some "run" }

abbrev running : Db
running = record db { users = startless ∷ user "ben" ∷ [] }

released :
    (release_user_lock "ana" "run" now running).users
    ≡ record (user "ana") { last_run_finished_at = some now } ∷ user "ben" ∷ []
unfolding release_user_lock save_user clear_lock
released = refl

release_user_lock-Released_example :
    (u : User) × Memᴰ u running.users
    × Released deps.zones "ana" "run" now u
        (record (user "ana") { last_run_finished_at = some now })
release_user_lock-Released_example =
    release_user_lock-Released deps.zones "ana" "run" now running
      (record (user "ana") { last_run_finished_at = some now })
      (subst (Memᴰ (record (user "ana") { last_run_finished_at = some now })) (sym released)
        (head refl))
