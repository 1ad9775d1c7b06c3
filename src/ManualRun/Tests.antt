-- ===== src/ManualRun/Tests.antt =====
-- A user with one mailbox asks for a run, twice; the cap is one run.
use briefed.Base.{ℕ, ◌≡◌, refl, String, [], ◌∷◌, true, false, none, some, length}
use briefed.Base.Dict.{lookup, insert}
use briefed.Base.Result.{Result, err}
use briefed.Tables.{User, save_user}
use briefed.RateLimit.{too_many}
use briefed.ManualRun.{
  incremental, ManualRunRequest, ManualRunResponse, RunError, limited, World, State, start_run,
  start_manual_run,
}

abbrev ana : User
ana = record {
  id = "u1";
  status = "active";
  environment = "prod";
  privacy_policy_version_accepted = 1;
  terms_version_accepted = 1;
  schedule_frequency = "once_daily";
  schedule_times_local = "08:00" ∷ [];
  schedule_timezone = "UTC";
  last_run_finished_at = none;
  current_run_id = none;
  current_run_started_at = none;
}

abbrev state : State
state = record {
  limiter = record { capacity = 1; window = 86400000000; buckets = [] };
  runs = record {
    db = record {
      users = ana ∷ [];
      accounts =
          record { id = "a1"; user_id = "u1"; status = "active"; auto_scan_enabled = true } ∷ [];
      runs = [];
      emails = [];
      run_emails = [];
      classifications = [];
      summaries = [];
      clusters = [];
      prompt_calls = [];
      hygiene_claims = [];
      digest_claims = [];
    };
    digests = [];
    clusters = [];
  };
  ingest = [];
  classify = [];
}

abbrev world : String → World
world run_id = record {
  run_id = run_id;
  now = λ n. 1000;
  limiter_now = 1000000000;
  has_ingest_queue = true;
  has_classify_queue = true;
}

abbrev scan : ManualRunRequest
scan = record {
  account_ids = some ("a1" ∷ []);
  mode = incremental;
  window_days = none;
  include_user_overrides = false;
}

abbrev sent_after : Result RunError ManualRunResponse × State → ℕ
sent_after (r, t) = length t.ingest

abbrev refused_for : Result RunError ManualRunResponse × State → ℕ
refused_for (err (limited (too_many count wait)), t) = wait
refused_for (r, t) = 0

one_message : sent_after (start_manual_run (world "r1") "u1" scan state) ≡ 1
unfolding start_manual_run start_run lookup
one_message = refl

next_day :
    refused_for
      (start_manual_run (world "r2") "u1" scan (start_manual_run (world "r1") "u1" scan state).1)
    ≡ 86400
unfolding start_manual_run start_run lookup save_user insert
next_day = refl
