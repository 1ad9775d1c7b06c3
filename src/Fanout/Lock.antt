-- ===== src/Fanout/Lock.antt =====
-- The lock between ticks.
use mathlib.Core.List.{Memᴰ}
use mathlib.Core.List.Memᴰ
use mathlib.Core.List.Memᴰ.{head, tail}
use briefed.Base.{
  All-mem, if-elim, ◌⊎◌, mem-filter, ℕ, ◌+◌, ◌≤◌, ◌<◌, ◌≡◌, ◌≢◌, refl, sym, subst, ◌∙◌, String,
  List, [], ◌∷◌, true, Option, none, some, filter, str_eq, eq_iff, arith, Bool-cases, Option-cases,
  inl, inr,
}
use briefed.Schedule.{is_due, lock_stale_after, Zones, last_run_debounce}
use briefed.Schedule.Ticks.{MayRun, is_due-MayRun}
use briefed.Tables.{User, Db, save_user}
use briefed.Fanout.{
  IngestMessage, Deps, is_candidate, run_fanout, schedule_view, clear_lock, release_user_lock,
  has_stale_lock,
}
use briefed.Fanout.Steps.{Justified, HeldAt, IsLockedAt}
use briefed.Fanout.Sent.{run_fanout-Ticked, run_fanout-Justified}

held-not-due :
    (zones : Zones) (now later : ℕ) (user : User)
    → HeldAt now user
    → later < now + lock_stale_after
    → is_due zones later (schedule_view user) ≢ true
held-not-due zones now later user ((run, held), since) soon due =
    let m : MayRun zones later (schedule_view user) =
      (is_due-MayRun zones later (schedule_view user)).0 due in
    let (started, e, le) = m.unlocked run held in ground arith

-- Two ticks less than half an hour apart, with no release or other change between them, never send
-- a message for the same user, however the first one ended and whatever users they are limited to.
pub run_fanout-once :
    (deps : Deps) (user_id user_id' : Option String) (now later ids ids' : ℕ) (db : Db)
    → later < now + lock_stale_after
    → (m m' : IngestMessage) → Memᴰ m (run_fanout deps user_id now db ids).1.sent
    → Memᴰ m' (run_fanout deps user_id' later (run_fanout deps user_id now db ids).1.db ids').1.sent
    → m.user_id ≢ m'.user_id
run_fanout-once deps user_id user_id' now later ids ids' db soon m m' sent sent' same =
    let db' : Db = (run_fanout deps user_id now db ids).1.db in
    let locked : IsLockedAt now m.user_id db'.users =
      All-mem (λ k. IsLockedAt now k.user_id db'.users) _ m
        (run_fanout-Ticked deps user_id now db ids).locked sent in
    let j =
      All-mem (Justified deps later (filter (is_candidate deps user_id') db'.users) db'.accounts) _
        m' (run_fanout-Justified deps user_id' later db' ids').0 sent' in
    held-not-due deps.zones now later j.user
      (All-mem (λ u. u.id ≡ m.user_id → HeldAt now u) db'.users j.user locked
        (mem-filter (is_candidate deps user_id') db'.users j.user j.listed).0
        (sym j.to_user ∙ sym same))
      soon j.due

-- A lock that has no start counts as stale at all times; but its user is never due.
pub has_stale_lock-not-due :
    (zones : Zones) (user : User) (run : String)
    → user.current_run_id ≡ some run
    → user.current_run_started_at ≡ none
    → (now : ℕ) → (has_stale_lock now user ≡ true) × (is_due zones now (schedule_view user) ≢ true)
unfolding has_stale_lock
has_stale_lock-not-due zones user run held unknown now = (
  ground arith,
  λ due.
      let (started, e, le) =
        ((is_due-MayRun zones now (schedule_view user)).0 due).unlocked run held in
      ground arith,
)

just_run-not-due :
    (zones : Zones) (now later : ℕ) (user : User)
    → user.last_run_finished_at ≡ some now
    → later < now + last_run_debounce
    → is_due zones later (schedule_view user) ≢ true
just_run-not-due zones now later user e soon due =
    let m : MayRun zones later (schedule_view user) =
      (is_due-MayRun zones later (schedule_view user)).0 due in
    let le : now + last_run_debounce ≤ later = m.rested now e in ground arith

-- What a release makes of a row: it lets go of the run, and for an hour the user is not due.
pub data Released (zones : Zones) (user_id run_id : String) (now : ℕ) (u : User)
    : User → Type 0 where
  kept : u.id ≢ user_id ⊎ u.current_run_id ≢ some run_id → Released zones user_id run_id now u u
  freed :
      u.id ≡ user_id
      → u.current_run_id ≡ some run_id
      → {u' : User} → u'.current_run_id ≡ none
      → ((later : ℕ)
          → later < now + last_run_debounce
          → is_due zones later (schedule_view u') ≢ true)
      → Released zones user_id run_id now u u'

module _ (zones : Zones) (user_id run_id : String) (now : ℕ) where
  abbrev finished : User → User
  finished u = record u {
    current_run_id = none;
    current_run_started_at = none;
    last_run_finished_at = some now;
  }

  clear_lock-Released :
      (u : User) → u.id ≡ user_id → Released zones user_id run_id now u (clear_lock run_id now u)
  unfolding clear_lock
  clear_lock-Released u same = elim (Option-cases u.current_run_id) [
    | inl unheld ↦
        let idle : clear_lock run_id now u ≡ u = ground arith in
        subst (Released zones user_id run_id now u) (sym idle) (kept (inr (λ e. ground arith)))
    | inr (held, e) ↦ elim (Bool-cases (str_eq held run_id)) [
      | inl ours ↦
          let let_go : clear_lock run_id now u ≡ finished u = ground arith in
          subst (Released zones user_id run_id now u) (sym let_go) (
            freed same (ground (arith, eq_iff held run_id)) refl
              (λ later soon. just_run-not-due zones now later (finished u) refl soon))
      | inr theirs ↦
          let untouched : clear_lock run_id now u ≡ u = ground arith in
          subst (Released zones user_id run_id now u) (sym untouched)
            (kept (inr (λ held'. ground (arith, eq_iff held run_id))))
    ]
  ]

  save_user-Released :
      (users : List User) (u' : User)
      → Memᴰ u' (save_user user_id (clear_lock run_id now) users)
      → (u : User) × Memᴰ u users × Released zones user_id run_id now u u'
  unfolding save_user
  save_user-Released [] u' m = absurd (Memᴰ.not-nil m)
  save_user-Released (u ∷ users) u' m = elim (Memᴰ.cases_cons m) [
    | inl e ↦ (
      u,
      head refl,
      subst (Released zones user_id run_id now u) (sym e) (
          if-elim (Released zones user_id run_id now u) (str_eq u.id user_id)
            (λ same. clear_lock-Released u (ground (arith, eq_iff u.id user_id)))
            (λ other. kept (inl (ground (arith, eq_iff u.id user_id))))),
    )
    | inr later ↦ let (v, listed, r) = save_user-Released users u' later in (v, tail listed, r)
  ]

-- A release frees a row only if it is the user's and holds exactly this run, and then the user is
-- not due for an hour; every other row, and a row of the user under another run, is as before.
pub release_user_lock-Released :
    (zones : Zones) (user_id run_id : String) (now : ℕ) (db : Db) (u' : User)
    → Memᴰ u' (release_user_lock user_id run_id now db).users
    → (u : User) × Memᴰ u db.users × Released zones user_id run_id now u u'
unfolding release_user_lock
release_user_lock-Released zones user_id run_id now db u' m =
    save_user-Released zones user_id run_id now db.users u' m
