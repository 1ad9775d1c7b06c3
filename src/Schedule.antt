-- ===== src/Schedule.antt =====
-- backend/app/core/scheduling.py. Instants are whole seconds since the epoch, in UTC; a naive
-- datetime of the source is read as UTC there, so it is an instant here. Days are ordinals.
pub mod Slot
pub mod Ticks
mod Earliest
pub mod NextSlot
mod Tests
use briefed.Base.{
  ℕ, ◌+◌, ◌-◌, ◌*◌, ◌≤◌, String, List, [], ◌∷◌, ◌++◌, Bool, true, false, ◌&&◌, Option, none, some,
  min, any, filter, ltb, leb, str_eq, if◌then◌else◌,
}
use briefed.Schedule.Slot.{parse_slot}

-- `SLOT_HALF_WINDOW`, `LAST_RUN_DEBOUNCE`, `LOCK_STALE_AFTER`
abbrev pub slot_half_window : ℕ
slot_half_window = 450

abbrev pub last_run_debounce : ℕ
last_run_debounce = 3600

abbrev pub lock_stale_after : ℕ
lock_stale_after = 1800

-- A time zone of the `tzdata` database: the local day of an instant, and the instant of a wall clock
-- time on a local day.
pub record Zone : Type 0 where
  pub day_of : ℕ → ℕ
  pub instant_of : ℕ → ℕ → ℕ → ℕ

-- The zones by name, and UTC.
pub record Zones : Type 0 where
  pub zone_info : String → Option Zone
  pub utc : Zone

pub record UserScheduleView : Type 0 where
  pub schedule_frequency : String
  pub schedule_times_local : List String
  pub schedule_timezone : String
  pub last_run_finished_at : Option ℕ
  pub current_run_id : Option String
  pub current_run_started_at : Option ℕ

-- The last run finished less than the debounce ago.
unfoldable pub is_debounced : ℕ → UserScheduleView → Bool
is_debounced now profile = elim profile.last_run_finished_at [
  | none ↦ false
  | some last ↦ ltb now (last + last_run_debounce)
]

-- A run holds the lock, and it is fresh or has no start.
unfoldable pub is_locked : ℕ → UserScheduleView → Bool
is_locked now profile = elim profile.current_run_id [
  | none ↦ false
  | some run_id ↦ elim profile.current_run_started_at [
    | none ↦ true
    | some started ↦ ltb now (started + lock_stale_after)
  ]
]

-- `abs(candidate - now) <= SLOT_HALF_WINDOW`
unfoldable pub is_near : ℕ → ℕ → Bool
is_near now candidate =
    leb candidate (now + slot_half_window) && leb now (candidate + slot_half_window)

-- `min(upcoming)`
unfoldable pub earliest : List ℕ → Option ℕ
earliest [] = none
earliest (t ∷ ts) = elim (earliest ts) [ none ↦ some t | some u ↦ some (min t u) ]

-- The inner loop: the parseable slots on one local day.
unfoldable pub slots_on : Zone → ℕ → List String → List ℕ
slots_on zone day [] = []
slots_on zone day (raw ∷ times) =
    let rest = slots_on zone day times in
    elim (parse_slot raw) [
      | none ↦ rest
      | some (hour, minute) ↦ zone.instant_of day hour minute ∷ rest
    ]

module _ (zones : Zones) where
  -- `_resolve_zone`
  unfoldable pub resolve_zone : String → Zone
  resolve_zone name = elim (zones.zone_info name) [ none ↦ zones.utc | some z ↦ z ]

  -- `_candidate_utc_slots`: the local day before, the local day and the one after.
  unfoldable pub candidate_utc_slots : ℕ → UserScheduleView → List ℕ
  unfolding slots_on resolve_zone
  candidate_utc_slots now profile =
      let zone = resolve_zone profile.schedule_timezone in
      let today = zone.day_of now in
      slots_on zone (today - 1) profile.schedule_times_local
      ++ slots_on zone today profile.schedule_times_local
      ++ slots_on zone (today + 1) profile.schedule_times_local

  unfoldable pub is_due : ℕ → UserScheduleView → Bool
  is_due now profile =
      if str_eq profile.schedule_frequency "disabled"
      then false
      else if is_debounced now profile
      then false
      else if is_locked now profile
      then false
      else any (is_near now) (candidate_utc_slots now profile)

  unfoldable pub next_slot_utc : ℕ → UserScheduleView → Option ℕ
  unfolding slots_on resolve_zone earliest
  next_slot_utc now profile =
      if str_eq profile.schedule_frequency "disabled"
      then none
      else (let zone = resolve_zone profile.schedule_timezone in
          let today = zone.day_of now in
          let slots =
            slots_on zone today profile.schedule_times_local
            ++ slots_on zone (today + 1) profile.schedule_times_local
            ++ slots_on zone (today + 2) profile.schedule_times_local in
          earliest (filter (λ t. ltb now t) slots))
