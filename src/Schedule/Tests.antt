-- ===== src/Schedule/Tests.antt =====
-- A profile with two daily slots in a zone an hour ahead of UTC.
use briefed.Base.{ℕ, ◌+◌, ◌-◌, ◌*◌, ◌/◌, ◌≡◌, ◌↔◌, refl, [], ◌∷◌, true, none, some, arith, eq_iff}
use briefed.Schedule.{
  Zone, Zones, UserScheduleView, is_due, is_near, is_debounced, is_locked, candidate_utc_slots,
  resolve_zone, slots_on, next_slot_utc, earliest,
}
use briefed.Schedule.Slot.{parse_slot}
use briefed.Schedule.Ticks.{MayRun, is_due-MayRun}
use briefed.Schedule.NextSlot.{IsNext, IsSlot, next_slot_utc-IsNext}

-- Ordinal day 719163 is the first day of 1970.
abbrev hour_ahead : Zone
hour_ahead = record {
  day_of = λ instant. 719163 + (instant + 3600) / 86400;
  instant_of = λ day hour minute. (day - 719163) * 86400 + hour * 3600 + minute * 60 - 3600;
}

abbrev zones : Zones
zones = record { zone_info = λ name. some hour_ahead; utc = hour_ahead }

abbrev ana : UserScheduleView
ana = record {
  schedule_frequency = "twice_daily";
  schedule_times_local = "08:00" ∷ "8h" ∷ "24:00" ∷ " 18:30" ∷ [];
  schedule_timezone = "Europe/Berlin";
  last_run_finished_at = some 100000;
  current_run_id = none;
  current_run_started_at = none;
}

slots : parse_slot "08:00" ≡ some (8, 0)
unfolding parse_slot
slots = refl

-- The second day of 1970 at 06:59 in UTC.
abbrev now : ℕ
now = 86400 + 6 * 3600 + 59 * 60

due : is_due zones now ana ≡ true
unfolding is_due is_debounced is_locked candidate_utc_slots slots_on parse_slot is_near
due = refl

next : next_slot_utc zones now ana ≡ some (86400 + 7 * 3600)
unfolding next_slot_utc slots_on parse_slot earliest
next = refl

next_slot_utc-IsNext_example :
    IsNext
      (IsSlot hour_ahead ana.schedule_times_local 719164 719166)
      now
      (next_slot_utc zones now ana)
unfolding resolve_zone
next_slot_utc-IsNext_example =
    next_slot_utc-IsNext zones now ana (λ e. ground (arith, eq_iff "twice_daily" "disabled"))

is_due-MayRun_example : (is_due zones now ana ≡ true) ↔ MayRun zones now ana
is_due-MayRun_example = is_due-MayRun zones now ana
