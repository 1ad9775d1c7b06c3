-- ===== src/Schedule/NextSlot.antt =====
-- The preview of the next run against the slots that a profile names.
use mathlib.Core.List.{Memᴰ}
use mathlib.Core.List.Memᴰ
use mathlib.Core.List.Memᴰ.{head, tail}
use briefed.Base.{
  mem-filter, filter-mem, ℕ, ◌+◌, ◌≤◌, ◌<◌, ◌≡◌, ◌≢◌, refl, String, List, [], ◌∷◌, ◌++◌, Option,
  none, some, filter, arith, ltb, ltb→lt, lt→ltb, eq_iff, Option-cases, Bool-cases, inl, inr, ◌⊎◌,
  subst, ap, sym, ◌∙◌,
}
use briefed.Schedule.{
  Zone, Zones, UserScheduleView, resolve_zone, slots_on, earliest, next_slot_utc,
}
use briefed.Schedule.Earliest.{earliest-mem, earliest-le, earliest-some}
use briefed.Schedule.Slot.{parse_slot}

-- An instant at which one of the listed times falls, on a local day of the given span.
pub record IsSlot (zone : Zone) (times : List String) (first last instant : ℕ) : Type 0 where
  pub day : ℕ
  pub raw : String
  pub hour : ℕ
  pub minute : ℕ
  pub after_first : first ≤ day
  pub up_to_last : day ≤ last
  pub listed : Memᴰ raw times
  pub parsed : parse_slot raw ≡ some (hour, minute)
  pub falls : instant ≡ zone.instant_of day hour minute

-- The next slot: the first after `now`; there is none only if every slot has passed.
abbrev pub IsNext : (ℕ → Type 0) → ℕ → Option ℕ → Type 0
IsNext Slot now none = (u : ℕ) → Slot u → u ≤ now
IsNext Slot now (some t) = Slot t × (now < t) × ((u : ℕ) → Slot u → now < u → t ≤ u)

module _ (zone : Zone) (day : ℕ) (raw : String) (times : List String) where
  slots_on-none : parse_slot raw ≡ none → slots_on zone day (raw ∷ times) ≡ slots_on zone day times
  unfolding slots_on
  slots_on-none e = rw (e, slots_on)

  slots_on-some :
      (hour minute : ℕ)
      → parse_slot raw ≡ some (hour, minute)
      → slots_on zone day (raw ∷ times) ≡ zone.instant_of day hour minute ∷ slots_on zone day times
  unfolding slots_on
  slots_on-some hour minute e = rw (e, slots_on)

  later :
      {first last u : ℕ} → IsSlot zone times first last u → IsSlot zone (raw ∷ times) first last u
  later s = record {
    day = s.day;
    raw = s.raw;
    hour = s.hour;
    minute = s.minute;
    after_first = s.after_first;
    up_to_last = s.up_to_last;
    listed = tail s.listed;
    parsed = s.parsed;
    falls = s.falls;
  }

module _ (zone : Zone) (day : ℕ) where
  pub slots_on-IsSlot :
      (times : List String) (u : ℕ) → Memᴰ u (slots_on zone day times) → IsSlot zone times day day u
  unfolding slots_on
  slots_on-IsSlot [] u m = absurd (Memᴰ.not-nil m)
  slots_on-IsSlot (raw ∷ times) u m = elim (Option-cases (parse_slot raw)) [
    | inl n ↦
        later zone day raw times
          (slots_on-IsSlot times u (subst (Memᴰ u) (slots_on-none zone day raw times n) m))
    | inr ((hour, minute), s) ↦
        elim (Memᴰ.cases_cons (subst (Memᴰ u) (slots_on-some zone day raw times hour minute s) m)) [
          | inl e ↦ record {
            day = day;
            raw = raw;
            hour = hour;
            minute = minute;
            after_first = omega arith;
            up_to_last = omega arith;
            listed = head refl;
            parsed = s;
            falls = e;
          }
          | inr rest ↦ later zone day raw times (slots_on-IsSlot times u rest)
        ]
  ]

  pub slots_on-complete :
      (times : List String) (raw : String) (hour minute : ℕ)
      → Memᴰ raw times
      → parse_slot raw ≡ some (hour, minute)
      → Memᴰ (zone.instant_of day hour minute) (slots_on zone day times)
  slots_on-complete (r ∷ times) raw hour minute (head e) parsed =
      subst (Memᴰ (zone.instant_of day hour minute))
        (sym (slots_on-some zone day r times hour minute (sym (ap parse_slot e) ∙ parsed)))
        (head refl)
  slots_on-complete (r ∷ times) raw hour minute (tail m) parsed =
      let rest : Memᴰ (zone.instant_of day hour minute) (slots_on zone day times) =
        slots_on-complete times raw hour minute m parsed in
      elim (Option-cases (parse_slot r)) [
        | inl n ↦
            subst (Memᴰ (zone.instant_of day hour minute)) (sym (slots_on-none zone day r times n))
              rest
        | inr ((h, k), s) ↦
            subst (Memᴰ (zone.instant_of day hour minute))
              (sym (slots_on-some zone day r times h k s)) (tail rest)
      ]
  slots_on-complete [] raw hour minute m parsed = absurd (Memᴰ.not-nil m)

pub widen :
    (zone : Zone) (times : List String) (day first last u : ℕ)
    → first ≤ day
    → day ≤ last
    → IsSlot zone times day day u
    → IsSlot zone times first last u
widen zone times day first last u lo hi s = record {
  day = s.day;
  raw = s.raw;
  hour = s.hour;
  minute = s.minute;
  after_first = omega (arith, s.after_first, s.up_to_last);
  up_to_last = omega (arith, s.after_first, s.up_to_last);
  listed = s.listed;
  parsed = s.parsed;
  falls = s.falls;
}

-- The slots of three days.
abbrev three_days : Zone → List String → ℕ → List ℕ
three_days zone times today =
    slots_on zone today times ++ slots_on zone (today + 1) times ++ slots_on zone (today + 2) times

module _ (zone : Zone) (times : List String) (today u : ℕ) where
  within :
      (day : ℕ)
      → today ≤ day
      → day ≤ today + 2
      → Memᴰ u (slots_on zone day times)
      → IsSlot zone times today (today + 2) u
  within day lo hi m =
      widen zone times day today (today + 2) u lo hi (slots_on-IsSlot zone day times u m)

  days :
      (day : ℕ)
      → today ≤ day
      → day ≤ today + 2
      → (day ≡ today) ⊎ (day ≡ today + 1) ⊎ (day ≡ today + 2)
  days day lo hi = ground arith

  three_days-IsSlot : Memᴰ u (three_days zone times today) → IsSlot zone times today (today + 2) u
  three_days-IsSlot m =
      let on = λ (day : ℕ). slots_on zone day times in
      elim (Memᴰ.append_cases (on today ++ on (today + 1)) m) [
        | inl early ↦ elim (Memᴰ.append_cases (on today) early) [
          | inl a ↦ within today (omega arith) (omega arith) a
          | inr b ↦ within (today + 1) (omega arith) (omega arith) b
        ]
        | inr c ↦ within (today + 2) (omega arith) (omega arith) c
      ]

  three_days-complete : IsSlot zone times today (today + 2) u → Memᴰ u (three_days zone times today)
  three_days-complete s =
      let on = λ (day : ℕ). slots_on zone day times in
      let found : Memᴰ u (on s.day) =
        Memᴰ.cast s.falls
          (slots_on-complete zone s.day times s.raw s.hour s.minute s.listed s.parsed) in
      elim (days s.day s.after_first s.up_to_last) [
        | inl e ↦
            Memᴰ.append_left (on (today + 2))
              (Memᴰ.append_left (on (today + 1)) (subst (λ day. Memᴰ u (on day)) e found))
        | inr (inl e) ↦
            Memᴰ.append_left (on (today + 2))
              (Memᴰ.append_right (on today) (subst (λ day. Memᴰ u (on day)) e found))
        | inr (inr e) ↦
            Memᴰ.append_right (on today ++ on (today + 1)) (subst (λ day. Memᴰ u (on day)) e found)
      ]

earliest-IsNext :
    (zone : Zone) (times : List String) (today now : ℕ)
    → IsNext
        (IsSlot zone times today (today + 2))
        now
        (earliest (filter (λ t. ltb now t) (three_days zone times today)))
earliest-IsNext zone times today now =
    let upcoming : List ℕ = filter (λ t. ltb now t) (three_days zone times today) in
    let Slot = IsSlot zone times today (today + 2) in
    let upcoming_of : (u : ℕ) → Slot u → now < u → Memᴰ u upcoming = λ u s later.
      filter-mem (λ t. ltb now t) (three_days zone times today) u
        (three_days-complete zone times today u s) (lt→ltb now u later) in
    elim (Option-cases (earliest upcoming)) [
      | inl n ↦ subst (IsNext Slot now) (sym n) (λ u s. elim (Bool-cases (ltb now u)) [
        | inl later ↦ absurd (earliest-some upcoming u n (upcoming_of u s (ltb→lt now u later)))
        | inr past ↦ ground arith
      ])
      | inr (t, e) ↦
          let (listed, later) =
            mem-filter (λ t. ltb now t) (three_days zone times today) t
              (earliest-mem upcoming t e) in
          subst (IsNext Slot now) (sym e) (
            three_days-IsSlot zone times today t listed,
            ltb→lt now t later,
            λ u s after. earliest-le upcoming t u e (upcoming_of u s after),
          )
    ]

-- Unless the schedule is disabled, the preview is the earliest instant after `now` at which one of
-- the parseable listed times falls on the local day of `now` or on one of the two after it; it is
-- empty exactly when there is none.
pub next_slot_utc-IsNext :
    (zones : Zones) (now : ℕ) (profile : UserScheduleView)
    → profile.schedule_frequency ≢ "disabled"
    → let zone = resolve_zone zones profile.schedule_timezone in
      let today = zone.day_of now in
      IsNext
        (IsSlot zone profile.schedule_times_local today (today + 2))
        now
        (next_slot_utc zones now profile)
unfolding next_slot_utc
next_slot_utc-IsNext zones now profile enabled =
    let zone : Zone = resolve_zone zones profile.schedule_timezone in
    let today : ℕ = zone.day_of now in
    let times : List String = profile.schedule_times_local in
    let on : next_slot_utc zones now profile
        ≡ earliest (filter (λ t. ltb now t) (three_days zone times today)) =
      ground (arith, eq_iff profile.schedule_frequency "disabled") in
    subst (IsNext (IsSlot zone times today (today + 2)) now) (sym on)
      (earliest-IsNext zone times today now)
