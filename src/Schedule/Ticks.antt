-- ===== src/Schedule/Ticks.antt =====
-- Which ticks a slot meets, and what a due user fulfils.
use mathlib.Core.List.{Memᴰ}
use mathlib.Core.List.Memᴰ
use mathlib.Core.List.Memᴰ.{head, tail}
use briefed.Base.{
  refl, Option-cases, Bool-cases, List, [], ◌∷◌, ◌++◌, Bool, ◌-◌, ◌⊎◌, ap, subst, ℕ, ◌+◌, ◌*◌, ◌/◌,
  ◌%◌, ◌≤◌, ◌≡◌, ◌≢◌, ◌↔◌, String, true, false, some, any, arith, eq_iff, inl, inr,
}
use briefed.Schedule.{
  Zones, UserScheduleView, last_run_debounce, lock_stale_after, is_debounced, is_locked, is_near,
  candidate_utc_slots, is_due, Zone, resolve_zone, slots_on,
}
use briefed.Schedule.NextSlot.{IsSlot, slots_on-IsSlot, slots_on-complete, widen}

-- The scheduler's ticks, one in fifteen minutes.
abbrev pub tick : ℕ → ℕ
tick k = k * 900

-- A slot on a whole minute is near exactly one tick.
pub is_near-one_tick :
    (slot : ℕ)
    → slot % 60 ≡ 0
    → (k : ℕ) × (is_near (tick k) slot ≡ true) × ((j : ℕ) → is_near (tick j) slot ≡ true → j ≡ k)
unfolding is_near
is_near-one_tick slot aligned = ((slot + 450) / 900, ground arith, λ j near. ground arith)

-- One of the parseable times that are listed falls, on the local day of `now` or on one next to it, no
-- more than seven and a half minutes before or after `now`.
abbrev pub OnSlot : Zones → ℕ → UserScheduleView → Type 0
OnSlot zones now profile =
    let zone = resolve_zone zones profile.schedule_timezone in
    let today = zone.day_of now in
    (slot : ℕ) × IsSlot zone profile.schedule_times_local (today - 1) (today + 1) slot
    × (slot ≤ now + 450)
    × (now ≤ slot + 450)

any-mem : (p : ℕ → Bool) (xs : List ℕ) → any p xs ≡ true → (x : ℕ) × Memᴰ x xs × (p x ≡ true)
any-mem p [] h = absurd (ground arith)
any-mem p (x ∷ xs) h = elim (Bool-cases (p x)) [
  | inl holds ↦ (x, head refl, holds)
  | inr fails ↦ let (y, m, holds) = any-mem p xs (ground arith) in (y, tail m, holds)
]

mem-any : (p : ℕ → Bool) (xs : List ℕ) (x : ℕ) → Memᴰ x xs → p x ≡ true → any p xs ≡ true
mem-any p (y ∷ xs) x (head e) h = ground (arith, ap p e)
mem-any p (y ∷ xs) x (tail m) h = ground (arith, mem-any p xs x m h)
mem-any p [] x m h = absurd (Memᴰ.not-nil m)

module _ (zone : Zone) (times : List String) (today u : ℕ) where
  abbrev on : ℕ → List ℕ
  on day = slots_on zone day times

  within :
      (day : ℕ)
      → today - 1 ≤ day
      → day ≤ today + 1
      → Memᴰ u (on day)
      → IsSlot zone times (today - 1) (today + 1) u
  within day lo hi m =
      widen zone times day (today - 1) (today + 1) u lo hi (slots_on-IsSlot zone day times u m)

  days :
      (day : ℕ)
      → today - 1 ≤ day
      → day ≤ today + 1
      → (day ≡ today - 1) ⊎ (day ≡ today) ⊎ (day ≡ today + 1)
  days day lo hi = ground arith

  around-IsSlot :
      Memᴰ u (on (today - 1) ++ on today ++ on (today + 1))
      → IsSlot zone times (today - 1) (today + 1) u
  around-IsSlot m = elim (Memᴰ.append_cases (on (today - 1) ++ on today) m) [
    | inl early ↦ elim (Memᴰ.append_cases (on (today - 1)) early) [
      | inl a ↦ within (today - 1) (omega arith) (omega arith) a
      | inr b ↦ within today (omega arith) (omega arith) b
    ]
    | inr c ↦ within (today + 1) (omega arith) (omega arith) c
  ]

  around-complete :
      IsSlot zone times (today - 1) (today + 1) u
      → Memᴰ u (on (today - 1) ++ on today ++ on (today + 1))
  around-complete s =
      let found : Memᴰ u (on s.day) =
        Memᴰ.cast s.falls
          (slots_on-complete zone s.day times s.raw s.hour s.minute s.listed s.parsed) in
      elim (days s.day s.after_first s.up_to_last) [
        | inl e ↦
            Memᴰ.append_left (on (today + 1))
              (Memᴰ.append_left (on today) (subst (λ day. Memᴰ u (on day)) e found))
        | inr (inl e) ↦
            Memᴰ.append_left (on (today + 1))
              (Memᴰ.append_right (on (today - 1)) (subst (λ day. Memᴰ u (on day)) e found))
        | inr (inr e) ↦
            Memᴰ.append_right (on (today - 1) ++ on today) (subst (λ day. Memᴰ u (on day)) e found)
      ]

is_near-true : (now u : ℕ) → (is_near now u ≡ true) ↔ ((u ≤ now + 450) × (now ≤ u + 450))
unfolding is_near
is_near-true now u = (λ h. (ground arith, ground arith), λ h. ground arith)

-- The test of the slots is met exactly on a slot.
any-OnSlot :
    (zones : Zones) (now : ℕ) (profile : UserScheduleView)
    → (any (is_near now) (candidate_utc_slots zones now profile) ≡ true) ↔ OnSlot zones now profile
unfolding candidate_utc_slots
any-OnSlot zones now profile =
    let zone : Zone = resolve_zone zones profile.schedule_timezone in
    let today : ℕ = zone.day_of now in
    let times : List String = profile.schedule_times_local in
    (
      λ h.
          let (u, m, near) = any-mem (is_near now) (candidate_utc_slots zones now profile) h in
          let (before, after) = (is_near-true now u).0 near in
          (u, around-IsSlot zone times today u m, before, after),
      λ (u, s, before, after).
          mem-any (is_near now) (candidate_utc_slots zones now profile) u
            (around-complete zone times today u s) ((is_near-true now u).1 (before, after)),
    )

-- The four conditions of the module's description.
pub record MayRun (zones : Zones) (now : ℕ) (profile : UserScheduleView) : Type 0 where
  pub enabled : profile.schedule_frequency ≢ "disabled"
  pub rested :
      (last : ℕ) → profile.last_run_finished_at ≡ some last → last + last_run_debounce ≤ now
  pub unlocked :
      (run : String)
      → profile.current_run_id ≡ some run
      → (started : ℕ) × (profile.current_run_started_at ≡ some started)
        × (started + lock_stale_after ≤ now)
  pub on_slot : OnSlot zones now profile

rested_of :
    (now : ℕ) (profile : UserScheduleView) (last : ℕ)
    → is_debounced now profile ≡ false
    → profile.last_run_finished_at ≡ some last
    → last + last_run_debounce ≤ now
unfolding is_debounced
rested_of now profile last h e = ground arith

unlocked_of :
    (now : ℕ) (profile : UserScheduleView) (run : String)
    → is_locked now profile ≡ false
    → profile.current_run_id ≡ some run
    → (started : ℕ) × (profile.current_run_started_at ≡ some started)
      × (started + lock_stale_after ≤ now)
unfolding is_locked
unlocked_of now profile run h e = elim (Option-cases profile.current_run_started_at) [
  | inl unknown ↦ absurd (ground arith)
  | inr (started, s) ↦ (started, s, ground arith)
]

debounced_of :
    (now : ℕ) (profile : UserScheduleView)
    → ((last : ℕ) → profile.last_run_finished_at ≡ some last → last + last_run_debounce ≤ now)
    → is_debounced now profile ≡ false
unfolding is_debounced
debounced_of now profile h = elim (Option-cases profile.last_run_finished_at) [
  | inl never ↦ rw never
  | inr (last, e) ↦ ground (arith, h last e)
]

free_of :
    (now : ℕ) (profile : UserScheduleView)
    → ((run : String)
        → profile.current_run_id ≡ some run
        → (started : ℕ) × (profile.current_run_started_at ≡ some started)
          × (started + lock_stale_after ≤ now))
    → is_locked now profile ≡ false
unfolding is_locked
free_of now profile h = elim (Option-cases profile.current_run_id) [
  | inl unheld ↦ rw unheld
  | inr (run, e) ↦ let (started, s, le) = h run e in ground arith
]

-- A user is due at a tick exactly when the schedule is not disabled, the last run finished an hour
-- ago or more, a run that holds the lock started half an hour ago or more, and one of the
-- parseable times that are listed, on the local day of the tick or on one next to it, is within seven
-- and a half minutes of it.
pub is_due-MayRun :
    (zones : Zones) (now : ℕ) (profile : UserScheduleView)
    → (is_due zones now profile ≡ true) ↔ MayRun zones now profile
unfolding is_due
is_due-MayRun zones now profile = (
  λ due. record {
    enabled = λ disabled. absurd (ground (arith, eq_iff profile.schedule_frequency "disabled"));
    rested = λ last e. rested_of now profile last (ground arith) e;
    unlocked = λ run e. unlocked_of now profile run (ground arith) e;
    on_slot = (any-OnSlot zones now profile).0 (ground arith);
  },
  λ m. ground (
    arith,
    eq_iff profile.schedule_frequency "disabled",
    debounced_of now profile m.rested,
    free_of now profile m.unlocked,
    (any-OnSlot zones now profile).1 m.on_slot,
  ),
)
