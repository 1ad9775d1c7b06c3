-- ===== src/Fanout/Steps.antt =====
-- What every step of a fan-out keeps.
use mathlib.Core.List.{Memᴰ}
use mathlib.Core.List.Memᴰ.{head, tail}
use briefed.Base.{
  if-elim, ℕ, ◌+◌, ◌≡◌, refl, subst, String, List, [], ◌∷◌, ◌++◌, Bool, true, false, not, some,
  filter, str_eq, length, length-append, All, All-append, All-map, arith, eq_iff,
}
use briefed.Schedule.{is_due}
use briefed.Tables.{User, ConnectedAccount, save_user}
use briefed.Fanout.{
  IngestMessage, Deps, State, has_current_legal_consent, schedule_view, is_scanned, send_messages,
  acquire, enqueue, fan_out_user, fan_out_users, with_lock, message_for,
}

-- Why a message may be sent: its user is one of the given rows, has consented and is due, and its
-- account is one of the user's own, active and scanned.
module _ (deps : Deps) (now : ℕ) (users : List User) (accounts : List ConnectedAccount) where
  pub record Justified (m : IngestMessage) : Type 0 where
    pub user : User
    pub account : ConnectedAccount
    pub listed : Memᴰ user users
    pub consented : has_current_legal_consent user ≡ true
    pub due : is_due deps.zones now (schedule_view user) ≡ true
    pub owned : Memᴰ account accounts
    pub scanned : is_scanned user account ≡ true
    pub to_user : m.user_id ≡ user.id
    pub to_account : m.account_id ≡ account.id

-- A row that holds a lock taken at `now`.
abbrev pub HeldAt : ℕ → User → Type 0
HeldAt now u =
    ((run : String) × (u.current_run_id ≡ some run)) × (u.current_run_started_at ≡ some now)

abbrev pub IsLockedAt : ℕ → String → List User → Type 0
IsLockedAt now id users = All (λ u. u.id ≡ id → HeldAt now u) users

not-false : (b : Bool) → not b ≡ false → b ≡ true
not-false b h = ground arith

module _ (now : ℕ) (id run : String) where
  save_user-IsLockedAt_self :
      (users : List User) → IsLockedAt now id (save_user id (with_lock (some run) (some now)) users)
  unfolding save_user
  save_user-IsLockedAt_self [] = tt
  save_user-IsLockedAt_self (u ∷ users) =
      let rest = save_user-IsLockedAt_self users in
      (
        if-elim (λ v. v.id ≡ id → HeldAt now v) (str_eq u.id id) (λ same _. ((run, refl), refl))
            (λ other e. absurd (ground (arith, eq_iff u.id id))),
        rest,
      )

  save_user-IsLockedAt :
      (j : String) (users : List User)
      → IsLockedAt now j users
      → IsLockedAt now j (save_user id (with_lock (some run) (some now)) users)
  unfolding save_user
  save_user-IsLockedAt j [] h = tt
  save_user-IsLockedAt j (u ∷ users) h =
      let rest = save_user-IsLockedAt j users h.1 in
      (
        if-elim (λ v. v.id ≡ j → HeldAt now v) (str_eq u.id id) (λ same _. ((run, refl), refl))
            (λ other. h.0),
        rest,
      )

module _ (deps : Deps) (now : ℕ) (users : List User) (accounts : List ConnectedAccount) where
  -- The state of a tick that began with these rows.
  pub record Ticked (s : State) : Type 0 where
    pub accounts_kept : s.db.accounts ≡ accounts
    pub counted : s.enqueued ≡ length s.sent
    pub justified : All (Justified deps now users accounts) s.sent
    pub locked : All (λ m. IsLockedAt now m.user_id s.db.users) s.sent

  module _ (user : User) (run : String) where
    send_messages-Ticked :
        (todo : List ConnectedAccount) (s : State)
        → Ticked s
        → IsLockedAt now user.id s.db.users
        → All (λ a. Justified deps now users accounts (message_for deps user run a)) todo
        → Ticked (send_messages deps user run todo s).1
    unfolding send_messages message_for
    send_messages-Ticked [] s t held j = t
    send_messages-Ticked (a ∷ todo) s t held j =
        let m = message_for deps user run a in
        let s' : State = record s { sent = s.sent ++ m ∷ []; enqueued = s.enqueued + 1 } in
        let t' : Ticked s' = record {
          accounts_kept = t.accounts_kept;
          counted = omega (arith, t.counted, length-append s.sent (m ∷ []));
          justified =
              All-append (Justified deps now users accounts) s.sent (m ∷ []) t.justified (j.0, tt);
          locked =
              All-append (λ m'. IsLockedAt now m'.user_id s.db.users) s.sent (m ∷ []) t.locked
                (held, tt);
        } in
        if-elim (λ (r : Bool × State). Ticked r.1) (deps.accepts s.sent m)
          (λ _. send_messages-Ticked todo s' t' held j.1) (λ _. t)

  acquire-Ticked :
      (user : User) (todo : List ConnectedAccount) (s : State)
      → Ticked s
      → Ticked (acquire deps now user todo s)
  unfolding acquire
  acquire-Ticked user todo s t = record {
    accounts_kept = t.accounts_kept;
    counted = t.counted;
    justified = t.justified;
    locked =
        All-map
          (λ m h. save_user-IsLockedAt now user.id (deps.new_uuid s.ids) m.user_id s.db.users h)
          s.sent t.locked;
  }

  acquire-IsLockedAt :
      (user : User) (todo : List ConnectedAccount) (s : State)
      → IsLockedAt now user.id (acquire deps now user todo s).db.users
  unfolding acquire
  acquire-IsLockedAt user todo s =
      save_user-IsLockedAt_self now user.id (deps.new_uuid s.ids) s.db.users

  enqueue-Ticked :
      (user : User) (todo : List ConnectedAccount) (s : State)
      → Ticked s
      → ((run : String)
          → All (λ a. Justified deps now users accounts (message_for deps user run a)) todo)
      → Ticked (enqueue deps now user todo s).1
  unfolding enqueue
  enqueue-Ticked user [] s t j = t
  enqueue-Ticked user (a ∷ todo) s t j =
      send_messages-Ticked user (deps.new_uuid s.ids) (a ∷ todo)
        (acquire deps now user (a ∷ todo) s) (acquire-Ticked user (a ∷ todo) s t)
        (acquire-IsLockedAt user (a ∷ todo) s) (j (deps.new_uuid s.ids))

  scanned-Justified :
      (user : User)
      → Memᴰ user users
      → has_current_legal_consent user ≡ true
      → is_due deps.zones now (schedule_view user) ≡ true
      → (xs : List ConnectedAccount) → ((a : ConnectedAccount) → Memᴰ a xs → Memᴰ a accounts)
      → (run : String)
      → All
          (λ a. Justified deps now users accounts (message_for deps user run a))
          (filter (is_scanned user) xs)
  unfolding message_for
  scanned-Justified user listed consented due [] within run = tt
  scanned-Justified user listed consented due (a ∷ xs) within run =
      let rest = scanned-Justified user listed consented due xs (λ b m. within b (tail m)) run in
      if-elim (All (λ b. Justified deps now users accounts (message_for deps user run b)))
        (is_scanned user a)
        (λ scanned. (
          record {
            user = user;
            account = a;
            listed = listed;
            consented = consented;
            due = due;
            owned = within a (head refl);
            scanned = scanned;
            to_user = refl;
            to_account = refl;
          },
          rest,
        ))
        (λ _. rest)

  fan_out_user-Ticked :
      (user : User) (s : State)
      → Memᴰ user users
      → Ticked s
      → Ticked (fan_out_user deps now user s).1
  unfolding fan_out_user
  fan_out_user-Ticked user s listed t =
      if-elim (λ (r : Bool × State). Ticked r.1) (not (has_current_legal_consent user)) (λ _. t)
        (λ consented.
          if-elim (λ (r : Bool × State). Ticked r.1)
            (not (is_due deps.zones now (schedule_view user))) (λ _. t)
            (λ due. enqueue-Ticked user (filter (is_scanned user) s.db.accounts) s t (
              scanned-Justified user listed (not-false _ consented) (not-false _ due) s.db.accounts
                (λ a m. subst (Memᴰ a) t.accounts_kept m))))

  pub fan_out_users-Ticked :
      (todo : List User) (s : State)
      → ((u : User) → Memᴰ u todo → Memᴰ u users)
      → Ticked s
      → Ticked (fan_out_users deps now todo s).1
  unfolding fan_out_users
  fan_out_users-Ticked [] s listed t = t
  fan_out_users-Ticked (user ∷ todo) s listed t =
      let s' : State = (fan_out_user deps now user s).1 in
      let t' : Ticked s' = fan_out_user-Ticked user s (listed user (head refl)) t in
      if-elim (λ (r : Bool × State). Ticked r.1) (fan_out_user deps now user s).0
        (λ _. fan_out_users-Ticked todo s' (λ u m. listed u (tail m)) t') (λ _. t')
