-- ===== src/Fanout/Complete.antt =====
-- What one tick does not miss.
use mathlib.Core.List.{Memᴰ}
use mathlib.Core.List.Memᴰ
use mathlib.Core.List.Memᴰ.{head}
use briefed.Base.{
  if-elim, filter-mem, ℕ, ◌+◌, ◌≡◌, refl, sym, ap, subst, String, List, [], ◌∷◌, ◌++◌, Bool, true,
  not, Option, filter, arith, inl, inr,
}
use briefed.Schedule.{is_due}
use briefed.Tables.{User, ConnectedAccount, Db}
use briefed.Fanout.{
  IngestMessage, Deps, State, is_candidate, is_scanned, run_fanout, has_current_legal_consent,
  schedule_view, message_for, send_messages, acquire, enqueue, fan_out_user, fan_out_users,
}

-- Some message for the account of the user.
abbrev pub IsSentTo : User → ConnectedAccount → List IngestMessage → Type 0
IsSentTo user account sent =
    (m : IngestMessage) × Memᴰ m sent × (m.user_id ≡ user.id) × (m.account_id ≡ account.id)

module _ (deps : Deps) (now : ℕ) (m : IngestMessage) where
  send_messages-keeps :
      (user : User) (run : String) (todo : List ConnectedAccount) (s : State)
      → Memᴰ m s.sent
      → Memᴰ m (send_messages deps user run todo s).1.sent
  unfolding send_messages
  send_messages-keeps user run [] s h = h
  send_messages-keeps user run (a ∷ todo) s h =
      let m' = message_for deps user run a in
      let s' : State = record s { sent = s.sent ++ m' ∷ []; enqueued = s.enqueued + 1 } in
      if-elim (λ (r : Bool × State). Memᴰ m r.1.sent) (deps.accepts s.sent m')
        (λ _. send_messages-keeps user run todo s' (Memᴰ.append_left (m' ∷ []) h)) (λ _. h)

  enqueue-keeps :
      (user : User) (todo : List ConnectedAccount) (s : State)
      → Memᴰ m s.sent
      → Memᴰ m (enqueue deps now user todo s).1.sent
  unfolding enqueue acquire
  enqueue-keeps user [] s h = h
  enqueue-keeps user (a ∷ todo) s h =
      send_messages-keeps user (deps.new_uuid s.ids) (a ∷ todo) (acquire deps now user (a ∷ todo) s)
        h

  fan_out_user-keeps :
      (user : User) (s : State) → Memᴰ m s.sent → Memᴰ m (fan_out_user deps now user s).1.sent
  unfolding fan_out_user
  fan_out_user-keeps user s h =
      if-elim (λ (r : Bool × State). Memᴰ m r.1.sent) (not (has_current_legal_consent user))
        (λ _. h)
        (λ _.
          if-elim (λ (r : Bool × State). Memᴰ m r.1.sent)
            (not (is_due deps.zones now (schedule_view user))) (λ _. h)
            (λ _. enqueue-keeps user (filter (is_scanned user) s.db.accounts) s h))

  fan_out_users-keeps :
      (todo : List User) (s : State) → Memᴰ m s.sent → Memᴰ m (fan_out_users deps now todo s).1.sent
  unfolding fan_out_users
  fan_out_users-keeps [] s h = h
  fan_out_users-keeps (user ∷ todo) s h =
      let h' = fan_out_user-keeps user s h in
      if-elim (λ (r : Bool × State). Memᴰ m r.1.sent) (fan_out_user deps now user s).0
        (λ _. fan_out_users-keeps todo (fan_out_user deps now user s).1 h') (λ _. h')

module _ (deps : Deps) (now : ℕ) where
  send_messages-sends :
      (user : User) (run : String) (account : ConnectedAccount) (todo : List ConnectedAccount)
      (s : State)
      → Memᴰ account todo
      → (send_messages deps user run todo s).0 ≡ true
      → IsSentTo user account (send_messages deps user run todo s).1.sent
  unfolding send_messages
  send_messages-sends user run account [] s listed completed = absurd (Memᴰ.not-nil listed)
  send_messages-sends user run account (a ∷ todo) s listed completed =
      let m' = message_for deps user run a in
      let s' : State = record s { sent = s.sent ++ m' ∷ []; enqueued = s.enqueued + 1 } in
      if-elim (λ (r : Bool × State). r.0 ≡ true → IsSentTo user account r.1.sent)
        (deps.accepts s.sent m')
        (λ _ done. elim (Memᴰ.cases_cons listed) [
          | inl e ↦ (
            m',
            send_messages-keeps deps now m' user run todo s' (Memᴰ.append_right s.sent (head refl)),
            refl,
            ap (λ (x : ConnectedAccount). x.id) (sym e),
          )
          | inr later ↦ send_messages-sends user run account todo s' later done
        ])
        (λ _ stopped. absurd (ground arith)) completed

  enqueue-sends :
      (user : User) (account : ConnectedAccount) (todo : List ConnectedAccount) (s : State)
      → Memᴰ account todo
      → (enqueue deps now user todo s).0 ≡ true
      → IsSentTo user account (enqueue deps now user todo s).1.sent
  unfolding enqueue
  enqueue-sends user account [] s listed completed = absurd (Memᴰ.not-nil listed)
  enqueue-sends user account (a ∷ todo) s listed completed =
      send_messages-sends user (deps.new_uuid s.ids) account (a ∷ todo)
        (acquire deps now user (a ∷ todo) s) listed completed

  send_messages-accounts :
      (user : User) (run : String) (todo : List ConnectedAccount) (s : State)
      → (send_messages deps user run todo s).1.db.accounts ≡ s.db.accounts
  unfolding send_messages
  send_messages-accounts user run [] s = refl
  send_messages-accounts user run (a ∷ todo) s =
      let m = message_for deps user run a in
      let s' : State = record s { sent = s.sent ++ m ∷ []; enqueued = s.enqueued + 1 } in
      if-elim (λ (r : Bool × State). r.1.db.accounts ≡ s.db.accounts) (deps.accepts s.sent m)
        (λ _. send_messages-accounts user run todo s') (λ _. refl)

  enqueue-accounts :
      (user : User) (todo : List ConnectedAccount) (s : State)
      → (enqueue deps now user todo s).1.db.accounts ≡ s.db.accounts
  unfolding enqueue acquire
  enqueue-accounts user [] s = refl
  enqueue-accounts user (a ∷ todo) s =
      send_messages-accounts user (deps.new_uuid s.ids) (a ∷ todo)
        (acquire deps now user (a ∷ todo) s)

  fan_out_user-accounts :
      (user : User) (s : State) → (fan_out_user deps now user s).1.db.accounts ≡ s.db.accounts
  unfolding fan_out_user
  fan_out_user-accounts user s =
      if-elim (λ (r : Bool × State). r.1.db.accounts ≡ s.db.accounts)
        (not (has_current_legal_consent user)) (λ _. refl)
        (λ _.
          if-elim (λ (r : Bool × State). r.1.db.accounts ≡ s.db.accounts)
            (not (is_due deps.zones now (schedule_view user))) (λ _. refl)
            (λ _. enqueue-accounts user (filter (is_scanned user) s.db.accounts) s))

module _ (deps : Deps) (now : ℕ) (user : User) (account : ConnectedAccount)
    (consented : has_current_legal_consent user ≡ true)
    (due : is_due deps.zones now (schedule_view user) ≡ true)
    (scanned : is_scanned user account ≡ true) where
  fan_out_user-sends :
      (s : State)
      → Memᴰ account s.db.accounts
      → (fan_out_user deps now user s).0 ≡ true
      → IsSentTo user account (fan_out_user deps now user s).1.sent
  unfolding fan_out_user
  fan_out_user-sends s owned =
      let Sends = λ (r : Bool × State). r.0 ≡ true → IsSentTo user account r.1.sent in
      if-elim Sends (not (has_current_legal_consent user)) (λ refused. absurd (ground arith))
        (λ _.
          if-elim Sends (not (is_due deps.zones now (schedule_view user)))
            (λ early. absurd (ground arith))
            (λ _ completed.
              enqueue-sends deps now user account (filter (is_scanned user) s.db.accounts) s
                (filter-mem (is_scanned user) s.db.accounts account owned scanned) completed))

  fan_out_users-sends :
      (todo : List User) (s : State)
      → Memᴰ user todo
      → Memᴰ account s.db.accounts
      → (fan_out_users deps now todo s).0 ≡ true
      → IsSentTo user account (fan_out_users deps now todo s).1.sent
  unfolding fan_out_users
  fan_out_users-sends [] s listed owned completed = absurd (Memᴰ.not-nil listed)
  fan_out_users-sends (u ∷ todo) s listed owned completed =
      let s' : State = (fan_out_user deps now u s).1 in
      let Sends = λ (r : Bool × State). r.0 ≡ true → IsSentTo user account r.1.sent in
      let owned' = subst (Memᴰ account) (sym (fan_out_user-accounts deps now u s)) owned in
      if-elim Sends (fan_out_user deps now u s).0
        (λ reached done. elim (Memᴰ.cases_cons listed) [
          | inl e ↦
              let (m, sent, to_user, to_account) =
                fan_out_user-sends s owned
                  (subst (λ v. (fan_out_user deps now v s).0 ≡ true) (sym e) reached) in
              (
                m,
                fan_out_users-keeps deps now m todo s'
                    (subst (λ v. Memᴰ m (fan_out_user deps now v s).1.sent) e sent),
                to_user,
                to_account,
              )
          | inr later ↦ fan_out_users-sends todo s' later owned' done
        ])
        (λ stopped done. absurd (ground arith)) completed

-- A tick that ends without an exception has sent, for every candidate user who has consented and is
-- due, a message for each of the user's own accounts that are active and scanned.
pub run_fanout-sends :
    (deps : Deps) (user_id : Option String) (now : ℕ) (db : Db) (ids : ℕ)
    → (run_fanout deps user_id now db ids).0 ≡ true
    → (user : User) (account : ConnectedAccount)
    → Memᴰ user (filter (is_candidate deps user_id) db.users)
    → has_current_legal_consent user ≡ true
    → is_due deps.zones now (schedule_view user) ≡ true
    → Memᴰ account db.accounts
    → is_scanned user account ≡ true
    → IsSentTo user account (run_fanout deps user_id now db ids).1.sent
unfolding run_fanout
run_fanout-sends deps user_id now db ids completed user account listed consented due owned scanned =
    fan_out_users-sends deps now user account consented due scanned
      (filter (is_candidate deps user_id) db.users)
      (record { db = db; sent = []; ids = ids; enqueued = 0 }) listed owned completed
