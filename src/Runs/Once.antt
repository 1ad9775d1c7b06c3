-- ===== src/Runs/Once.antt =====
-- How often the digest of a category is sent for a run.
use briefed.Base.{
  if-elim, ℕ, ◌≤◌, ◌≡◌, sym, subst, String, List, [], ◌∷◌, ◌++◌, Bool, true, false, not, ◌&&◌, ◌||◌,
  Option, none, some, any, filter, filter-append, length, length-append, str_eq, eq_iff, ◌==◌,
  arith, Bool-cases, Option-cases, inl, inr, if◌then◌else◌,
}
use briefed.Tables.{DigestRun, Claim, save_run}
use briefed.Runs.Progress.{RunProgressSnapshot, progress_snapshot, pending_total}
use briefed.Runs.{
  CategoryDigestMessage, State, Senders, find_run, claim, mark_run_running, stamp_run_membership,
  mark_unsubscribe_hygiene_enqueued, settle, finalize_run, maybe_finalize_run, account_scope,
  is_terminal, with_progress,
}
use briefed.Runs.Stages.{
  ClusterStep, CategoryStep, kept, sent, claimed, queued, built, digest_message,
  cluster_stage-ClusterStep, category_stage-keeps,
}
use briefed.Runs.Steps.{
  KeepsClaims, Step, started, marked, stamped, enqueued, finalized, worked, Steps, done, then_step,
}

module _ (run_id category : String) where
  abbrev pub digests_for : List CategoryDigestMessage → List CategoryDigestMessage
  digests_for = filter (λ m. str_eq m.run_id run_id && str_eq m.category category)

  abbrev is_claimed : List Claim → Bool
  is_claimed = any (λ c. str_eq c.run_id run_id && str_eq c.claimed category)

  -- A digest that was sent has its claim.
  abbrev Paid : List Claim → List CategoryDigestMessage → Type 0
  Paid claims digests = length (digests_for digests) ≤ (if is_claimed claims then 1 else 0)

  is_claimed-append :
      (claims : List Claim) (c : Claim)
      → is_claimed (claims ++ c ∷ [])
        ≡ (is_claimed claims || (str_eq c.run_id run_id && str_eq c.claimed category))
  is_claimed-append [] c = ground arith
  is_claimed-append (x ∷ claims) c = ground (arith, is_claimed-append claims c)

  claim-Paid :
      (run_id' category' : String) (runs : List DigestRun) (claims : List Claim)
      (digests : List CategoryDigestMessage)
      → Paid claims digests
      → Paid (claim run_id' category' runs claims).1 digests
  unfolding claim
  claim-Paid run_id' category' runs claims digests paid =
      ground
        (arith, paid, is_claimed-append claims (record { run_id = run_id'; claimed = category' }))

  own-Paid :
      (runs : List DigestRun) (claims : List Claim) (digests : List CategoryDigestMessage)
      → Paid claims digests
      → (claim run_id category runs claims).0 ≡ true
      → Paid
          (claim run_id category runs claims).1
          (digests ++ record { run_id = run_id; category = category } ∷ [])
  unfolding claim
  own-Paid runs claims digests paid won =
      let c : Claim = record { run_id = run_id; claimed = category } in
      let m : CategoryDigestMessage = record { run_id = run_id; category = category } in
      let both =
        filter-append (λ m. str_eq m.run_id run_id && str_eq m.category category) digests
          (m ∷ []) in
      ground (
        arith,
        both,
        length-append (digests_for digests) (digests_for (m ∷ [])),
        is_claimed-append claims c,
        eq_iff run_id run_id,
        eq_iff category category,
      )

  other-Paid :
      (m : CategoryDigestMessage) (claims : List Claim) (digests : List CategoryDigestMessage)
      → (str_eq m.run_id run_id && str_eq m.category category) ≡ false
      → Paid claims digests
      → Paid claims (digests ++ m ∷ [])
  other-Paid m claims digests other paid = ground (
    arith,
    filter-append (λ m. str_eq m.run_id run_id && str_eq m.category category) digests (m ∷ []),
    length-append (digests_for digests) (digests_for (m ∷ [])),
  )

won-Paid :
    (run_id category : String) (m : CategoryDigestMessage) (runs : List DigestRun)
    (claims : List Claim) (digests : List CategoryDigestMessage)
    → Paid run_id category claims digests
    → (claim m.run_id m.category runs claims).0 ≡ true
    → Paid run_id category (claim m.run_id m.category runs claims).1 (digests ++ m ∷ [])
won-Paid run_id category m runs claims digests paid won =
    elim (Bool-cases (str_eq m.run_id run_id && str_eq m.category category)) [
      | inl same ↦
          let run_same : m.run_id ≡ run_id = ground (arith, same, eq_iff m.run_id run_id) in
          let category_same : m.category ≡ category =
            ground (arith, same, eq_iff m.category category) in
          let at_run = λ (P : String → String → Type 0) (h : P m.run_id m.category).
            subst (λ c. P run_id c) category_same (subst (λ r. P r m.category) run_same h) in
          at_run
            (λ r c.
              Paid r c claims digests
              → Paid r c (claim m.run_id m.category runs claims).1 (digests ++ m ∷ []))
            (λ paid'. own-Paid m.run_id m.category runs claims digests paid' won) paid
      | inr other ↦
          other-Paid run_id category m _ digests other
            (claim-Paid run_id category m.run_id m.category runs claims digests paid)
    ]

module _ (run_id category : String) where
  abbrev IsPaid : State → Type 0
  IsPaid s = Paid run_id category s.db.digest_claims s.digests

  ClusterStep-IsPaid :
      (now : ℕ) (id : String) (s s' : State) → IsPaid s → ClusterStep now id s s' → IsPaid s'
  ClusterStep-IsPaid now id s s' paid kept = paid
  ClusterStep-IsPaid now id s s' paid (sent message) = paid

  CategoryStep-IsPaid :
      (senders : Senders)
      → KeepsClaims senders
      → (id key : String) (s : State) (r : Bool × State) → IsPaid s
      → CategoryStep senders id key s r
      → IsPaid r.1
  CategoryStep-IsPaid senders keep id key s r paid kept = paid
  CategoryStep-IsPaid senders keep id key s r paid (claimed won) =
      claim-Paid run_id category id key s.db.runs s.db.digest_claims s.digests paid
  CategoryStep-IsPaid senders keep id key s r paid (queued won) =
      won-Paid run_id category (digest_message senders id key s) s.db.runs s.db.digest_claims
        s.digests paid won
  CategoryStep-IsPaid senders keep id key s r paid (built won build e) =
      let now_paid =
        won-Paid run_id category (digest_message senders id key s) s.db.runs s.db.digest_claims
          s.digests paid won in
      subst
        (λ claims. Paid run_id category claims (s.digests ++ digest_message senders id key s ∷ []))
        (sym (keep build e _ _).1) now_paid

  settle-IsPaid :
      (now : ℕ) (user_id id : String) (account_ids : List String) (snapshot : RunProgressSnapshot)
      (s : State)
      → IsPaid s
      → IsPaid (settle now user_id id account_ids snapshot s).1
  unfolding settle
  settle-IsPaid now user_id id account_ids snapshot s paid =
      if-elim (λ (r : Bool × State). IsPaid r.1) (pending_total snapshot == 0) (λ _. paid)
        (λ _. paid)

  finalize_run-IsPaid :
      (senders : Senders)
      → KeepsClaims senders
      → (now : ℕ) (user_id : String) (run : DigestRun) (s : State) → IsPaid s
      → IsPaid (finalize_run senders now user_id run s).1
  unfolding finalize_run
  finalize_run-IsPaid senders keep now user_id run s paid =
      let ids = account_scope s.db user_id run in
      let snapshot = progress_snapshot s.db user_id run.id ids in
      let s1 : State = record s {
        db = record s.db { runs = save_run run.id (with_progress ids snapshot) s.db.runs };
      } in
      settle-IsPaid now user_id run.id ids _ _ (
        category_stage-keeps IsPaid senders run ids snapshot
          (λ key t r. CategoryStep-IsPaid senders keep run.id key t r) _
          (ClusterStep-IsPaid now run.id s1 _ paid
            (cluster_stage-ClusterStep senders now run ids snapshot s1)))

  maybe_finalize_run-IsPaid :
      (senders : Senders)
      → KeepsClaims senders
      → (now : ℕ) (user_id : String) (id : Option String) (s : State) → IsPaid s
      → IsPaid (maybe_finalize_run senders now user_id id s).1
  unfolding maybe_finalize_run
  maybe_finalize_run-IsPaid senders keep now user_id none s paid = paid
  maybe_finalize_run-IsPaid senders keep now user_id (some id) s paid =
      elim (Option-cases (find_run id s.db)) [
        | inl e ↦ rw (e, maybe_finalize_run) paid
        | inr (run, e) ↦
            rw (e, maybe_finalize_run)
              (if-elim (λ (r : Bool × State). IsPaid r.1)
                (not (str_eq run.user_id user_id) || is_terminal run) (λ _. paid)
                (λ _. finalize_run-IsPaid senders keep now user_id run s paid))
      ]

  Step-IsPaid : (s s' : State) → IsPaid s → Step s s' → IsPaid s'
  unfolding mark_run_running stamp_run_membership mark_unsubscribe_hygiene_enqueued
  Step-IsPaid s s' paid (started run fresh) = paid
  Step-IsPaid s s' paid (marked none) = paid
  Step-IsPaid s s' paid (marked (some id)) = paid
  Step-IsPaid s s' paid (stamped none email_ids) = paid
  Step-IsPaid s s' paid (stamped (some id) email_ids) = paid
  Step-IsPaid s s' paid (enqueued none account_id) = paid
  Step-IsPaid s s' paid (enqueued (some id) account_id) = paid
  Step-IsPaid s s' paid (finalized senders keep now user_id id) =
      maybe_finalize_run-IsPaid senders keep now user_id id s paid
  Step-IsPaid s s' paid (worked db runs_same claims_same) =
      subst (λ claims. Paid run_id category claims s.digests) (sym claims_same) paid

  Steps-IsPaid : (s s' : State) → IsPaid s → Steps s s' → IsPaid s'
  Steps-IsPaid s s' paid done = paid
  Steps-IsPaid s s' paid (then_step {s1} steps step) =
      Step-IsPaid s1 s' (Steps-IsPaid s s1 paid steps) step

-- Whatever happens to runs, in any order, the digest of a category is sent or built at most once for a
-- run, where the other handlers and the inline builder write no run and no claim of a digest.
pub digests_for-le-one :
    (run_id category : String) (s s' : State)
    → s.digests ≡ []
    → Steps s s'
    → length (digests_for run_id category s'.digests) ≤ 1
digests_for-le-one run_id category s s' empty steps =
    let start : IsPaid run_id category s =
      subst (Paid run_id category s.db.digest_claims) (sym empty) (ground arith) in
    let paid = Steps-IsPaid run_id category s s' start steps in ground (arith, paid)
