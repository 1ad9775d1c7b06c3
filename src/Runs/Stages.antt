-- ===== src/Runs/Stages.antt =====
-- The two stages of `maybe_finalize_run` that dispatch work, case by case.
use briefed.Base.{
  if-elim, ℕ, ◌≡◌, refl, String, List, [], ◌∷◌, ◌++◌, Bool, true, false, not, ◌&&◌, Option, none,
  some, is_some, map, take, ltb, length, ◌==◌, if◌then◌else◌, arith,
}
use briefed.Tables.{DigestRun, Claim, Db, save_run}
use briefed.Runs.Progress.{
  RunProgressSnapshot, run_newsletters, min_cluster_newsletters, missing_categories,
}
use briefed.Runs.{
  CategoryDigestMessage, TechNewsClusterMessage, State, Senders, claim, find_run, claim_cluster,
  dispatch_cluster, dispatch_category, dispatch_categories, cluster_stage, category_stage,
  newest_first, max_cluster_newsletters,
}

abbrev pub with_enqueued : ℕ → DigestRun → DigestRun
with_enqueued now run = record run { tech_news_cluster_enqueued_at = some now }

module _ (now : ℕ) (run_id : String) where
  pub data ClaimStep (db : Db) : Bool × Db → Type 0 where
    kept : ClaimStep db (false, db)
    taken : ClaimStep db (true, record db { runs = save_run run_id (with_enqueued now) db.runs })

  claim_cluster-ClaimStep : (db : Db) → ClaimStep db (claim_cluster now run_id db)
  unfolding claim_cluster
  claim_cluster-ClaimStep db =
      elim (find_run run_id db)
        as (λ o. ClaimStep db (elim o [
          | none ↦ (false, db)
          | some r ↦ if is_some r.tech_news_cluster_enqueued_at then (false, db) else (
            true,
            record db {
              runs =
                  save_run run_id (λ run. record run { tech_news_cluster_enqueued_at = some now })
                    db.runs;
            },
          )
        ])) [
          | none ↦ kept
          | some r ↦
              if-elim (ClaimStep db) (is_some r.tech_news_cluster_enqueued_at) (λ _. kept)
                (λ _. taken)
        ]

  pub data ClusterStep (s : State) : State → Type 0 where
    kept : ClusterStep s s
    sent :
        (message : TechNewsClusterMessage)
        → ClusterStep s (record s {
          db = record s.db { runs = save_run run_id (with_enqueued now) s.db.runs };
          clusters = s.clusters ++ message ∷ [];
        })

  won-ClusterStep :
      (message : TechNewsClusterMessage) (s : State) (p : Bool × Db)
      → ClaimStep s.db p
      → ClusterStep s
          (if p.0 then record s { db = p.1; clusters = s.clusters ++ message ∷ [] } else s)
  won-ClusterStep message s p kept = kept
  won-ClusterStep message s p taken = sent message

pub cluster_stage-ClusterStep :
    (senders : Senders) (now : ℕ) (run : DigestRun) (account_ids : List String)
    (snapshot : RunProgressSnapshot) (s : State)
    → ClusterStep now run.id s (cluster_stage senders now run account_ids snapshot s)
unfolding cluster_stage dispatch_cluster
cluster_stage-ClusterStep senders now run account_ids snapshot s =
    let ids =
      map (λ e. e.id)
        (take max_cluster_newsletters (newest_first (run_newsletters s.db run.id account_ids))) in
    if-elim (ClusterStep now run.id s)
      ((snapshot.pending_unclassified == 0) && not (snapshot.pending_clusters == 0))
      (λ _.
        if-elim (ClusterStep now run.id s) (not senders.tech_news_cluster_sender) (λ _. kept)
          (λ _.
            if-elim (ClusterStep now run.id s) (ltb (length ids) min_cluster_newsletters)
              (λ _. kept)
              (λ _.
                won-ClusterStep now run.id
                  (record { user_id = run.user_id; run_id = run.id; email_ids = ids }) s
                  (claim_cluster now run.id s.db) (claim_cluster-ClaimStep now run.id s.db))))
      (λ _. kept)

module _ (senders : Senders) (run_id category : String) (s : State) where
  abbrev pub digest_message : CategoryDigestMessage
  digest_message = record { run_id = run_id; category = category }

  abbrev pub digest_claim : Bool × List Claim
  digest_claim = claim run_id category s.db.runs s.db.digest_claims

  -- A message is sent, or a digest built, only with a new claim.
  pub data CategoryStep : Bool × State → Type 0 where
    kept : CategoryStep (false, s)
    claimed :
        digest_claim.0 ≡ true
        → CategoryStep (false, record s { db = record s.db { digest_claims = digest_claim.1 } })
    queued :
        digest_claim.0 ≡ true
        → CategoryStep (
          false,
          record s {
            db = record s.db { digest_claims = digest_claim.1 };
            digests = s.digests ++ digest_message ∷ [];
          },
        )
    built :
        digest_claim.0 ≡ true
        → (build : CategoryDigestMessage → Db → Db) → senders.category_digest_builder ≡ some build
        → CategoryStep (
          true,
          record s {
            db = build digest_message (record s.db { digest_claims = digest_claim.1 });
            digests = s.digests ++ digest_message ∷ [];
          },
        )

not-false : (b : Bool) → not b ≡ false → b ≡ true
not-false b h = ground arith

module _ (senders : Senders) (run_id category : String) (s : State) where
  inline-CategoryStep :
      (digest_claim senders run_id category s).0 ≡ true
      → (builder : Option (CategoryDigestMessage → Db → Db))
      → senders.category_digest_builder ≡ builder
      → CategoryStep senders run_id category s (elim builder [
        | none ↦ (
          false,
          record s {
            db = record s.db { digest_claims = (digest_claim senders run_id category s).1 };
          },
        )
        | some build ↦ (
          true,
          record s {
            db =
                build
                  (digest_message senders run_id category s)
                  (record s.db { digest_claims = (digest_claim senders run_id category s).1 });
            digests = s.digests ++ digest_message senders run_id category s ∷ [];
          },
        )
      ])
  inline-CategoryStep won none e = claimed won
  inline-CategoryStep won (some build) e = built won build e

  pub dispatch_category-CategoryStep :
      CategoryStep senders run_id category s (dispatch_category senders run_id category s)
  unfolding dispatch_category
  dispatch_category-CategoryStep =
      let k = digest_claim senders run_id category s in
      let P = CategoryStep senders run_id category s in
      if-elim P (not k.0) (λ _. kept)
        (λ won.
          if-elim P senders.category_digest_sender (λ _. queued (not-false _ won))
            (λ _. inline-CategoryStep (not-false _ won) senders.category_digest_builder refl))

-- What every case of a stage keeps, the stage keeps.
module _ {ℓ} (P : State → Type ℓ) (senders : Senders) (run_id : String)
    (step : (category : String) (s : State) (r : Bool × State)
      → P s
      → CategoryStep senders run_id category s r
      → P r.1) where
  dispatch_categories-keeps :
      (categories : List String) (s : State)
      → P s
      → P (dispatch_categories senders run_id categories s).1
  unfolding dispatch_categories
  dispatch_categories-keeps [] s h = h
  dispatch_categories-keeps (c ∷ cs) s h =
      let first : Bool × State =
        if not senders.category_digest_sender && not (is_some senders.category_digest_builder)
        then (false, s)
        else dispatch_category senders run_id c s in
      dispatch_categories-keeps cs first.1 (
        if-elim (λ (r : Bool × State). P r.1)
          (not senders.category_digest_sender && not (is_some senders.category_digest_builder))
          (λ _. h) (λ _. step c s _ h (dispatch_category-CategoryStep senders run_id c s)))

pub category_stage-keeps {ℓ} :
    (P : State → Type ℓ) (senders : Senders) (run : DigestRun) (account_ids : List String)
    (snapshot : RunProgressSnapshot)
    → ((category : String) (s : State) (r : Bool × State)
        → P s
        → CategoryStep senders run.id category s r
        → P r.1)
    → (s : State) → P s
    → P (category_stage senders run account_ids snapshot s).1
unfolding category_stage
category_stage-keeps P senders run account_ids snapshot step s h =
    if-elim (λ (r : Bool × State). P r.1)
      ((snapshot.pending_unclassified == 0) && (snapshot.pending_summaries == 0))
      (λ _.
        dispatch_categories-keeps P senders run.id step (missing_categories s.db run.id account_ids)
          s h)
      (λ _. h)
