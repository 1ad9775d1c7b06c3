-- ===== src/Runs/Later.antt =====
-- Rows of runs over time, and what `save_run` does to them.
use briefed.Base.{
  ◌≡◌, refl, sym, subst, ◌∙◌, String, List, [], ◌∷◌, ◌++◌, false, Option, some, str_eq, eq_iff,
  arith, Bool-cases, inl, inr,
}
use briefed.Tables.{DigestRun, save_run}
use briefed.Runs.Progress.{find_by}
use briefed.Runs.{is_terminal}
use briefed.Runs.Work.{find_run-save_run}

-- A later row of the same run: an ended run is as it was, and none goes back to `queued`.
pub data Later (r : DigestRun) : DigestRun → Type 0 where
  same : Later r r
  moved :
      {r' : DigestRun}
      → is_terminal r ≡ false
      → r'.id ≡ r.id
      → r'.user_id ≡ r.user_id
      → r'.started_at ≡ r.started_at
      → (r'.status ≡ "queued" → r.status ≡ "queued")
      → Later r r'

abbrev pub find : String → List DigestRun → Option DigestRun
find id runs = find_by (λ x. str_eq x.id id) runs

-- Every run is still there, as a later row.
abbrev pub RunsLater : List DigestRun → List DigestRun → Type 0
RunsLater runs runs' =
    (id : String) (r : DigestRun)
    → find id runs ≡ some r
    → (r' : DigestRun) × (find id runs' ≡ some r') × Later r r'

Later-trans : (a b c : DigestRun) → Later a b → Later b c → Later a c
Later-trans a b c same l = l
Later-trans a b c (moved going id user at back) same = moved going id user at back
Later-trans a b c (moved going id user at back) (moved going' id' user' at' back') =
    moved going (id' ∙ id) (user' ∙ user) (at' ∙ at) (λ q. back (back' q))

pub RunsLater-refl : (runs : List DigestRun) → RunsLater runs runs
RunsLater-refl runs id r e = (r, e, same)

pub RunsLater-trans :
    (xs ys zs : List DigestRun) → RunsLater xs ys → RunsLater ys zs → RunsLater xs zs
RunsLater-trans xs ys zs f g id a e =
    let (b, eb, l) = f id a e in let (c, ec, m) = g id b eb in (c, ec, Later-trans a b c l m)

find-save_run_other :
    (run_id id : String) (change : DigestRun → DigestRun)
    → ((r : DigestRun) → (change r).id ≡ r.id)
    → str_eq run_id id ≡ false
    → (runs : List DigestRun) → find id (save_run run_id change runs) ≡ find id runs
unfolding save_run
find-save_run_other run_id id change keeps other [] = refl
find-save_run_other run_id id change keeps other (x ∷ runs) =
    ground
      (arith, find-save_run_other run_id id change keeps other runs, keeps x, eq_iff x.id run_id)

pub save_run-RunsLater :
    (run_id : String) (change : DigestRun → DigestRun) (runs : List DigestRun)
    → ((r : DigestRun) → (change r).id ≡ r.id)
    → ((r : DigestRun) → find run_id runs ≡ some r → Later r (change r))
    → RunsLater runs (save_run run_id change runs)
save_run-RunsLater run_id change runs keeps later id r e = elim (Bool-cases (str_eq run_id id)) [
  | inl ours ↦
      let is_ours : run_id ≡ id = (ground (arith, ours, eq_iff run_id id)) in
      let e' : find run_id runs ≡ some r = subst (λ i. find i runs ≡ some r) (sym is_ours) e in
      (
        change r,
        subst (λ i. find i (save_run run_id change runs) ≡ some (change r)) is_ours
            (find_run-save_run run_id change keeps runs r e'),
        later r e',
      )
  | inr other ↦ (r, find-save_run_other run_id id change keeps other runs ∙ e, same)
]

find-append :
    (id : String) (r : DigestRun) (runs rest : List DigestRun)
    → find id runs ≡ some r
    → find id (runs ++ rest) ≡ some r
find-append id r [] rest e = cc
find-append id r (x ∷ runs) rest e = ground (arith, find-append id r runs rest)

pub append-RunsLater : (runs rest : List DigestRun) → RunsLater runs (runs ++ rest)
append-RunsLater runs rest id r e = (r, find-append id r runs rest e, same)
