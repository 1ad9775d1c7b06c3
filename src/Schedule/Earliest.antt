-- ===== src/Schedule/Earliest.antt =====
-- The earliest of a list of instants, and what a filter keeps.
use mathlib.Core.List.{Memᴰ}
use mathlib.Core.List.Memᴰ
use mathlib.Core.List.Memᴰ.{head, tail}
use briefed.Base.{
  ℕ, ◌≤◌, ◌≡◌, List, [], ◌∷◌, none, some, arith, ltb, Option-cases, Bool-cases, inl, inr,
}
use briefed.Schedule.{earliest}

pub earliest-mem : (xs : List ℕ) (t : ℕ) → earliest xs ≡ some t → Memᴰ t xs
unfolding earliest
earliest-mem [] t e = absurd (ground arith)
earliest-mem (x ∷ xs) t e = elim (Option-cases (earliest xs)) [
  | inl n ↦ head (ground arith)
  | inr (u, s) ↦ elim (Bool-cases (ltb x u)) [
    | inl less ↦ head (ground arith)
    | inr more ↦ tail (earliest-mem xs t (ground arith))
  ]
]

pub earliest-some : (xs : List ℕ) (u : ℕ) → earliest xs ≡ none → Memᴰ u xs → ⊥
unfolding earliest
earliest-some [] u n m = Memᴰ.not-nil m
earliest-some (x ∷ xs) u n m = elim (Option-cases (earliest xs)) [
  | inl e ↦ ground arith
  | inr (v, s) ↦ ground arith
]

pub earliest-le : (xs : List ℕ) (t u : ℕ) → earliest xs ≡ some t → Memᴰ u xs → t ≤ u
unfolding earliest
earliest-le [] t u e m = absurd (ground arith)
earliest-le (x ∷ xs) t u e (head same) = elim (Option-cases (earliest xs)) [
  | inl n ↦ ground arith
  | inr (v, s) ↦ ground arith
]
earliest-le (x ∷ xs) t u e (tail m) = elim (Option-cases (earliest xs)) [
  | inl n ↦ absurd (earliest-some xs u n m)
  | inr (v, s) ↦ ground (arith, earliest-le xs v u s m)
]
