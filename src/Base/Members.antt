-- ===== src/Base/Members.antt =====
-- What a filter keeps of a list's members.
use mathlib.Core.Path.{◌≡◌, ap, sym, subst, ◌∙◌}
use mathlib.Core.Logic.{inl, inr}
use mathlib.Core.Bool.{Bool, true}
use mathlib.Core.List.{List, [], ◌∷◌, Memᴰ}
use mathlib.Core.List.Memᴰ
use mathlib.Core.List.Memᴰ.{head, tail}
use native.Mathlib.Omega.{arith}
use briefed.Base.Tests.{Bool-cases}
use briefed.Base.Lists.{All, filter}

module _ {ℓ} {A : Type ℓ} (p : A → Bool) where
  pub mem-filter : (xs : List A) (u : A) → Memᴰ u (filter p xs) → Memᴰ u xs × (p u ≡ true)
  mem-filter [] u m = absurd (Memᴰ.not-nil m)
  mem-filter (x ∷ xs) u m = elim (Bool-cases (p x)) [
    | inl passes ↦
        let kept : filter p (x ∷ xs) ≡ x ∷ filter p xs = ground arith in
        elim (Memᴰ.cases_cons (subst (Memᴰ u) kept m)) [
          | inl e ↦ (head e, ap p e ∙ passes)
          | inr rest ↦ let (listed, h) = mem-filter xs u rest in (tail listed, h)
        ]
    | inr fails ↦
        let dropped : filter p (x ∷ xs) ≡ filter p xs = ground arith in
        let (listed, h) = mem-filter xs u (subst (Memᴰ u) dropped m) in (tail listed, h)
  ]

  pub filter-mem : (xs : List A) (u : A) → Memᴰ u xs → p u ≡ true → Memᴰ u (filter p xs)
  filter-mem [] u m h = absurd (Memᴰ.not-nil m)
  filter-mem (x ∷ xs) u (head e) h =
      let kept : filter p (x ∷ xs) ≡ x ∷ filter p xs = ground (arith, sym (ap p e) ∙ h) in
      subst (Memᴰ u) (sym kept) (head e)
  filter-mem (x ∷ xs) u (tail m) h = elim (Bool-cases (p x)) [
    | inl passes ↦
        let kept : filter p (x ∷ xs) ≡ x ∷ filter p xs = ground arith in
        subst (Memᴰ u) (sym kept) (tail (filter-mem xs u m h))
    | inr fails ↦
        let dropped : filter p (x ∷ xs) ≡ filter p xs = ground arith in
        subst (Memᴰ u) (sym dropped) (filter-mem xs u m h)
  ]

pub All-mem {ℓ κ} : {A : Type ℓ} (P : A → Type κ) (xs : List A) (x : A) → All P xs → Memᴰ x xs → P x
All-mem P [] x h m = absurd (Memᴰ.not-nil m)
All-mem P (y ∷ xs) x h m = elim (Memᴰ.cases_cons m) [
  | inl e ↦ subst P (sym e) h.0
  | inr later ↦ All-mem P xs x h.1 later
]
