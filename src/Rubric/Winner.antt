-- ===== src/Rubric/Winner.antt =====
-- The greatest of the candidates.
use mathlib.Core.List.{Memᴰ}
use mathlib.Core.List.Memᴰ
use mathlib.Core.List.Memᴰ.{head, tail}
use briefed.Base.{
  if-elim, ◌≤◌, ◌<◌, ◌≡◌, ◌⊎◌, inl, inr, refl, sym, subst, List, [], ◌∷◌, true, false, arith,
}
use briefed.Rubric.Engine.{RuleMatch, label_priority, is_less, winner}

-- No candidate ranks above another: by priority and, for the same priority, by label.
abbrev pub IsAtMost : RuleMatch → RuleMatch → Type 0
IsAtMost a b = is_less b a ≡ false

IsAtMost-trans : (a b c : RuleMatch) → IsAtMost a b → IsAtMost b c → IsAtMost a c
unfolding is_less
IsAtMost-trans a b c h k = ground arith

is_less-IsAtMost : (a b : RuleMatch) → is_less a b ≡ true → IsAtMost a b
unfolding is_less
is_less-IsAtMost a b h = ground arith

IsAtMost-refl : (a : RuleMatch) → IsAtMost a a
unfolding is_less
IsAtMost-refl a = ground arith

pub winner-mem : (best : RuleMatch) (ms : List RuleMatch) → Memᴰ (winner best ms) (best ∷ ms)
unfolding winner
winner-mem best [] = head refl
winner-mem best (m ∷ ms) =
    if-elim (λ l. Memᴰ (winner l ms) (best ∷ m ∷ ms)) (is_less best m) (λ _. tail (winner-mem m ms))
      (λ _. elim (Memᴰ.cases_cons (winner-mem best ms)) [
        | inl e ↦ head e
        | inr rest ↦ tail (tail rest)
      ])

pub winner-IsAtMost :
    (best : RuleMatch) (ms : List RuleMatch) (c : RuleMatch)
    → Memᴰ c (best ∷ ms)
    → IsAtMost c (winner best ms)
unfolding winner
winner-IsAtMost best [] c m = elim (Memᴰ.cases_cons m) [
  | inl e ↦ subst (λ b. IsAtMost c b) e (IsAtMost-refl c)
  | inr rest ↦ absurd (Memᴰ.not-nil rest)
]
winner-IsAtMost best (x ∷ ms) c m =
    if-elim (λ l. IsAtMost c (winner l ms)) (is_less best x)
      (λ less. elim (Memᴰ.cases_cons m) [
        | inl e ↦
            IsAtMost-trans c x (winner x ms)
              (subst (λ b. IsAtMost b x) (sym e) (is_less-IsAtMost best x less))
              (winner-IsAtMost x ms x (head refl))
        | inr rest ↦ winner-IsAtMost x ms c rest
      ])
      (λ leads. elim (Memᴰ.cases_cons m) [
        | inl e ↦ winner-IsAtMost best ms c (head e)
        | inr rest ↦ elim (Memᴰ.cases_cons rest) [
          | inl e ↦
              IsAtMost-trans c best (winner best ms) (subst (λ b. IsAtMost b best) (sym e) leads)
                (winner-IsAtMost best ms best (head refl))
          | inr later ↦ winner-IsAtMost best ms c (tail later)
        ]
      ])

-- The order in words: a lower priority, or the same with a label that is no higher.
abbrev pub Ranks : RuleMatch → RuleMatch → Type 0
Ranks a b =
    (a.priority < b.priority)
    ⊎ ((a.priority ≡ b.priority)
        × (label_priority a.decision.label ≤ label_priority b.decision.label))

pub IsAtMost-Ranks : (a b : RuleMatch) → IsAtMost a b → Ranks a b
unfolding is_less
IsAtMost-Ranks a b h = ground arith
