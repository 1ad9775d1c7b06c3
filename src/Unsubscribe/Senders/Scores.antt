-- ===== src/Unsubscribe/Senders/Scores.antt =====
-- `score_sender` of backend/app/services/unsubscribe/aggregator.py in terms of counts.
use native.Mathlib.Nat.{div-add-mod, mod-lt, mul-le-mul_left}
use briefed.Base.{
  ℕ, ◌+◌, ◌*◌, ◌/◌, ◌%◌, ◌≤◌, ◌<◌, ◌≡◌, ◌↔◌, ◌⊎◌, Bool, true, ◌&&◌, ◌||◌, ltb, leb, ◌==◌,
  if◌then◌else◌, arith, Bool-cases, inl, inr, refl, ap,
}
use briefed.Unsubscribe.Senders.{
  SenderStats, CriteriaScore, round_half_even, ratio, score_sender, one_if,
}

-- The rounding, of a quotient and a remainder.
abbrev rounded : ℕ → ℕ → ℕ → ℕ
rounded q r t = if ltb (2 * r) t || (2 * r == t && (q % 2 == 0)) then q else q + 1

three_way : (q k : ℕ) → (q < k) ⊎ ((q ≡ k) ⊎ (k < q))
three_way q k = elim (Bool-cases (ltb q k)) [
  | inl below ↦ inl (ground arith)
  | inr above ↦ elim (Bool-cases (ltb k q)) [
    | inl over ↦ inr (inr (ground arith))
    | inr equal ↦ inr (inl (ground arith))
  ]
]

rounded_bounds : (q r t : ℕ) → (q ≤ rounded q r t) × (rounded q r t ≤ q + 1)
rounded_bounds q r t = ground arith

rounded-down : (q r t : ℕ) → rounded q r t ≤ q → 2 * r ≤ t
rounded-down q r t h = ground arith

rounded-up : (q r t : ℕ) → q + 1 ≤ rounded q r t → t ≤ 2 * r
rounded-up q r t h = ground arith

rounded-zero : (q r t : ℕ) → r ≡ 0 → 0 < t → rounded q r t ≤ q
rounded-zero q r t e pos = ground arith

-- With fewer than 400 mails, at most a fifth is at most 0.200 after rounding, and no more is.
rounded-fifth :
    (p t q r : ℕ) → t * q + r ≡ p * 1000 → r < t → t < 400 → (rounded q r t ≤ 200) ↔ (5 * p ≤ t)
rounded-fifth p t q r e small few = elim (three_way q 200) [
  | inl below ↦
      let product : t * q ≤ t * 199 = mul-le-mul_left t (omega arith) in
      (λ h. omega arith, λ h. omega (arith, rounded_bounds q r t))
  | inr (inl same) ↦
      let product : t * q ≡ t * 200 = ap (λ (x : ℕ). t * x) same in
      (
        λ h. omega (arith, rounded-down q r t (omega arith)),
        λ h. omega (arith, rounded-zero q r t (omega arith) (omega arith)),
      )
  | inr (inr over) ↦
      let product : t * 201 ≤ t * q = mul-le-mul_left t (omega arith) in
      (λ h. absurd (omega (arith, rounded_bounds q r t)), λ h. absurd (omega arith))
]

-- With fewer than 1000 mails, half and more is at least 0.500 after rounding, and no less is.
rounded-half :
    (w t q r : ℕ) → t * q + r ≡ w * 1000 → r < t → t < 1000 → (500 ≤ rounded q r t) ↔ (t ≤ 2 * w)
rounded-half w t q r e small few = elim (three_way q 499) [
  | inl below ↦
      let product : t * q ≤ t * 498 = mul-le-mul_left t (omega arith) in
      (λ h. absurd (omega (arith, rounded_bounds q r t)), λ h. absurd (omega arith))
  | inr (inl same) ↦
      let product : t * q ≡ t * 499 = ap (λ (x : ℕ). t * x) same in
      (λ h. omega (arith, rounded-up q r t (omega arith)), λ h. absurd (omega arith))
  | inr (inr over) ↦
      let product : t * 500 ≤ t * q = mul-le-mul_left t (omega arith) in
      (λ h. omega arith, λ h. omega (arith, rounded_bounds q r t))
]

round_half_even-rounded : (a t : ℕ) → round_half_even a t ≡ rounded (a / t) (a % t) t
unfolding round_half_even
round_half_even-rounded a t = refl

module _ (n t : ℕ) (pos : 0 < t) where
  ratio-fifth : t < 400 → (ratio n t ≤ 200) ↔ (5 * n ≤ t)
  unfolding ratio
  ratio-fifth few =
      let fifth =
        rounded-fifth n t (n * 1000 / t) (n * 1000 % t) (div-add-mod (n * 1000) t)
          (mod-lt (n * 1000) pos) few in
      (
        λ h. fifth.0 (ground (arith, round_half_even-rounded (n * 1000) t)),
        λ h. ground (arith, fifth.1 h, round_half_even-rounded (n * 1000) t),
      )

  ratio-half : t < 1000 → (500 ≤ ratio n t) ↔ (t ≤ 2 * n)
  unfolding ratio
  ratio-half few =
      let half =
        rounded-half n t (n * 1000 / t) (n * 1000 % t) (div-add-mod (n * 1000) t)
          (mod-lt (n * 1000) pos) few in
      (
        λ h. half.0 (ground (arith, round_half_even-rounded (n * 1000) t)),
        λ h. ground (arith, half.1 h, round_half_even-rounded (n * 1000) t),
      )

-- The three criteria, as comparisons of whole numbers.
pub record IsScore (t : SenderStats) (s : CriteriaScore) : Type 0 where
  pub noisy : (s.noisy ≡ true) ↔ (5 ≤ t.frequency_30d)
  pub low_value :
      (s.low_value ≡ true) ↔ ((0 < t.classified_total) × (t.classified_total ≤ 2 * t.waste_count))
  pub disengaged :
      (s.disengaged ≡ true)
      ↔ ((0 < t.classified_total) × (5 * t.positive_count ≤ t.classified_total))
  pub hits : (s.hit_count ≡ 3) ↔ ((s.noisy ≡ true) × (s.low_value ≡ true) × (s.disengaged ≡ true))

ratio-zero : (n : ℕ) → ratio n 0 ≡ 0
unfolding ratio
ratio-zero n = refl

three_hits :
    (a b c : Bool) → (one_if a + (one_if b + one_if c) ≡ 3) ↔ ((a ≡ true) × (b ≡ true) × (c ≡ true))
three_hits a b c = (λ h. (ground arith, ground arith, ground arith), λ h. ground arith)

-- For a sender with ratios of its counts and fewer than 400 classified mails, the criteria hold
-- exactly where there are five mails or more, where half of the classified ones or more were waste,
-- and where a fifth of them or less were worth reading, which both ask for a classified mail; three
-- hits are all of them. The rounding of the ratios decides nothing.
pub score_sender-IsScore :
    (t : SenderStats)
    → t.engagement_score ≡ ratio t.positive_count t.classified_total
    → t.waste_rate ≡ ratio t.waste_count t.classified_total
    → t.classified_total < 400
    → IsScore t (score_sender t)
unfolding score_sender
score_sender-IsScore t engagement wasted few =
    let noisy = leb 5 t.frequency_30d in
    let low = leb 500 t.waste_rate in
    let cold = ltb 0 t.classified_total && leb t.engagement_score 200 in
    elim (Bool-cases (ltb 0 t.classified_total)) [
      | inl some_mail ↦
          let fifth = ratio-fifth t.positive_count t.classified_total (ground arith) few in
          let half = ratio-half t.waste_count t.classified_total (ground arith) (omega arith) in
          record {
            noisy = (λ h. ground arith, λ h. ground arith);
            low_value =
                (λ h. (ground arith, half.0 (ground arith)), λ h. ground (arith, half.1 h.1));
            disengaged =
                (λ h. (ground arith, fifth.0 (ground arith)), λ h. ground (arith, fifth.1 h.1));
            hits = three_hits noisy low cold;
          }
      | inr no_mail ↦
          let none_wasted : t.waste_rate ≡ 0 = ground (arith, ratio-zero t.waste_count) in
          record {
            noisy = (λ h. ground arith, λ h. ground arith);
            low_value = (λ h. absurd (ground arith), λ h. absurd (ground arith));
            disengaged = (λ h. absurd (ground arith), λ h. absurd (ground arith));
            hits = three_hits noisy low cold;
          }
    ]
