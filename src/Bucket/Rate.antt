-- ===== src/Bucket/Rate.antt =====
-- How much is granted over time.
use briefed.Base.{
  ℕ, zero, suc, ◌+◌, ◌-◌, ◌*◌, ◌≤◌, ◌<◌, ◌≡◌, refl, ◌∙◌, subst, List, [], ◌∷◌, ltb, leb, ◌==◌,
  arith, ltb→lt, leb→le, if-elim,
}
use briefed.Bucket.{
  TokenBucket, Wake, Acquired, granted, new_bucket, refill, wait_for, acquire_loop, acquire,
}

-- A call: the rounds that it takes at most, the clock, the cost, and how the sleeps end.
pub record Request : Type 0 where
  pub rounds : ℕ
  pub wake : Wake
  pub now : ℕ
  pub cost : ℕ

abbrev pub granted_cost : Acquired → ℕ → ℕ
granted_cost granted cost = cost
granted_cost _ cost = 0

-- The calls one after the other, with what they are granted in all.
abbrev pub acquire_all : List Request → TokenBucket → ℕ × TokenBucket
acquire_all [] b = (0, b)
acquire_all (q ∷ qs) b =
    let (answer, b1) = acquire q.rounds q.wake q.now q.cost b in
    let (total, b2) = acquire_all qs b1 in (granted_cost answer q.cost + total, b2)

-- What a bucket gave between two states of it: no more than it had and what the time between added.
record Gave (amount : ℕ) (b b' : TokenBucket) : Type 0 where
  rate : b'.refill_rate ≡ b.refill_rate
  capacity : b'.capacity ≡ b.capacity
  order : b.updated_at ≤ b'.updated_at
  balance :
      amount + b'.tokens + b.updated_at * b.refill_rate ≤ b.tokens + b'.updated_at * b.refill_rate
  valid : b.tokens ≤ b.capacity → b'.tokens ≤ b'.capacity

sub_mul : (a b r : ℕ) → a ≤ b → (b - a) * r + a * r ≡ b * r
sub_mul a b r h = grind arith

Gave-none : (b : TokenBucket) → Gave 0 b b
Gave-none b = record {
  rate = refl;
  capacity = refl;
  order = omega arith;
  balance = omega arith;
  valid = λ h. h;
}

refill-Gave : (now : ℕ) (b : TokenBucket) → Gave 0 b (refill now b)
unfolding refill
refill-Gave now b =
    if-elim (Gave 0 b) (ltb b.updated_at now)
      (λ later.
        let after : b.updated_at < now = ltb→lt b.updated_at now later in
        let added = sub_mul b.updated_at now b.refill_rate (omega arith) in
        record {
          rate = refl;
          capacity = refl;
          order = omega arith;
          balance = ground (arith, added);
          valid = λ h. ground arith;
        })
      (λ _. Gave-none b)

Gave-trans : (m n : ℕ) (a b c : TokenBucket) → Gave m a b → Gave n b c → Gave (m + n) a c
Gave-trans m n a b c g h = record {
  rate = h.rate ∙ g.rate;
  capacity = h.capacity ∙ g.capacity;
  order = omega arith;
  balance = omega (
    arith,
    g.balance,
    subst (λ r. n + c.tokens + b.updated_at * r ≤ b.tokens + c.updated_at * r) g.rate h.balance,
  );
  valid = λ v. h.valid (g.valid v);
}

Gave-filled : (n : ℕ) (a b c : TokenBucket) → Gave 0 a b → Gave n b c → Gave n a c
Gave-filled n a b c g h =
    let sum : 0 + n ≡ n = omega arith in subst (λ k. Gave k a c) sum (Gave-trans 0 n a b c g h)

take_tokens-Gave :
    (cost : ℕ) (b : TokenBucket)
    → cost ≤ b.tokens
    → Gave cost b (record b { tokens = b.tokens - cost })
take_tokens-Gave cost b le = record {
  rate = refl;
  capacity = refl;
  order = omega arith;
  balance = omega arith;
  valid = λ h. omega arith;
}

module _ (wake : Wake) (cost : ℕ) where
  abbrev Granted : TokenBucket → Acquired × TokenBucket → Type 0
  Granted b r = Gave (granted_cost r.0 cost) b r.1

  acquire_loop-Granted :
      (rounds now : ℕ) (b : TokenBucket) → Granted b (acquire_loop rounds wake now cost b)
  unfolding acquire_loop
  acquire_loop-Granted zero now b = Gave-none b
  acquire_loop-Granted (suc rounds) now b =
      let b' = refill now b in
      let filled = refill-Gave now b in
      if-elim (Granted b) (leb cost b'.tokens)
        (λ enough.
          Gave-filled cost b b' _ filled (take_tokens-Gave cost b' (leb→le cost b'.tokens enough)))
        (λ _.
          if-elim (Granted b) (b'.refill_rate == 0) (λ _. filled)
            (λ _.
              let again : ℕ = wake rounds now (wait_for cost b') in
              let r = acquire_loop rounds wake again cost b' in
              Gave-filled (granted_cost r.0 cost) b b' r.1 filled
                (acquire_loop-Granted rounds again b')))

  acquire-Granted : (rounds now : ℕ) (b : TokenBucket) → Granted b (acquire rounds wake now cost b)
  unfolding acquire
  acquire-Granted rounds now b =
      if-elim (Granted b) (ltb b.capacity cost) (λ _. Gave-none b)
        (λ _. acquire_loop-Granted rounds now b)

acquire_all-Gave :
    (qs : List Request) (b : TokenBucket) → Gave (acquire_all qs b).0 b (acquire_all qs b).1
acquire_all-Gave [] b = Gave-none b
acquire_all-Gave (q ∷ qs) b =
    let r = acquire q.rounds q.wake q.now q.cost b in
    Gave-trans (granted_cost r.0 q.cost) (acquire_all qs r.1).0 b r.1 (acquire_all qs r.1).1
      (acquire-Granted q.wake q.cost q.rounds q.now b) (acquire_all-Gave qs r.1)

-- Whatever calls are made of a new bucket, at any times and with any sleeps, what they are granted in
-- all is at most the capacity and the refill of the time since, and the bucket never holds more than
-- its capacity.
pub acquire_all-le :
    (capacity rate now : ℕ) (qs : List Request)
    → let (total, b) = acquire_all qs (new_bucket capacity rate now) in
      (total ≤ capacity + (b.updated_at - now) * rate) × (b.tokens ≤ capacity)
unfolding new_bucket
acquire_all-le capacity rate now qs =
    let start : TokenBucket = new_bucket capacity rate now in
    let g = acquire_all-Gave qs start in
    let b = (acquire_all qs start).1 in
    (
      omega (arith, g.balance, sub_mul now b.updated_at rate g.order),
      omega (arith, g.valid (omega arith), g.capacity),
    )
