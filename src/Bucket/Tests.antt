-- ===== src/Bucket/Tests.antt =====
-- A bucket of ten tokens that gains two in a tick, and sleeps that end late.
use briefed.Base.{◌+◌, ◌-◌, ◌*◌, ◌/◌, ◌≤◌, ◌≡◌, refl, List, [], ◌∷◌}
use briefed.Bucket.{TokenBucket, Wake, granted, new_bucket, acquire}
use briefed.Bucket.Rate.{Request, acquire_all, acquire_all-le}

-- A sleep ends a tick after the whole ticks that cover it.
abbrev late : Wake
late rounds now wait = now + (wait.numerator + (wait.denominator - 1)) / wait.denominator + 1

abbrev drained : TokenBucket
drained = record { capacity = 10; refill_rate = 2; tokens = 1; updated_at = 100 }

abbrev tens : List Request
tens =
    record { rounds = 2; wake = late; now = 100; cost = 10 }
    ∷ record { rounds = 2; wake = late; now = 100; cost = 10 }
    ∷ []

waited : (acquire 2 late 101 8 drained).1.updated_at ≡ 105
unfolding acquire
waited = refl

given : (acquire 2 late 101 8 drained).0 ≡ granted
unfolding acquire
given = refl

acquire_all-le_example :
    let (total, b) = acquire_all tens (new_bucket 10 2 100) in
    (total ≤ 10 + (b.updated_at - 100) * 2) × (b.tokens ≤ 10)
acquire_all-le_example = acquire_all-le 10 2 100 tens
