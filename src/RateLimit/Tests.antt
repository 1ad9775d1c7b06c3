-- ===== src/RateLimit/Tests.antt =====
-- A limiter of two runs in ten seconds, used by two people.
use briefed.Base.{ℕ, ◌+◌, ◌*◌, ◌≡◌, refl, String, true, false, List, [], ◌∷◌, arith}
use briefed.Base.Dict.{lookup, insert}
use briefed.Base.Result.{err}
use briefed.RateLimit.{Limiter, Refusal, too_many, check, second}
use briefed.RateLimit.Window.{check_all, decide_all, new_limiter, check_all-new}
use briefed.RateLimit.Retry.{retry_after_refused}

abbrev tries : List (String × ℕ)
tries =
    ("ana", 0)
    ∷ ("ana", 1000000)
    ∷ ("ben", 2000000)
    ∷ ("ana", 3500000)
    ∷ ("ana", 10000000)
    ∷ ("ana", 10000001)
    ∷ []

decisions :
    check_all (new_limiter 2 10000000) tries ≡ true ∷ true ∷ true ∷ false ∷ false ∷ true ∷ []
unfolding check lookup insert
decisions = refl

check_all-new_example : check_all (new_limiter 2 10000000) tries ≡ decide_all 2 10000000 [] tries
check_all-new_example = check_all-new 2 10000000 tries (omega arith)

abbrev full : Limiter
full = record { capacity = 2; window = 10000000; buckets = ("ana", 0 ∷ 1000000 ∷ []) ∷ [] }

refused_at : (check full "ana" 3500000).0 ≡ err (too_many 2 6)
unfolding check lookup insert
refused_at = refl

retry_after_refused_example :
    (r : Refusal) × ((check (check full "ana" 3500000).1 "ana" (3500000 + 6 * second)).0 ≡ err r)
unfolding lookup
retry_after_refused_example =
    retry_after_refused full "ana" 3500000 2 6 0 (1000000 ∷ []) refl (omega arith) (omega arith)
      refused_at
