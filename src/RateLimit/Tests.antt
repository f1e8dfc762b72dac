-- ===== src/RateLimit/Tests.antt =====
-- The rate limiter at concrete times.
use s_chat6_core.Common.{ℕ, ◌+◌, ◌*◌, ◌≤◌, arith, List, [], ◌∷◌}
use s_chat6_core.RateLimit.{TokenBucket, Counters, new}
use s_chat6_core.RateLimit.Bounds.{run, flood_bound}

abbrev times : List ℕ
times = 100 ∷ 101 ∷ 99 ∷ 102 ∷ []

flood_bound_example : (run (new 2 1 100) times).1 ≤ 2 + 2 * 1
flood_bound_example =
    flood_bound 2 1 100 2 times (omega arith, (omega arith, (omega arith, (omega arith, tt))))

abbrev empty_bucket : TokenBucket
empty_bucket = record { capacity = 8; tokens = 0; refill_per_sec = 1; last_refill = 100 }

abbrev no_drops : Counters
no_drops s = 0
