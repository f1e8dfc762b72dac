-- ===== src/RateLimit/Bounds.antt =====
-- How much a bucket lets through.
use s_chat6_core.Common.{
  ℕ, ◌+◌, ◌-◌, ◌*◌, ◌≤◌, ◌<◌, max, ◌≡◌, ◌↔◌, ◌⊎◌, length, refl, ap, arith, List, [], ◌∷◌, All, Bool,
  true, if◌then◌else◌,
}
use s_chat6_core.Common.Words.{IsU32}
use s_chat6_core.RateLimit.{TokenBucket, new, check}

pub record Inv (b : TokenBucket) : Type 0 where
  pub capped : b.tokens ≤ b.capacity
  capacity_u32 : IsU32 b.capacity

check-Inv : (b : TokenBucket) (now : ℕ) → Inv b → Inv (check b now).0
unfolding check
check-Inv b now h = ground arith

abbrev pub count : Bool → ℕ
count passed = if passed then 1 else 0

-- A bucket asked at a list of times, with how many requests it let through.
unfoldable pub run : TokenBucket → List ℕ → TokenBucket × ℕ
unfolding check
run b [] = (b, 0)
run b (t ∷ ts) = let (b', passed) = check b t in let (b'', n) = run b' ts in (b'', count passed + n)

-- What a request takes and what is left were there before, or came with the time that passed.
check_budget :
    (b : TokenBucket) (now : ℕ)
    → (b.last_refill ≤ (check b now).0.last_refill)
      × ((check b now).0.last_refill ≤ max b.last_refill now)
      × ((check b now).0.refill_per_sec ≡ b.refill_per_sec)
      × ((check b now).0.tokens + count (check b now).1
          ≤ b.tokens + ((check b now).0.last_refill - b.last_refill) * b.refill_per_sec)
unfolding check
check_budget b now = ground arith

-- From a bucket with `tokens` left, requests at times up to `horizon`, in any order, get through at
-- most `tokens` times and `refill_per_sec` times more for each second up to the horizon.
run-le :
    (b : TokenBucket) (ts : List ℕ) (horizon : ℕ)
    → b.last_refill ≤ horizon
    → All (λ t. t ≤ horizon) ts
    → (run b ts).1 ≤ b.tokens + (horizon - b.last_refill) * b.refill_per_sec
unfolding run
run-le b [] horizon h a = omega arith
run-le b (t ∷ ts) horizon h a = omega (
  arith,
  spent,
  run-le (check b t).0 ts horizon within a.1,
  ap (λ (x : ℕ). x * b.refill_per_sec) parts,
  ap (λ (x : ℕ). (horizon - (check b t).0.last_refill) * x) spent.2,
)
  where
    spent :
        (b.last_refill ≤ (check b t).0.last_refill)
        × ((check b t).0.last_refill ≤ max b.last_refill t)
        × ((check b t).0.refill_per_sec ≡ b.refill_per_sec)
        × ((check b t).0.tokens + count (check b t).1
            ≤ b.tokens + ((check b t).0.last_refill - b.last_refill) * b.refill_per_sec)
    spent = check_budget b t

    within : (check b t).0.last_refill ≤ horizon
    within = omega (arith, spent, a.0)

    parts :
        horizon - b.last_refill
        ≡ (horizon - (check b t).0.last_refill) + ((check b t).0.last_refill - b.last_refill)
    parts = omega (arith, spent, within)

-- Flood bound: from a fresh bucket, requests that arrive at any times in the first `seconds` seconds,
-- also with a clock that jumps back, get through at most `capacity + seconds * refill` times.
pub flood_bound :
    (capacity refill now seconds : ℕ) (ts : List ℕ)
    → All (λ t. t ≤ now + seconds) ts
    → (run (new capacity refill now) ts).1 ≤ capacity + seconds * refill
unfolding new
flood_bound capacity refill now seconds ts a = omega (
  arith,
  run-le
      (record {
        capacity = capacity;
        tokens = capacity;
        refill_per_sec = refill;
        last_refill = now;
      })
      ts (now + seconds) (omega arith) a,
  ap (λ (x : ℕ). x * refill) elapsed,
)
  where
    elapsed : now + seconds - now ≡ seconds
    elapsed = omega arith

check_spends :
    (b : TokenBucket) (now : ℕ)
    → Inv b
    → 0 < b.tokens
    → ((check b now).1 ≡ true) × (b.tokens ≤ (check b now).0.tokens + 1)
unfolding check
check_spends b now h t = ground arith

-- Honest burst: as many requests as the bucket holds tokens all get through, whatever the times.
burst_passes :
    (b : TokenBucket) (ts : List ℕ) → Inv b → length ts ≤ b.tokens → (run b ts).1 ≡ length ts
unfolding run
burst_passes b [] h n = refl
burst_passes b (t ∷ ts) h n = ground (
  arith,
  check_spends b t h (omega arith),
  burst_passes (check b t).0 ts (check-Inv b t h) (omega (arith, check_spends b t h (omega arith))),
)

-- A fresh bucket, whose capacity is a 32-bit number, lets a burst of up to `capacity` requests
-- through whole, whatever their times.
first_burst_passes :
    (capacity refill now : ℕ) (ts : List ℕ)
    → IsU32 capacity
    → length ts ≤ capacity
    → (run (new capacity refill now) ts).1 ≡ length ts
unfolding new
first_burst_passes capacity refill now ts c h = burst_passes _ ts (ground arith) h

mul_pos : (a b : ℕ) → 0 < a → 0 < b → 0 < a * b
mul_pos a b h k = grind arith

-- A bucket of positive capacity that is not filled beyond it lets a request through exactly when a
-- token is left or the clock has moved on since the last refill and the bucket refills at all; a
-- clock that stands still or goes back grants nothing.
check_iff :
    (b : TokenBucket) (now : ℕ)
    → Inv b
    → 0 < b.capacity
    → ((check b now).1 ≡ true) ↔ ((0 < b.tokens) ⊎ ((b.last_refill < now) × (0 < b.refill_per_sec)))
unfolding check
check_iff b now h c = (
  λ e. ground (arith, nothing (now - b.last_refill)),
  λ e. ground (arith, mul_pos (now - b.last_refill) b.refill_per_sec),
)
  where
    nothing : (n : ℕ) → n * 0 ≡ 0
    nothing n = omega arith
