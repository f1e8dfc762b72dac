-- ===== src/Sync/Delivery.antt =====
-- The delivery state machine, the retry schedule and the clock rule: crates/core/src/sync/outbox.rs,
-- crates/core/src/sync/skew.rs and `backoff_secs` of crates/core/src/engine/drain.rs.
use native.Mathlib.Nat.{pow-suc}
use s_chat6_core.Common.{
  ap, zero, suc, ℕ, ◌+◌, ◌-◌, ◌*◌, ◌%◌, ◌^◌, ltb, leb, if◌then◌else◌, Result, ok, err, ◌≤◌, ◌<◌,
  ◌≡◌, ltb→lt, refl, arith, inl, inr, Bool-cases,
}

-- `a.min(b)`.
abbrev pub min : ℕ → ℕ → ℕ
min a b = if leb a b then a else b

-- `3u64.saturating_pow(attempts.min(10))` is at most 3 ^ 10: nothing saturates.
unfoldable backoff : ℕ → ℕ
backoff attempts = min (5 * 3 ^ min attempts 10) 900

unfoldable pub backoff_secs : ℕ → ℕ
backoff_secs attempts = min (5 * 2 ^ min attempts 6) 300

abbrev max_future_skew_secs : ℕ
max_future_skew_secs = 300

pub data SkewError : Type 0 where
  future_timestamp : ℕ → ℕ → SkewError

-- The sum `now + MAX_FUTURE_SKEW_SECS` wraps in a release build.
unfoldable pub clamp_sent_at : ℕ → ℕ → Result SkewError ℕ
clamp_sent_at sent_at now =
    if ltb ((now + max_future_skew_secs) % 2 ^ 64) sent_at
    then err (future_timestamp sent_at now)
    else ok (min sent_at now)

-- A time that is not ahead of the local clock is kept, one that is at most 300 seconds ahead becomes the
-- local time, and one that is further ahead is refused.
clamp_sent_at-cases :
    (sent_at now : ℕ)
    → now + max_future_skew_secs < 2 ^ 64
    → clamp_sent_at sent_at now ≡ (
        if leb sent_at now
        then ok sent_at
        else if leb sent_at (now + 300)
        then ok now
        else err (future_timestamp sent_at now))
unfolding clamp_sent_at
clamp_sent_at-cases sent_at now h = ground arith

pow3-big : (n : ℕ) → 243 ≤ 3 ^ (n + 5)
pow3-big zero = omega arith
pow3-big (suc n) =
    let shift : 3 ^ (suc n + 5) ≡ 3 ^ suc (n + 5) = ap (λ (t : ℕ). 3 ^ t) (omega arith) in
    omega (arith, shift, pow-suc 3 (n + 5), pow3-big n)

steep : (n : ℕ) → n < 5 → backoff n ≡ 5 * 3 ^ n
unfolding backoff
steep zero h = refl
steep (suc zero) h = refl
steep (suc (suc zero)) h = refl
steep (suc (suc (suc zero))) h = refl
steep (suc (suc (suc (suc zero)))) h = refl
steep (suc (suc (suc (suc (suc n))))) h = absurd (omega arith)

flat : (n m : ℕ) → n ≡ m + 5 → backoff n ≡ 900
unfolding backoff
flat n m e = elim (Bool-cases (leb n 10)) [
  | inl low ↦ let p : 243 ≤ 3 ^ n = rw e (pow3-big m) in rw low (ground arith)
  | inr high ↦ rw high refl
]

-- The schedule starts at 5 seconds and triples with each failed attempt, and from the fifth on it stays at
-- its cap of 900 seconds: 5, 15, 45, 135, 405, 900, 900 and so on.
backoff-schedule : (n : ℕ) → backoff n ≡ (if ltb n 5 then 5 * 3 ^ n else 900)
backoff-schedule n = elim (Bool-cases (ltb n 5)) [
  | inl early ↦ rw early (steep n (ltb→lt n 5 early))
  | inr late ↦ rw late (flat n (n - 5) (ground arith))
]
