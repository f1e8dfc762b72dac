-- ===== src/Wire/Flags.antt =====
-- `flags & (1 << k) != 0` after `|=` and `&= !`, as the codecs and the policy machine use them.
use s_chat6_core.Common.{
  ℕ, zero, suc, ◌*◌, ◌^◌, ◌<◌, ◌≡◌, arith, ◌&&◌, ◌||◌, not, ◌==◌, ==_iff, Bool-cases, inl, inr,
  bit_and, bit_or, if◌then◌else◌,
}
use s_chat6_core.Common.Bits.{
  testbit, testbit-lt, testbit-bit_and, testbit-bit_or, testbit-two_pow_self, testbit-two_pow_ne,
  testbit-complement, bit_and-two_pow,
}
use s_chat6_core.Common.Words.{clear_bits, not32}
use s_chat6_core.Wire.Policy.{has_flag}
use native.Mathlib.Nat.{one-le-pow, pow-le-pow_right}

-- The test of one bit.
has_flag-testbit : (n k : ℕ) → has_flag n (2 ^ k) ≡ (testbit n k == 1)
has_flag-testbit n k = digit (testbit n k) (testbit-lt n k) (bit_and-two_pow k n)
  where
    digit : (t : ℕ) → t < 2 → bit_and n (2 ^ k) ≡ t * 2 ^ k → has_flag n (2 ^ k) ≡ (t == 1)
    digit zero h e = ground (arith, e)
    digit (suc zero) h e = ground (arith, e, one-le-pow k 2)
    digit (suc (suc t)) h e = absurd (omega arith)

pub has_flag-bit_and :
    (a b k : ℕ) → has_flag (bit_and a b) (2 ^ k) ≡ (has_flag a (2 ^ k) && has_flag b (2 ^ k))
has_flag-bit_and a b k =
    rw (has_flag-testbit, has_flag-testbit, has_flag-testbit)
      (ground (arith, testbit-bit_and a b k, testbit-lt a k, testbit-lt b k))

testbit-two_pow : (j k : ℕ) → testbit (2 ^ j) k ≡ (if j == k then 1 else 0)
testbit-two_pow j k = elim (Bool-cases (j == k)) [
  | inl same ↦ rw (same, (==_iff j k).0 same) (testbit-two_pow_self k)
  | inr other ↦ rw other (testbit-two_pow_ne j k (λ e. ground arith))
]

-- `n |= 1 << j` sets bit `j` and leaves every other bit.
pub has_flag-set :
    (n j k : ℕ) → has_flag (bit_or n (2 ^ j)) (2 ^ k) ≡ (j == k || has_flag n (2 ^ k))
has_flag-set n j k =
    rw (has_flag-testbit, has_flag-testbit)
      (ground (arith, testbit-bit_or n (2 ^ j) k, testbit-two_pow j k, testbit-lt n k))

two_pow-u32 : (j : ℕ) → j < 32 → 2 ^ j < 2 ^ 32
two_pow-u32 j h =
    omega (arith, pow-le-pow_right {n = 2} (omega arith) {i = j} {j = 31} (omega arith))

-- `n &= !(1 << j)` clears bit `j` and leaves every other bit.
pub has_flag-clear :
    (n j k : ℕ)
    → j < 32
    → k < 32
    → has_flag (clear_bits n (2 ^ j)) (2 ^ k) ≡ (not (j == k) && has_flag n (2 ^ k))
has_flag-clear n j k hj hk =
    rw (has_flag-testbit, has_flag-testbit)
      (ground (
        arith,
        testbit-bit_and n (not32 (2 ^ j)) k,
        testbit-complement 32 (2 ^ j) k hk (two_pow-u32 j hj),
        testbit-two_pow j k,
        testbit-lt n k,
      ))
