-- ===== src/Common/Bits.antt =====
-- Laws of `&`, `|` and `!` at variables, read off the binary digits.
mod Step
use Prim.Native.Nat.{
  ℕ, zero, suc, ◌+◌, ◌-◌, ◌*◌, ◌/◌, ◌%◌, ◌^◌, ◌≤◌, ◌<◌, min, max, bit_and, bit_or, bit_and-bitwise,
}
use mathlib.Core.Path.{◌≡◌, refl, ap, ◌∙◌}
use mathlib.Core.Logic.{◌≢◌}
use native.Mathlib.Nat.{pow-suc, one-le-pow}
use native.Mathlib.Omega.{arith}
use Step.{or_low, and_low}

-- The digit of weight `2 ^ k`.
unfoldable pub testbit : ℕ → ℕ → ℕ
testbit n zero = n % 2
testbit n (suc k) = testbit (n / 2) k

pub testbit-lt : (n k : ℕ) → testbit n k < 2
unfolding testbit
testbit-lt n zero = omega arith
testbit-lt n (suc k) = testbit-lt (n / 2) k

testbit-zero : (k : ℕ) → testbit 0 k ≡ 0
unfolding testbit
testbit-zero zero = refl
testbit-zero (suc k) = testbit-zero k

pub testbit-bit_and : (a b k : ℕ) → testbit (bit_and a b) k ≡ min (testbit a k) (testbit b k)
unfolding testbit
testbit-bit_and a b zero = omega (arith, and_low a b)
testbit-bit_and a b (suc k) = ap (λ t. testbit t k) half ∙ testbit-bit_and (a / 2) (b / 2) k
  where
    half : bit_and a b / 2 ≡ bit_and (a / 2) (b / 2)
    half = omega (arith, and_low a b)

pub testbit-bit_or : (a b k : ℕ) → testbit (bit_or a b) k ≡ max (testbit a k) (testbit b k)
unfolding testbit
testbit-bit_or a b zero = omega (arith, or_low a b)
testbit-bit_or a b (suc k) = ap (λ t. testbit t k) half ∙ testbit-bit_or (a / 2) (b / 2) k
  where
    half : bit_or a b / 2 ≡ bit_or (a / 2) (b / 2)
    half = omega (arith, or_low a b)

-- Nothing is set in 0, on either side of the operation.
zero_right : (bound x : ℕ) → x ≤ bound → (bit_and x 0 ≡ 0) × (bit_or x 0 ≡ x)
zero_right bound zero h = (refl, refl)
zero_right zero (suc x) h = absurd (omega arith)
zero_right (suc bound) (suc x) h =
    let (none, all) = zero_right bound (suc x / 2) (omega arith) in
    (omega (arith, and_low (suc x) 0, none), omega (arith, or_low (suc x) 0, all))

bit_and-zero : (x : ℕ) → bit_and x 0 ≡ 0
bit_and-zero x = (zero_right x x (omega arith)).0

bit_or-zero : (x : ℕ) → bit_or x 0 ≡ x
bit_or-zero x = (zero_right x x (omega arith)).1

double_field : (q k : ℕ) → q * 2 ^ suc k ≡ 2 * (q * 2 ^ k)
double_field q k = omega (arith, ap (λ (t : ℕ). q * t) (pow-suc 2 k))

-- `n & (1 << k)`.
pub bit_and-two_pow : (k n : ℕ) → bit_and n (2 ^ k) ≡ testbit n k * 2 ^ k
unfolding testbit
bit_and-two_pow zero n = omega (arith, and_low n 1, bit_and-zero (n / 2))
bit_and-two_pow (suc k) n =
    rw (and_low n (2 ^ suc k), half, even, bit_and-two_pow k (n / 2))
      (omega (arith, double_field (testbit (n / 2) k) k))
  where
    half : 2 ^ suc k / 2 ≡ 2 ^ k
    half = omega (arith, pow-suc 2 k)

    even : 2 ^ suc k % 2 ≡ 0
    even = omega (arith, pow-suc 2 k)

-- `n & !(1 << k)` on `w` bits.
pub testbit-two_pow_self : (k : ℕ) → testbit (2 ^ k) k ≡ 1
unfolding testbit
testbit-two_pow_self zero = refl
testbit-two_pow_self (suc k) = ap (λ t. testbit t k) half ∙ testbit-two_pow_self k
  where
    half : 2 ^ suc k / 2 ≡ 2 ^ k
    half = omega (arith, pow-suc 2 k)

pub testbit-two_pow_ne : (j k : ℕ) → j ≢ k → testbit (2 ^ j) k ≡ 0
unfolding testbit
testbit-two_pow_ne zero zero h = absurd (h refl)
testbit-two_pow_ne zero (suc k) h = testbit-zero k
testbit-two_pow_ne (suc j) zero h = omega (arith, pow-suc 2 j)
testbit-two_pow_ne (suc j) (suc k) h =
    ap (λ t. testbit t k) half ∙ testbit-two_pow_ne j k (λ e. h (ap suc e))
  where
    half : 2 ^ suc j / 2 ≡ 2 ^ j
    half = omega (arith, pow-suc 2 j)

-- The complement `!x` of a word of `w` bits.
pub testbit-complement :
    (w x k : ℕ) → k < w → x < 2 ^ w → testbit (2 ^ w - 1 - x) k ≡ 1 - testbit x k
unfolding testbit
testbit-complement zero x k h hx = absurd (omega arith)
testbit-complement (suc w) x zero h hx = omega (arith, pow-suc 2 w)
testbit-complement (suc w) x (suc k) h hx =
    ap (λ t. testbit t k) half ∙ testbit-complement w (x / 2) k (omega arith) small
  where
    half : (2 ^ suc w - 1 - x) / 2 ≡ 2 ^ w - 1 - x / 2
    half = omega (arith, pow-suc 2 w)

    small : x / 2 < 2 ^ w
    small = omega (arith, pow-suc 2 w)

bit_and_fields : (w q r : ℕ) → r < 2 ^ w → bit_and (q * 2 ^ w + r) (2 ^ w - 1) ≡ r
bit_and_fields zero q r h = omega (arith, bit_and-zero (q * 1 + r))
bit_and_fields (suc w) q r h = ground (
  arith,
  and_low (q * 2 ^ suc w + r) (2 ^ suc w - 1),
  double_field q w,
  pow-suc 2 w,
  bit_and_fields w q (r / 2) (omega arith),
)

-- `n & ((1 << w) - 1)` is the remainder.
pub bit_and_mask : (w n : ℕ) → bit_and n (2 ^ w - 1) ≡ n % 2 ^ w
bit_and_mask w n = ground (arith, one-le-pow w 2, bit_and_fields w (n / 2 ^ w) (n % 2 ^ w))

-- `(q << w) | r` is a sum where `r` fits `w` bits.
pub bit_or_fields : (w q r : ℕ) → r < 2 ^ w → bit_or (q * 2 ^ w) r ≡ q * 2 ^ w + r
bit_or_fields zero q r h = ground (arith, bit_or-zero q)
bit_or_fields (suc w) q r h =
    ground
      (arith, or_low (q * 2 ^ suc w) r, double_field q w, bit_or_fields w q (r / 2) (omega arith))

pub bit_or-lt : (w a b : ℕ) → a < 2 ^ w → b < 2 ^ w → bit_or a b < 2 ^ w
bit_or-lt zero a b ha hb = ground (arith, bit_or-zero 0)
bit_or-lt (suc w) a b ha hb = omega (
  arith,
  pow-suc 2 w,
  or_low a b,
  bit_or-lt w (a / 2) (b / 2) (omega (arith, pow-suc 2 w)) (omega (arith, pow-suc 2 w)),
)

pub zero-bit_and : (b : ℕ) → bit_and 0 b ≡ 0
zero-bit_and b = bit_and-bitwise 0 b

below : (bound a b : ℕ) → a ≤ bound → bit_and a b ≤ a
below bound zero b h = omega (arith, zero-bit_and b)
below zero (suc a) b h = absurd (omega arith)
below (suc bound) (suc a) b h =
    let half = below bound (suc a / 2) (b / 2) (omega arith) in
    omega (arith, and_low (suc a) b, half)

pub bit_and-le : (a b : ℕ) → bit_and a b ≤ a
bit_and-le a b = below a a b (omega arith)
