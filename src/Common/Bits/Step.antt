-- ===== src/Common/Bits/Step.antt =====
-- The lowest digit of `&` and `|`, and the digits above it.
use Prim.Native.Nat.{
  ℕ, zero, suc, ◌+◌, ◌*◌, ◌/◌, ◌%◌, ◌≤◌, min, max, bit_and, bit_or, digits, bit_and-bitwise,
  bit_or-bitwise,
}
use mathlib.Core.Path.{◌≡◌, refl, ap, ◌∙◌}
use mathlib.Core.Logic.{◌⊎◌, inl, inr}
use native.Mathlib.Omega.{arith}

le_cases : (k m : ℕ) → k ≤ suc m → (k ≡ suc m) ⊎ (k ≤ m)
le_cases k m h = ground arith

module _ (end : ℕ → ℕ) (op : ℕ → ℕ → ℕ) where
  -- One digit more to go changes nothing where the first number has run out before.
  digits-suc : (k x y : ℕ) → x ≤ k → digits end op (suc k) x y ≡ digits end op k x y
  digits-suc zero zero y h = refl
  digits-suc (suc k) zero y h = refl
  digits-suc zero (suc x) y h = absurd (omega arith)
  digits-suc (suc k) (suc x) y h =
      ap (λ high. high * 2 + op (suc x % 2) (y % 2))
        (digits-suc k (suc x / 2) (y / 2) (omega arith))

  -- Nor do any number of them.
  digits-spare : (m k x y : ℕ) → x ≤ k → k ≤ m → digits end op m x y ≡ digits end op k x y
  digits-spare zero zero x y h le = refl
  digits-spare zero (suc k) x y h le = absurd (omega arith)
  digits-spare (suc m) k x y h le = elim (le_cases k m le) [
    | inl same ↦
        let same' : suc m ≡ k = omega (arith, same) in ap (λ (n : ℕ). digits end op n x y) same'
    | inr less ↦ digits-suc m x y (omega (arith, h, less)) ∙ digits-spare m k x y h less
  ]

  -- The digits above the lowest one, with just as many to go as the half has.
  high_digits : (x y : ℕ) → digits end op x (suc x / 2) y ≡ digits end op (suc x / 2) (suc x / 2) y
  high_digits x y = digits-spare x (suc x / 2) (suc x / 2) y (omega arith) (omega arith)

pub and_low : (x y : ℕ) → bit_and x y ≡ min (x % 2) (y % 2) + 2 * bit_and (x / 2) (y / 2)
and_low zero y = omega (arith, bit_and-bitwise 0 y, bit_and-bitwise 0 (y / 2))
and_low (suc x) y =
    let high = high_digits (λ t. 0) min x (y / 2) in
    omega (arith, high, bit_and-bitwise (suc x) y, bit_and-bitwise (suc x / 2) (y / 2))

pub or_low : (x y : ℕ) → bit_or x y ≡ max (x % 2) (y % 2) + 2 * bit_or (x / 2) (y / 2)
or_low zero y = omega (arith, bit_or-bitwise 0 y, bit_or-bitwise 0 (y / 2))
or_low (suc x) y =
    let high = high_digits (λ t. t) max x (y / 2) in
    omega (arith, high, bit_or-bitwise (suc x) y, bit_or-bitwise (suc x / 2) (y / 2))
