-- ===== src/Common/Words.antt =====
-- Machine words as native numbers, with the wrap of a release build written out.
use Prim.Native.Nat.{ℕ, ◌+◌, ◌-◌, ◌%◌, ◌^◌, ◌<◌, bit_and}

abbrev pub IsU32 : ℕ → Type 0
IsU32 n = n < 2 ^ 32

abbrev IsU64 : ℕ → Type 0
IsU64 n = n < 2 ^ 64

-- `a + b` on u64.
abbrev pub add64 : ℕ → ℕ → ℕ
add64 a b = (a + b) % 2 ^ 64

-- `!x` on u32.
abbrev pub not32 : ℕ → ℕ
not32 x = 2 ^ 32 - 1 - x

-- `n &= !bit`.
abbrev pub clear_bits : ℕ → ℕ → ℕ
clear_bits n bit = bit_and n (not32 bit)
