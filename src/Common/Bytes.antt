-- ===== src/Common/Bytes.antt =====
-- Big-endian integers as byte strings: `to_be_bytes` and `from_be_bytes`.
use Prim.Native.Nat.{ℕ, zero, suc, ◌+◌, ◌*◌, ◌/◌, ◌%◌, ◌^◌, ◌≤◌, ◌<◌}
use mathlib.Core.Path.{◌≡◌, refl, ap, ◌∙◌}
use mathlib.Core.List.{List, [], ◌∷◌, ◌++◌, append-nil, append_assoc}
use native.Mathlib.Nat.{pow-suc, mul-le-mul_right}
use native.Mathlib.Omega.{arith}
use s_chat6_core.Common.Lists.{length, length-append, All, All-append}

abbrev IsByte : ℕ → Type 0
IsByte b = b < 256

-- The `n` low bytes of `v`, highest first.
unfoldable pub to_be_bytes : ℕ → ℕ → List ℕ
to_be_bytes zero v = []
to_be_bytes (suc n) v = to_be_bytes n (v / 256) ++ (v % 256 ∷ [])

-- The number that follows `acc` and then the bytes.
unfoldable from_be_loop : ℕ → List ℕ → ℕ
from_be_loop acc [] = acc
from_be_loop acc (b ∷ bs) = from_be_loop (acc * 256 + b) bs

unfoldable pub from_be_bytes : List ℕ → ℕ
unfolding from_be_loop
from_be_bytes bs = from_be_loop 0 bs

pub length-to_be_bytes : (n v : ℕ) → length (to_be_bytes n v) ≡ n
unfolding to_be_bytes
length-to_be_bytes zero v = refl
length-to_be_bytes (suc n) v = omega (
  arith,
  length-append {0} (to_be_bytes n (v / 256)) (v % 256 ∷ []),
  length-to_be_bytes n (v / 256),
)

to_be_bytes-IsByte : (n v : ℕ) → All IsByte (to_be_bytes n v)
unfolding to_be_bytes
to_be_bytes-IsByte zero v = tt
to_be_bytes-IsByte (suc n) v =
    All-append IsByte (to_be_bytes n (v / 256)) _ (to_be_bytes-IsByte n (v / 256)) (omega arith)

from_be_loop-append :
    (acc : ℕ) (xs ys : List ℕ) → from_be_loop acc (xs ++ ys) ≡ from_be_loop (from_be_loop acc xs) ys
unfolding from_be_loop
from_be_loop-append acc [] ys = refl
from_be_loop-append acc (x ∷ xs) ys = from_be_loop-append (acc * 256 + x) xs ys

from_be-snoc : (xs : List ℕ) (b : ℕ) → from_be_bytes (xs ++ (b ∷ [])) ≡ from_be_bytes xs * 256 + b
unfolding from_be_bytes
from_be-snoc xs b = from_be_loop-append 0 xs (b ∷ [])

from_be-to_be_step :
    (n v : ℕ)
    → from_be_bytes (to_be_bytes n (v / 256)) ≡ v / 256
    → from_be_bytes (to_be_bytes (suc n) v) ≡ v
unfolding to_be_bytes
from_be-to_be_step n v ih = omega (arith, from_be-snoc (to_be_bytes n (v / 256)) (v % 256))

-- Reading back what was written gives the value, if it fits the width.
pub from_be-to_be : (n v : ℕ) → v < 256 ^ n → from_be_bytes (to_be_bytes n v) ≡ v
from_be-to_be zero v h = unfold from_be_bytes to_be_bytes in omega arith
from_be-to_be (suc n) v h = from_be-to_be_step n v (from_be-to_be n (v / 256) small)
  where
    small : v / 256 < 256 ^ n
    small = omega (arith, pow-suc 256 n)

to_be-snoc :
    (m acc b : ℕ) (bs : List ℕ)
    → b < 256
    → to_be_bytes (suc m) (acc * 256 + b) ++ bs ≡ to_be_bytes m acc ++ (b ∷ bs)
unfolding to_be_bytes
to_be-snoc m acc b bs h = rw (quot, rem, append_assoc)
  where
    quot : (acc * 256 + b) / 256 ≡ acc
    quot = omega arith

    rem : (acc * 256 + b) % 256 ≡ b
    rem = omega arith

-- The bytes of a number below the leading part `acc` follow the bytes of `acc`.
to_be-from_be_loop :
    (bs : List ℕ) (n m acc : ℕ)
    → All IsByte bs
    → n ≡ length bs + m
    → to_be_bytes n (from_be_loop acc bs) ≡ to_be_bytes m acc ++ bs
unfolding from_be_loop
to_be-from_be_loop [] n m acc h e = let e' : n ≡ m = omega arith in rw (e', append-nil)
to_be-from_be_loop (b ∷ bs) n m acc h e =
    to_be-from_be_loop bs n (suc m) (acc * 256 + b) h.1 (omega arith) ∙ to_be-snoc m acc b bs h.0

-- Writing what was read gives the bytes back.
to_be-from_be :
    (n : ℕ) (bs : List ℕ) → All IsByte bs → length bs ≡ n → to_be_bytes n (from_be_bytes bs) ≡ bs
to_be-from_be n bs h e =
    unfold from_be_bytes to_be_bytes in to_be-from_be_loop bs n 0 0 h (omega arith)

from_be_loop-lt :
    (bs : List ℕ) (acc : ℕ) → All IsByte bs → from_be_loop acc bs < (acc + 1) * 256 ^ length bs
unfolding from_be_loop
from_be_loop-lt [] acc h = omega arith
from_be_loop-lt (b ∷ bs) acc h = omega (
  arith,
  from_be_loop-lt bs (acc * 256 + b) h.1,
  mul-le-mul_right (256 ^ length bs) top,
  ap (λ (t : ℕ). (acc + 1) * t) (pow-suc 256 (length bs)),
)
  where
    top : acc * 256 + b + 1 ≤ (acc + 1) * 256
    top = omega (arith, h.0)

from_be_bytes-lt : (bs : List ℕ) → All IsByte bs → from_be_bytes bs < 256 ^ length bs
unfolding from_be_bytes
from_be_bytes-lt bs h = omega (arith, from_be_loop-lt bs 0 h)
