-- ===== src/Sync/View/Bitmap.antt =====
-- The repair bitmap as a set of offsets.
use s_chat6_core.Common.{
  ℕ, zero, suc, ◌+◌, ◌-◌, ◌*◌, ◌/◌, ◌%◌, ◌^◌, ◌≤◌, ◌<◌, ◌≡◌, refl, arith, List, [], ◌∷◌, length,
  take, replicate, leb, ltb, ◌==◌, Bool, true, false, not, ◌||◌, ◌&&◌, if◌then◌else◌, Bool-cases,
  inl, inr, Option, some,
}
use s_chat6_core.Wire.Policy.{has_flag}
use s_chat6_core.Wire.Flags.{has_flag-set}
use s_chat6_core.Common.Bits.{zero-bit_and}
use s_chat6_core.Sync.View.{set_bit, fill, kept_bytes, bit_missing}
use s_chat6_core.Sync.View.Horizon.{elem-below, Ascending, Ascending-weaken}
use s_chat6_core.Common.{elem}

-- The bit at an offset, by recursion on the bytes.
unfoldable pub bit_at : List ℕ → ℕ → Bool
bit_at [] i = false
bit_at (b ∷ bs) i = if ltb i 8 then has_flag b (2 ^ i) else bit_at bs (i - 8)

pub bit_missing_lem : (bs : List ℕ) (i : ℕ) → bit_missing bs i ≡ not (bit_at bs i)
unfolding bit_missing bit_at
bit_missing_lem [] i = refl
bit_missing_lem (b ∷ bs) i = elim (Bool-cases (ltb i 8)) [
  | inl low ↦
      let byte : i / 8 ≡ 0 = ground arith in
      let bit : i % 8 ≡ i = ground arith in rw (byte, bit) (ground arith)
  | inr high ↦
      let byte : i / 8 ≡ suc ((i - 8) / 8) = ground arith in
      let bit : i % 8 ≡ (i - 8) % 8 = ground arith in
      rw (byte, bit, high) (bit_missing_lem bs (i - 8))
]

pub set_bit_lem :
    (bs : List ℕ) (i j : ℕ) → i < 8 * length bs → bit_at (set_bit bs i) j ≡ (i == j || bit_at bs j)
unfolding set_bit bit_at
set_bit_lem [] i j h = absurd (omega arith)
set_bit_lem (b ∷ bs) i j h = ground (arith, has_flag-set b i j, set_bit_lem bs (i - 8) (j - 8))

pub length-set_bit : (bs : List ℕ) (i : ℕ) → length (set_bit bs i) ≡ length bs
unfolding set_bit
length-set_bit [] i = refl
length-set_bit (b ∷ bs) i = ground (arith, length-set_bit bs (i - 8))

pub bit_at-replicate : (n j : ℕ) → bit_at (replicate n 0) j ≡ false
unfolding bit_at
bit_at-replicate zero j = refl
bit_at-replicate (suc n) j = ground (arith, zero-bit_and (2 ^ j), bit_at-replicate n (j - 8))

-- Cutting off the bytes behind the last set bit loses no bit.
pub bit_at-take : (bs : List ℕ) (n j : ℕ) → bit_at (take n bs) j ≡ (ltb j (8 * n) && bit_at bs j)
unfolding bit_at
bit_at-take bs zero j = ground arith
bit_at-take [] (suc n) j = ground arith
bit_at-take (b ∷ bs) (suc n) j = ground (arith, bit_at-take bs n (j - 8))

-- What one run of the loop does to the set of offsets: it adds those of the seqs that lie in the
-- window, and keeps the last of them.
pub fill_lem :
    (bits max : ℕ) (seqs bs : List ℕ) (last : Option ℕ) (low : ℕ)
    → Ascending (max + 1 + low) seqs
    → ((j : ℕ) → bit_at bs j ≡ true → ltb j (8 * kept_bytes last) ≡ true)
    → kept_bytes last ≤ low / 8 + 1
    → bits ≤ 8 * length bs
    → let r = fill bits max seqs bs last in
      ((j : ℕ) → j < bits → bit_at r.0 j ≡ (bit_at bs j || elem (max + 1 + j) seqs))
      × ((j : ℕ) → bit_at r.0 j ≡ true → ltb j (8 * kept_bytes r.1) ≡ true)
unfolding fill
fill_lem bits max [] bs last low a k kl room = (λ j h. ground arith, k)
fill_lem bits max (seq ∷ seqs) bs last low a k kl room =
    elim (Bool-cases (leb bits (seq - (max + 1)))) [
      | inl beyond ↦
          rw beyond (λ j h. ground (arith, elem-below (max + 1 + j) seq seqs a.1 (ground arith)), k)
      | inr inside ↦
          let o = seq - (max + 1) in
          let place : seq ≡ max + 1 + o = omega (arith, a.0) in
          let fits : o < bits = ground arith in
          let rest =
            fill_lem bits max seqs (set_bit bs o) (some o) o
              (Ascending-weaken seq (max + 1 + o) seqs (omega arith) a.1)
              (λ j h. ground (arith, set_bit_lem bs o j (omega arith), k j, a.0)) (omega arith)
              (omega (arith, length-set_bit bs o)) in
          rw inside (λ j h. ground (arith, rest.0 j, set_bit_lem bs o j (omega arith)), rest.1)
    ]
