-- ===== src/Wire/Bin/Accepts.antt =====
-- One rule for each read of a decoder's `do` block: what is known of a value that has been read, for the
-- proof that the block lets nothing else through.
use s_chat6_core.Common.{
  ℕ, ◌≤◌, ◌≡◌, Bool, true, false, if◌then◌else◌, String, List, length, ◌>>=◌, ◌>>◌, Ensures,
  Ensures-bind,
}
use s_chat6_core.Wire.Error.{Wire}
use s_chat6_core.Wire.Bin.{Reader, take_bytes, u8, u16be, u32be, lp, expect_end}
use s_chat6_core.Wire.Bin.Laws.{take_bytes-length, lp-length}

module _ {A : Type 0} {P : A → Type 0} where
  pub Ensures-if :
      (b : Bool) (m n : Wire A) → Ensures P m → Ensures P n → Ensures P (if b then m else n)
  Ensures-if true m n p q = p
  Ensures-if false m n p q = q

  pub Ensures-end :
      (at : String) (r : Reader) (m : Wire A) → Ensures P m → Ensures P (expect_end at r >> m)
  Ensures-end at r m h = Ensures-bind (expect_end at r) _ λ u e. h

  module _ (at : String) (r : Reader) (next : ℕ × Reader → Wire A) where
    pub Ensures-u8 :
        ((v : ℕ) (r' : Reader) → Ensures P (next (v, r'))) → Ensures P (u8 at r >>= next)
    Ensures-u8 h = Ensures-bind (u8 at r) next λ (v, r') e. h v r'

    pub Ensures-u16be :
        ((v : ℕ) (r' : Reader) → Ensures P (next (v, r'))) → Ensures P (u16be at r >>= next)
    Ensures-u16be h = Ensures-bind (u16be at r) next λ (v, r') e. h v r'

    Ensures-u32be :
        ((v : ℕ) (r' : Reader) → Ensures P (next (v, r'))) → Ensures P (u32be at r >>= next)
    Ensures-u32be h = Ensures-bind (u32be at r) next λ (v, r') e. h v r'

  module _ (n : ℕ) (at : String) (r : Reader) (next : List ℕ × Reader → Wire A) where
    pub Ensures-take :
        ((xs : List ℕ) (r' : Reader) → length xs ≡ n → Ensures P (next (xs, r')))
        → Ensures P (take_bytes n at r >>= next)
    Ensures-take h =
        Ensures-bind (take_bytes n at r) next
          λ (xs, r') e. h xs r' (take_bytes-length n at r xs r' e)

    pub Ensures-lp :
        ((xs : List ℕ) (r' : Reader) → length xs ≤ n → Ensures P (next (xs, r')))
        → Ensures P (lp n at r >>= next)
    Ensures-lp h = Ensures-bind (lp n at r) next λ (xs, r') e. h xs r' (lp-length n at r xs r' e)
