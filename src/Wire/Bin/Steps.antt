-- ===== src/Wire/Bin/Steps.antt =====
-- One lemma for each read of a decoder's `do` block: what was written in front is read, and the rest of
-- the block goes on with what is left.
use s_chat6_core.Common.{
  ℕ, ◌%◌, ◌^◌, append-nil, arith, ◌≤◌, ◌<◌, ◌≡◌, ap, ◌∙◌, String, List, [], ◌∷◌, ◌++◌, length, Bool,
  true, ◌>>=◌, ◌>>◌, guard,
}
use s_chat6_core.Common.Bytes.{to_be_bytes}
use s_chat6_core.Wire.Error.{Wire, WireError}
use s_chat6_core.Wire.Bin.{Reader, take_bytes, u8, u16be, u32be, u64be, lp, expect_end}
use s_chat6_core.Wire.Bin.Laws.{
  Sees, advance, u8-Sees, u16be-Sees, u32be-Sees, u64be-Sees, lp-Sees, take_bytes-append,
  expect_end-Sees,
}

module _ {A : Type 0} {result : Wire A} (at : String) (r : Reader) where
  module _ (k : ℕ × Reader → Wire A) (v : ℕ) (ys : List ℕ) where
    pub then_u8 :
        Sees r (v ∷ ys)
        → (Sees (advance 1 r) ys → k (v, advance 1 r) ≡ result)
        → (u8 at r >>= k) ≡ result
    then_u8 s go = let (e, t) = u8-Sees at r v ys s in ap (λ m. m >>= k) e ∙ go t

    pub then_u16be :
        v < 2 ^ 16
        → Sees r (to_be_bytes 2 v ++ ys)
        → (Sees (advance 2 r) ys → k (v, advance 2 r) ≡ result)
        → (u16be at r >>= k) ≡ result
    then_u16be h s go = let (e, t) = u16be-Sees at r v ys s h in ap (λ m. m >>= k) e ∙ go t

    pub then_u32be :
        v < 2 ^ 32
        → Sees r (to_be_bytes 4 v ++ ys)
        → (Sees (advance 4 r) ys → k (v, advance 4 r) ≡ result)
        → (u32be at r >>= k) ≡ result
    then_u32be h s go = let (e, t) = u32be-Sees at r v ys s h in ap (λ m. m >>= k) e ∙ go t

    then_u64be :
        v < 2 ^ 64
        → Sees r (to_be_bytes 8 v ++ ys)
        → (Sees (advance 8 r) ys → k (v, advance 8 r) ≡ result)
        → (u64be at r >>= k) ≡ result
    then_u64be h s go = let (e, t) = u64be-Sees at r v ys s h in ap (λ m. m >>= k) e ∙ go t

  module _ (k : List ℕ × Reader → Wire A) (xs ys : List ℕ) where
    pub then_take :
        (n : ℕ)
        → length xs ≡ n
        → Sees r (xs ++ ys)
        → (Sees (advance n r) ys → k (xs, advance n r) ≡ result)
        → (take_bytes n at r >>= k) ≡ result
    then_take n h s go =
        let (e, t) = take_bytes-append n at r xs ys s h in ap (λ m. m >>= k) e ∙ go t

    pub then_lp :
        (max : ℕ)
        → length xs ≤ max
        → length xs < 2 ^ 32
        → Sees r (to_be_bytes 4 (length xs % 2 ^ 32) ++ (xs ++ ys))
        → (Sees (advance (length xs) (advance 4 r)) ys
            → k (xs, advance (length xs) (advance 4 r)) ≡ result)
        → (lp max at r >>= k) ≡ result
    then_lp max h small s go =
        let fits : length xs % 2 ^ 32 ≡ length xs = omega arith in
        let s' : Sees r (to_be_bytes 4 (length xs) ++ (xs ++ ys)) = rw fits at s in
        let (e, t) = lp-Sees max at r xs ys s' h small in ap (λ m. m >>= k) e ∙ go t

  -- The last field, with nothing behind it.
  module _ (k : List ℕ × Reader → Wire A) (xs : List ℕ) where
    pub last_take :
        (n : ℕ)
        → length xs ≡ n
        → Sees r xs
        → (Sees (advance n r) [] → k (xs, advance n r) ≡ result)
        → (take_bytes n at r >>= k) ≡ result
    last_take n h s go = then_take k xs [] n h (rw append-nil s) go

    pub last_lp :
        (max : ℕ)
        → length xs ≤ max
        → length xs < 2 ^ 32
        → Sees r (to_be_bytes 4 (length xs % 2 ^ 32) ++ xs)
        → (Sees (advance (length xs) (advance 4 r)) []
            → k (xs, advance (length xs) (advance 4 r)) ≡ result)
        → (lp max at r >>= k) ≡ result
    last_lp max h small s go = then_lp k xs [] max h small (rw append-nil s) go

  pub then_end : (m : Wire A) → Sees r [] → m ≡ result → (expect_end at r >> m) ≡ result
  then_end m s go = ap (λ c. c >> m) (expect_end-Sees at r s) ∙ go

pub then_guard :
    {A : Type 0} {result : Wire A} (b : Bool) (e : WireError) (m : Wire A)
    → b ≡ true
    → m ≡ result
    → (guard b e >> m) ≡ result
then_guard b e m h go = ap (λ t. guard t e >> m) h ∙ go
