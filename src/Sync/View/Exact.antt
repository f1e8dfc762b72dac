-- ===== src/Sync/View/Exact.antt =====
-- The view that we send, as `is_missing` reads it, against the seqs that we have received.
use s_chat6_core.Common.{
  ℕ, ◌+◌, ◌-◌, ◌*◌, ◌/◌, ◌^◌, ◌≤◌, ◌<◌, ◌≡◌, refl, ap, ◌∙◌, arith, List, length, take, replicate,
  leb, true, not, Bool-cases, inl, inr, none, All, length-replicate,
}
use s_chat6_core.Sync.View.{
  walk, fill, kept_bytes, view_of, receive_view, order_by_seq, is_missing, bit_missing, bitmap_bits,
  view_scan_limit,
}
use s_chat6_core.Sync.View.Horizon.{Ascending, Ascending-weaken, walk_lem}
use s_chat6_core.Common.{elem}
use s_chat6_core.Sync.View.Order.{
  Distinct, IsSeq, elem-order_by_seq, length-order_by_seq, order_by_seq-Ascending, take_all,
  walk-le, length-take-le, starts_zero-order_by_seq, walk-starts_zero,
}
use s_chat6_core.Sync.View.Bitmap.{bit_missing_lem, bit_at-replicate, bit_at-take, fill_lem}

-- The bitmap that is sent, byte list cut behind the last set bit, holds the seqs of the window.
bitmap_lem :
    (bits n max : ℕ) (rest : List ℕ) (j : ℕ)
    → Ascending (max + 1) rest
    → bits ≤ 8 * n
    → j < bits
    → let f = fill bits max rest (replicate n 0) none in
      bit_missing (take (kept_bytes f.1) f.0) j ≡ not (elem (max + 1 + j) rest)
bitmap_lem bits n max rest j a room h =
    let f = fill bits max rest (replicate n 0) none in
    let filled =
      fill_lem bits max rest (replicate n 0) none 0
        (Ascending-weaken (max + 1) (max + 1 + 0) rest (omega arith) a)
        (λ i e. ground (arith, bit_at-replicate n i)) (omega arith)
        (omega (arith, length-replicate {0} {A = ℕ} n 0)) in
    bit_missing_lem (take (kept_bytes f.1) f.0) j
    ∙ ground
        (arith, bit_at-take f.0 (kept_bytes f.1) j, filled.0 j h, filled.1 j, bit_at-replicate n j)

-- The same of a list in the order of the query, with the size of the bitmap kept as a variable.
view_of_exact :
    (bits : ℕ) (seqs : List ℕ) (s : ℕ)
    → bits ≡ bitmap_bits
    → Ascending 0 seqs
    → 0 < s
    → let v = view_of seqs bits in
      s ≤ v.max_contiguous_seq + bits
      → is_missing v.max_contiguous_seq v.bitmap s ≡ not (elem s seqs)
unfolding view_of is_missing
view_of_exact bits seqs s e a pos w =
    let (up, above, held) = walk_lem 0 seqs a in
    let m = (walk 0 seqs).0 in
    let offset = s - m - 1 in
    elim (Bool-cases (leb s m)) [
      | inl below ↦ ground (arith, held s pos)
      | inr beyond ↦
          let place : m + 1 + offset ≡ s = ground arith in
          let left : elem (m + 1 + offset) (walk 0 seqs).1 ≡ elem s (walk 0 seqs).1 =
            ap (λ t. elem t (walk 0 seqs).1) place in
          ground (
            arith,
            held s pos,
            bitmap_lem bits ((bits + 7) / 8) m (walk 0 seqs).1 offset above (omega arith),
            left,
          )
    ]

receive_view_lem :
    (limit bits : ℕ) (table : List ℕ) (s : ℕ)
    → limit ≡ view_scan_limit
    → bits ≡ bitmap_bits
    → All IsSeq table
    → Distinct table
    → length table ≤ limit
    → 0 < s
    → let v = view_of (take limit (order_by_seq table)) bits in
      s ≤ v.max_contiguous_seq + bits
      → is_missing v.max_contiguous_seq v.bitmap s ≡ not (elem s table)
receive_view_lem limit bits table s l e a d fits pos w =
    let all : take limit (order_by_seq table) ≡ order_by_seq table =
      take_all limit (order_by_seq table) (omega (arith, length-order_by_seq table)) in
    let sorted : Ascending 0 (take limit (order_by_seq table)) =
      rw all (order_by_seq-Ascending table a d) in
    view_of_exact bits (take limit (order_by_seq table)) s e sorted pos w
    ∙ ap not (ap (elem s) all ∙ elem-order_by_seq s table)

-- The view that is sent for a table of at most `VIEW_SCAN_LIMIT` seqs, each at least 1 and below
-- 2 ^ 63 and none twice, is read by the peer exactly: up to the end of the window, a seq is missing
-- when and only when the table does not hold it.
pub receive_view_exact :
    (table : List ℕ) (s : ℕ)
    → All IsSeq table
    → Distinct table
    → length table ≤ view_scan_limit
    → 0 < s
    → s ≤ (receive_view table bitmap_bits).max_contiguous_seq + bitmap_bits
    → is_missing
        (receive_view table bitmap_bits).max_contiguous_seq
        (receive_view table bitmap_bits).bitmap
        s
      ≡ not (elem s table)
unfolding receive_view
receive_view_exact table s =
    λ a d fits. receive_view_lem view_scan_limit bitmap_bits table s refl refl a d fits

is_missing-beyond : (m s : ℕ) (bitmap : List ℕ) → m + bitmap_bits < s → is_missing m bitmap s ≡ true
unfolding is_missing
is_missing-beyond m s bitmap h = ground arith

walk-take-le : (n : ℕ) (xs : List ℕ) → (walk 0 (take n xs)).0 ≤ n
walk-take-le n xs = omega (arith, walk-le 0 (take n xs), length-take-le n xs)

-- The contiguous horizon that is sent never passes `VIEW_SCAN_LIMIT`: every seq that is more than
-- the limit and the window together is read as missing, whether the table holds it or not, and
-- whatever the bitmap.
pub horizon-saturates :
    (table : List ℕ) (bitmap : List ℕ) (s : ℕ)
    → view_scan_limit + bitmap_bits < s
    → is_missing (receive_view table bitmap_bits).max_contiguous_seq bitmap s ≡ true
unfolding receive_view view_of
horizon-saturates table bitmap s h =
    let m = (walk 0 (take view_scan_limit (order_by_seq table))).0 in
    let b : m ≤ view_scan_limit = walk-take-le view_scan_limit (order_by_seq table) in
    is_missing-beyond m s bitmap (omega (arith, b))

-- When the table holds the seq 0, and every seq is below 2 ^ 63, the contiguous horizon that is
-- sent is 0, whatever else has been received.
pub zero_seq-pins_horizon :
    (table : List ℕ)
    → All (λ s. s < 2 ^ 63) table
    → elem 0 table ≡ true
    → (receive_view table bitmap_bits).max_contiguous_seq ≡ 0
unfolding receive_view view_of
zero_seq-pins_horizon table a e =
    walk-starts_zero view_scan_limit (order_by_seq table) (starts_zero-order_by_seq table a ∙ e)
