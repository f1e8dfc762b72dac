-- ===== src/Sync/View.antt =====
-- The receive view: `receive_view` of crates/core/src/store/messages.rs, and the reading of a
-- peer's view, `is_missing` of crates/core/src/sync/resync.rs.
pub mod Horizon
pub mod Bitmap
pub mod Order
pub mod Exact
use s_chat6_core.Common.{
  ℕ, zero, suc, ◌+◌, ◌-◌, ◌*◌, ◌/◌, ◌%◌, ◌^◌, ◌<◌, List, [], ◌∷◌, take, get_elem?, replicate, ltb,
  leb, ◌==◌, Bool, true, false, ◌||◌, if◌then◌else◌, Option, none, some, bit_and, bit_or,
}

abbrev pub bitmap_bits : ℕ
bitmap_bits = 512 * 8

abbrev pub view_scan_limit : ℕ
view_scan_limit = 65_536

pub record ReceiveView : Type 0 where
  pub max_contiguous_seq : ℕ
  pub bitmap : List ℕ

-- SQLite compares INTEGERs as signed numbers; the table keeps the 64-bit pattern of the `u64`.
abbrev pub i64_key : ℕ → ℕ
i64_key n = (n + 2 ^ 63) % 2 ^ 64

-- ORDER BY app_seq ASC, by insertion.
unfoldable pub insert_seq : ℕ → List ℕ → List ℕ
insert_seq s [] = s ∷ []
insert_seq s (x ∷ xs) = if leb (i64_key s) (i64_key x) then s ∷ x ∷ xs else x ∷ insert_seq s xs

unfoldable pub order_by_seq : List ℕ → List ℕ
unfolding insert_seq
order_by_seq [] = []
order_by_seq (s ∷ ss) = insert_seq s (order_by_seq ss)

-- The `while let` over the peekable iterator: the horizon, and the seqs that are left.
unfoldable pub walk : ℕ → List ℕ → ℕ × List ℕ
walk max [] = (max, [])
walk max (seq ∷ seqs) =
    let rest = walk (max + 1) seqs in if seq == max + 1 then rest else (max, seq ∷ seqs)

-- `bitmap[offset / 8] |= 1 << (offset % 8)`; the offset is within the bitmap.
unfoldable pub set_bit : List ℕ → ℕ → List ℕ
set_bit [] i = []
set_bit (b ∷ bs) i = if ltb i 8 then bit_or b (2 ^ i) ∷ bs else b ∷ set_bit bs (i - 8)

-- The `for` loop with its `break`; `last` is `last_set`.
unfoldable pub fill : ℕ → ℕ → List ℕ → List ℕ → Option ℕ → List ℕ × Option ℕ
unfolding set_bit
fill bits max [] bitmap last = (bitmap, last)
fill bits max (seq ∷ seqs) bitmap last =
    let offset = seq - (max + 1) in
    let rest = fill bits max seqs (set_bit bitmap offset) (some offset) in
    if leb bits offset then (bitmap, last) else rest

-- `last_set.map_or(0, |i| i / 8 + 1)`.
abbrev pub kept_bytes : Option ℕ → ℕ
kept_bytes none = 0
kept_bytes (some i) = i / 8 + 1

unfoldable pub view_of : List ℕ → ℕ → ReceiveView
unfolding walk fill
view_of seqs bits =
    let (max, rest) = walk 0 seqs in
    let (bitmap, last) = fill bits max rest (replicate ((bits + 7) / 8) 0) none in
    record { max_contiguous_seq = max; bitmap = take (kept_bytes last) bitmap }

-- The seqs of one relationship, as the table holds them, to its view.
unfoldable pub receive_view : List ℕ → ℕ → ReceiveView
unfolding order_by_seq view_of
receive_view table bits = view_of (take view_scan_limit (order_by_seq table)) bits

-- The `match` on `bitmap.get(i / 8)`.
unfoldable byte_clear : Option ℕ → ℕ → Bool
byte_clear none k = true
byte_clear (some byte) k = bit_and byte (2 ^ k) == 0

unfoldable pub bit_missing : List ℕ → ℕ → Bool
unfolding byte_clear
bit_missing bitmap i = byte_clear (get_elem? bitmap (i / 8)) (i % 8)

unfoldable pub is_missing : ℕ → List ℕ → ℕ → Bool
unfolding bit_missing
is_missing max bitmap app_seq =
    if app_seq == 0 || leb app_seq max
    then app_seq == 0
    else let offset = app_seq - max - 1 in
      if leb bitmap_bits offset then true else bit_missing bitmap offset

unfoldable pub opens_gap : ReceiveView → ℕ → Bool
opens_gap view app_seq = if leb app_seq 1 then false else ltb (view.max_contiguous_seq + 1) app_seq
