-- ===== src/Wire/Attach/Chunk.antt =====
-- `AttachChunk` of crates/wire-types/src/attach.rs.
use s_chat6_core.Common.{
  is_empty, ℕ, ◌^◌, ◌≤◌, ◌<◌, ◌≡◌, refl, arith, List, length, ltb, ◌==◌, Bool, true, false, ◌&&◌,
  not, if◌then◌else◌, ok, err, ◌>>=◌, ◌>>◌, guard, append_assoc, then_ok, Ensures, gives,
  Ensures-guard, Ensures-ok,
}
use s_chat6_core.Wire.Error.{Wire, too_large, bad_field, literal, value}
use s_chat6_core.Wire.Bin.{
  new_writer, put_u8, put_u16be, put_lp, raw, finish, new_reader, u8, u16be, lp, take_bytes,
  expect_end,
}
use s_chat6_core.Wire.Bin.Laws.{Sees-new}
use s_chat6_core.Wire.Bin.Steps.{then_u8, then_u16be, then_take, last_lp, then_end, then_guard}

abbrev pub chunk_data_max : ℕ
chunk_data_max = 27_900

pub record AttachChunk : Type 0 where
  pub head_id : List ℕ
  pub index : ℕ
  pub pad : Bool
  pub bytes : List ℕ

unfoldable pub encode_chunk : AttachChunk → Wire (List ℕ)
encode_chunk p = do
  guard (not (ltb chunk_data_max (length p.bytes)))
      (too_large "attach_chunk.data" (length p.bytes) chunk_data_max)
  guard (not (p.pad && not (is_empty p.bytes)))
      (bad_field "attach_chunk.pad" (literal "pad chunk carries data"))
  ok (
      finish (
        put_lp p.bytes
          (put_u8 (if p.pad then 1 else 0) (put_u16be p.index (raw p.head_id new_writer)))))

-- The `match` on the pad byte.
unfoldable read_pad : ℕ → Wire Bool
read_pad b =
    if b == 0
    then ok false
    else if b == 1
    then ok true
    else err (bad_field "attach_chunk.pad" (value b))

unfoldable pub decode_chunk : List ℕ → Wire AttachChunk
unfolding read_pad
decode_chunk bytes = do
  (head_id, r) ← take_bytes 16 "attach_chunk.head" (new_reader bytes)
  (index, r) ← u16be "attach_chunk.index" r
  (b, r) ← u8 "attach_chunk.pad" r
  pad ← read_pad b
  (content, r) ← lp chunk_data_max "attach_chunk.data" r
  expect_end "attach_chunk" r
  guard (not (pad && not (is_empty content)))
      (bad_field "attach_chunk.pad" (literal "pad chunk carries data"))
  ok (record { head_id = head_id; index = index; pad = pad; bytes = content })

pub record IsTyped (p : AttachChunk) : Type 0 where
  pub id_16 : length p.head_id ≡ 16
  index_u16 : p.index < 2 ^ 16

read_pad-pad : (b : Bool) → read_pad (if b then 1 else 0) ≡ ok b
unfolding read_pad
read_pad-pad true = refl
read_pad-pad false = refl

encode_chunk-Ensures :
    (p : AttachChunk) → IsTyped p → Ensures (λ bytes. decode_chunk bytes ≡ ok p) (encode_chunk p)
unfolding encode_chunk decode_chunk put_u8 put_u16be put_lp raw finish new_writer
encode_chunk-Ensures p t = Ensures-guard (not (ltb chunk_data_max (length p.bytes))) _ _ λ small.
    Ensures-guard (not (p.pad && not (is_empty p.bytes))) _ _ λ padded.
      let n : length p.bytes ≤ chunk_data_max = ground (arith, small) in
      gives _ (
        simp append_assoc (
          then_take _ _ _ p.head_id _ _ t.id_16 (Sees-new _) λ s.
            then_u16be _ _ _ p.index _ t.index_u16 s λ s.
              then_u8 _ _ _ (if p.pad then 1 else 0) _ s λ s.
                then_ok _ _ p.pad (read_pad-pad p.pad) (
                  last_lp _ _ _ p.bytes _ n (omega arith) s λ s.
                    then_end _ _ _ s
                      (then_guard (not (p.pad && not (is_empty p.bytes))) _ _ padded refl))))

-- A chunk that is encoded, its fields of their Rust types, is read back as it was.
pub chunk-round_trip :
    (p : AttachChunk) (bytes : List ℕ)
    → IsTyped p
    → encode_chunk p ≡ ok bytes
    → decode_chunk bytes ≡ ok p
chunk-round_trip p bytes t e = Ensures-ok (encode_chunk-Ensures p t) bytes e
