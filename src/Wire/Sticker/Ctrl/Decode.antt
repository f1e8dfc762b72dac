-- ===== src/Wire/Sticker/Ctrl/Decode.antt =====
-- `StickerCtrl::decode_payload` of crates/wire-types/src/sticker.rs, a function for each arm.
use s_chat6_core.Common.{
  ℕ, List, ◌==◌, String, if◌then◌else◌, Option, none, some, ok, err, ◌>>=◌, ◌>>◌, guard,
}
use s_chat6_core.Wire.Error.{Wire, bad_version, bad_field, trailing, literal, value, reason_value}
use s_chat6_core.Wire.Bin.{Reader, new_reader, remaining, u8, u16be, lp, take_bytes, expect_end}
use s_chat6_core.Wire.Sticker.{
  item_chunk_max, max_item_chunks, pack_chunk_max, max_pack_chunks, max_thumbs_chunks,
}
use s_chat6_core.Wire.Sticker.PackRef.{PackRef, pack_ref_len, decode_from}
use s_chat6_core.Wire.Sticker.Ctrl.{
  StickerCtrl, ack, want_item, item_body, want_pack, pack_body, pack_refused, want_thumbs,
  thumbs_body, check_chunk_plan, sha_len_ok, reason_ok, ctrl_version, op_ack, op_want_item,
  op_item_body, op_want_pack, op_pack_body, op_pack_refused, op_want_thumbs, op_thumbs_body,
}

unfoldable pub decode_ack : Reader → Wire StickerCtrl
decode_ack r = do
  (sha, r) ← take_bytes 32 "sticker_ctrl.ack" r
  expect_end "sticker_ctrl" r
  ok (ack sha)

unfoldable pub decode_want_item : Reader → Wire StickerCtrl
unfolding sha_len_ok
decode_want_item r = do
  (n, r) ← u8 "sticker_ctrl.want_item.len" r
  guard (sha_len_ok n) (bad_field "sticker_ctrl.want_item" (literal "sha len 4..=32"))
  (sha, r) ← take_bytes n "sticker_ctrl.want_item" r
  expect_end "sticker_ctrl" r
  ok (want_item sha)

-- `Result::ok`.
abbrev ok_of : Wire PackRef → Option PackRef
ok_of (ok p) = some p
ok_of (err e) = none

-- The `match r.remaining()`: a trailer that is not a pack reference drops the reference, not the chunk.
unfoldable pub read_pack : Reader → Wire (Option PackRef × Reader)
unfolding decode_from
read_pack r =
    if remaining r == 0
    then ok (none, r)
    else if remaining r == pack_ref_len
    then (do
      (trailer, r) ← take_bytes pack_ref_len "sticker_ctrl.item_body.pack" r
      ok (ok_of (decode_from (new_reader trailer)), r))
    else err (trailing "sticker_ctrl.item_body" (remaining r))

unfoldable pub decode_item_body : Reader → Wire StickerCtrl
unfolding check_chunk_plan read_pack
decode_item_body r = do
  (sha, r) ← take_bytes 32 "sticker_ctrl.item_body.sha" r
  (idx, r) ← u16be "sticker_ctrl.item_body.idx" r
  (count, r) ← u16be "sticker_ctrl.item_body.count" r
  check_chunk_plan idx count max_item_chunks "sticker_ctrl.item_body"
  (content, r) ← lp item_chunk_max "sticker_ctrl.item_body.data" r
  (pack, r) ← read_pack r
  expect_end "sticker_ctrl" r
  ok (item_body sha idx count content pack)

-- The two arms with the two ids of a pack and nothing else; `id` and `pk` are the places.
unfoldable pub decode_want :
    String → String → (List ℕ → List ℕ → StickerCtrl) → Reader → Wire StickerCtrl
decode_want id pk make r = do
  (pack_id, r) ← take_bytes 16 id r
  (pack_pk, r) ← take_bytes 32 pk r
  expect_end "sticker_ctrl" r
  ok (make pack_id pack_pk)

unfoldable pub decode_pack_body : Reader → Wire StickerCtrl
unfolding check_chunk_plan
decode_pack_body r = do
  (pack_id, r) ← take_bytes 16 "sticker_ctrl.pack_body.id" r
  (pack_pk, r) ← take_bytes 32 "sticker_ctrl.pack_body.pk" r
  (idx, r) ← u16be "sticker_ctrl.pack_body.idx" r
  (count, r) ← u16be "sticker_ctrl.pack_body.count" r
  check_chunk_plan idx count max_pack_chunks "sticker_ctrl.pack_body"
  (content, r) ← lp pack_chunk_max "sticker_ctrl.pack_body.data" r
  expect_end "sticker_ctrl" r
  ok (pack_body pack_id pack_pk idx count content)

unfoldable pub decode_pack_refused : Reader → Wire StickerCtrl
unfolding reason_ok
decode_pack_refused r = do
  (pack_id, r) ← take_bytes 16 "sticker_ctrl.refused.id" r
  (pack_pk, r) ← take_bytes 32 "sticker_ctrl.refused.pk" r
  (reason, r) ← u8 "sticker_ctrl.refused.reason" r
  expect_end "sticker_ctrl" r
  guard (reason_ok reason) (bad_field "sticker_ctrl.refused" (reason_value reason))
  ok (pack_refused pack_id pack_pk reason)

unfoldable pub decode_thumbs_body : Reader → Wire StickerCtrl
unfolding check_chunk_plan
decode_thumbs_body r = do
  (pack_id, r) ← take_bytes 16 "sticker_ctrl.thumbs_body.id" r
  (pack_pk, r) ← take_bytes 32 "sticker_ctrl.thumbs_body.pk" r
  (idx, r) ← u16be "sticker_ctrl.thumbs_body.idx" r
  (count, r) ← u16be "sticker_ctrl.thumbs_body.count" r
  check_chunk_plan idx count max_thumbs_chunks "sticker_ctrl.thumbs_body"
  (content, r) ← lp pack_chunk_max "sticker_ctrl.thumbs_body.data" r
  expect_end "sticker_ctrl" r
  ok (thumbs_body pack_id pack_pk idx count content)

-- The `match op`.
unfoldable pub decode_op : ℕ → Reader → Wire StickerCtrl
decode_op op r =
    if op == op_ack
    then decode_ack r
    else if op == op_want_item
    then decode_want_item r
    else if op == op_item_body
    then decode_item_body r
    else if op == op_want_pack
    then decode_want "sticker_ctrl.want_pack.id" "sticker_ctrl.want_pack.pk" want_pack r
    else if op == op_pack_body
    then decode_pack_body r
    else if op == op_pack_refused
    then decode_pack_refused r
    else if op == op_want_thumbs
    then decode_want "sticker_ctrl.want_thumbs.id" "sticker_ctrl.want_thumbs.pk" want_thumbs r
    else if op == op_thumbs_body
    then decode_thumbs_body r
    else err (bad_field "sticker_ctrl.op" (value op))

unfoldable pub decode_ctrl : List ℕ → Wire StickerCtrl
unfolding decode_op
decode_ctrl bytes = do
  (version, r) ← u8 "sticker_ctrl.version" (new_reader bytes)
  guard (version == ctrl_version) (bad_version "sticker_ctrl" version)
  (op, r) ← u8 "sticker_ctrl.op" r
  decode_op op r
