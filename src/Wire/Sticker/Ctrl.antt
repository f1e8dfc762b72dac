-- ===== src/Wire/Sticker/Ctrl.antt =====
-- `StickerCtrl` of crates/wire-types/src/sticker.rs: acknowledgements, and the requests and chunks by
-- which items, packs and thumbnails are fetched; the encoder.
pub mod Decode
pub mod RoundTrip
pub mod Bounds
pub mod Trailer
use s_chat6_core.Common.{
  ℕ, ◌%◌, ◌^◌, List, [], ◌∷◌, length, ltb, leb, ◌==◌, Bool, true, false, ◌&&◌, ◌||◌, not, String,
  if◌then◌else◌, Option, none, some, Result, ok, err, ◌>>=◌, ◌>>◌, guard,
}
use s_chat6_core.Wire.Error.{
  Wire, WireError, bad_version, bad_field, too_large, trailing, literal, value, chunk_plan,
  reason_value,
}
use s_chat6_core.Wire.Bin.{
  Writer, Reader, new_writer, put_u8, put_u16be, put_lp, raw, finish, new_reader, remaining, u8,
  u16be, lp, take_bytes, expect_end,
}
use s_chat6_core.Wire.Sticker.{
  valid_kind, valid_visibility, aspect_ok, item_chunk_max, max_item_chunks, pack_chunk_max,
  max_pack_chunks, max_thumbs_chunks,
}
use s_chat6_core.Wire.Sticker.PackRef.{PackRef, encode_to}

abbrev pub ctrl_version : ℕ
ctrl_version = 1

abbrev pub op_ack : ℕ
op_ack = 1

abbrev pub op_want_item : ℕ
op_want_item = 2

abbrev pub op_item_body : ℕ
op_item_body = 3

abbrev pub op_want_pack : ℕ
op_want_pack = 4

abbrev pub op_pack_body : ℕ
op_pack_body = 5

abbrev pub op_pack_refused : ℕ
op_pack_refused = 6

abbrev pub op_want_thumbs : ℕ
op_want_thumbs = 7

abbrev pub op_thumbs_body : ℕ
op_thumbs_body = 8

abbrev refused_private : ℕ
refused_private = 1

abbrev refused_rate_limited : ℕ
refused_rate_limited = 3

pub data StickerCtrl : Type 0 where
  -- the hash
  ack : List ℕ → StickerCtrl
  -- the hash or a prefix of it
  want_item : List ℕ → StickerCtrl
  -- the hash, the index and the count of the chunks, the bytes, and the pack
  item_body : List ℕ → ℕ → ℕ → List ℕ → Option PackRef → StickerCtrl
  -- the id and the key of a pack
  want_pack : List ℕ → List ℕ → StickerCtrl
  -- … with the index and the count of the chunks, and the bytes
  pack_body : List ℕ → List ℕ → ℕ → ℕ → List ℕ → StickerCtrl
  -- … with the reason
  pack_refused : List ℕ → List ℕ → ℕ → StickerCtrl
  want_thumbs : List ℕ → List ℕ → StickerCtrl
  thumbs_body : List ℕ → List ℕ → ℕ → ℕ → List ℕ → StickerCtrl

unfoldable pub plan_ok : ℕ → ℕ → ℕ → Bool
plan_ok index count max_chunks = not (ltb count 1 || ltb max_chunks count || leb count index)

unfoldable pub check_chunk_plan : ℕ → ℕ → ℕ → String → Wire (Unit {0})
check_chunk_plan index count max_chunks at =
    guard (plan_ok index count max_chunks) (bad_field at (chunk_plan index count max_chunks))

-- `(4..=32).contains(&n)`.
unfoldable pub sha_len_ok : ℕ → Bool
sha_len_ok n = leb 4 n && leb n 32

unfoldable pub reason_ok : ℕ → Bool
reason_ok reason = leb refused_private reason && leb reason refused_rate_limited

-- `if let Some(p) = pack`.
unfoldable pub put_pack : Option PackRef → Writer → Writer
unfolding encode_to
put_pack none w = w
put_pack (some p) w = encode_to p w

-- The version and the op.
abbrev start : ℕ → Writer
start op = put_u8 op (put_u8 ctrl_version new_writer)

-- Both ids of a pack behind the op.
abbrev about_pack : ℕ → List ℕ → List ℕ → Writer
about_pack op pack_id pack_pk = raw pack_pk (raw pack_id (start op))

unfoldable pub encode_ctrl : StickerCtrl → Wire (List ℕ)
unfolding check_chunk_plan sha_len_ok reason_ok put_pack put_u8 put_u16be put_lp raw finish
    new_writer
encode_ctrl (ack sha) = ok (finish (raw sha (start op_ack)))
encode_ctrl (want_item sha) = do
  guard (sha_len_ok (length sha)) (bad_field "sticker_ctrl.want_item" (literal "sha len 4..=32"))
  ok (finish (raw sha (put_u8 (length sha % 2 ^ 8) (start op_want_item))))
encode_ctrl (item_body sha chunk_index chunk_count content pack) = do
  check_chunk_plan chunk_index chunk_count max_item_chunks "sticker_ctrl.item_body"
  guard (not (ltb item_chunk_max (length content)))
      (too_large "sticker_ctrl.item_body" (length content) item_chunk_max)
  ok (
      finish (
        put_pack pack (
          put_lp content
            (put_u16be chunk_count (put_u16be chunk_index (raw sha (start op_item_body)))))))
encode_ctrl (want_pack pack_id pack_pk) = ok (finish (about_pack op_want_pack pack_id pack_pk))
encode_ctrl (pack_body pack_id pack_pk chunk_index chunk_count content) = do
  check_chunk_plan chunk_index chunk_count max_pack_chunks "sticker_ctrl.pack_body"
  guard (not (ltb pack_chunk_max (length content)))
      (too_large "sticker_ctrl.pack_body" (length content) pack_chunk_max)
  ok (
      finish (
        put_lp content (
          put_u16be chunk_count (put_u16be chunk_index (about_pack op_pack_body pack_id pack_pk)))))
encode_ctrl (pack_refused pack_id pack_pk reason) = do
  guard (reason_ok reason) (bad_field "sticker_ctrl.refused" (reason_value reason))
  ok (finish (put_u8 reason (about_pack op_pack_refused pack_id pack_pk)))
encode_ctrl (want_thumbs pack_id pack_pk) = ok (finish (about_pack op_want_thumbs pack_id pack_pk))
encode_ctrl (thumbs_body pack_id pack_pk chunk_index chunk_count content) = do
  check_chunk_plan chunk_index chunk_count max_thumbs_chunks "sticker_ctrl.thumbs_body"
  guard (not (ltb pack_chunk_max (length content)))
      (too_large "sticker_ctrl.thumbs_body" (length content) pack_chunk_max)
  ok (
      finish (
        put_lp content (
          put_u16be chunk_count
            (put_u16be chunk_index (about_pack op_thumbs_body pack_id pack_pk)))))
