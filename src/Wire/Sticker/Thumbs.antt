-- ===== src/Wire/Sticker/Thumbs.antt =====
-- `StickerThumbsDoc` of crates/wire-types/src/sticker.rs: the unsigned preview of a pack.
pub mod RoundTrip
use s_chat6_core.Common.{
  is_empty, ℕ, zero, suc, ◌*◌, ◌%◌, ◌^◌, List, [], ◌∷◌, length, ltb, Bool, ◌||◌, not, ok, ok_or,
  ◌>>=◌, ◌>>◌, guard, elem,
}
use s_chat6_core.Common.Utf8.{from_utf8, char_count}
use s_chat6_core.Wire.Error.{Wire, bad_field, too_large, literal}
use s_chat6_core.Wire.Bin.{
  Writer, new_writer, put_u8, put_u16be, put_lp, raw, finish, Reader, new_reader, u8, u16be, lp,
  expect_end,
}
use s_chat6_core.Wire.Sticker.{
  valid_kind, max_items, max_title_chars, max_thumb_bytes, max_thumbs_doc_bytes,
}

pub record Thumb : Type 0 where
  pub item_id : ℕ
  pub bytes : List ℕ

pub record StickerThumbsDoc : Type 0 where
  pub title : List ℕ
  pub kind : ℕ
  pub icon_item_id : ℕ
  pub thumbs : List Thumb

-- The count of the thumbnails and the bytes of one, as both directions check them.
unfoldable pub thumbs_ok : ℕ → ℕ → Bool
thumbs_ok kind n = not (ltb n 1 || ltb (max_items kind) n)

unfoldable pub put_thumb : Thumb → Writer → Writer
unfolding put_u16be put_lp raw
put_thumb t w = put_lp t.bytes (put_u16be t.item_id w)

-- The `for` loop of `encode`, with the ids that have been seen.
unfoldable pub put_thumbs : List ℕ → List Thumb → Writer → Wire Writer
unfolding put_thumb
put_thumbs seen [] w = ok w
put_thumbs seen (t ∷ ts) w = do
  guard (not (elem t.item_id seen)) (bad_field "thumbs_doc.thumbs" (literal "duplicate item id"))
  guard (not (is_empty t.bytes || ltb max_thumb_bytes (length t.bytes)))
      (bad_field "thumbs_doc.thumb" (literal "bytes out of range"))
  put_thumbs (t.item_id ∷ seen) ts (put_thumb t w)

-- The last check, on what has been written.
abbrev doc_fits : List ℕ → Wire (Unit {0})
doc_fits out =
    guard (not (ltb max_thumbs_doc_bytes (length out)))
      (too_large "thumbs_doc" (length out) max_thumbs_doc_bytes)

unfoldable pub encode_thumbs : StickerThumbsDoc → Wire (List ℕ)
unfolding put_thumbs thumbs_ok put_u8 put_u16be put_lp raw new_writer finish
encode_thumbs d = do
  guard (valid_kind d.kind) (bad_field "thumbs_doc.kind" (literal "unknown kind"))
  guard (not (ltb (max_title_chars * 4) (length d.title)))
      (too_large "thumbs_doc.title" (length d.title) (max_title_chars * 4))
  guard (thumbs_ok d.kind (length d.thumbs))
      (bad_field "thumbs_doc.thumbs" (literal "count out of range"))
  w ← put_thumbs [] d.thumbs (
      put_u16be (length d.thumbs % 2 ^ 16)
        (put_u16be d.icon_item_id (put_u8 d.kind (put_lp d.title new_writer))))
  doc_fits (finish w)
  ok (finish w)

-- The body of the `for` loop of `decode`.
unfoldable pub read_thumb : List ℕ → Reader → Wire (Thumb × Reader)
read_thumb seen r = do
  (item_id, r) ← u16be "thumbs_doc.thumb.id" r
  (bytes, r) ← lp max_thumb_bytes "thumbs_doc.thumb.bytes" r
  guard (not (is_empty bytes)) (bad_field "thumbs_doc.thumb" (literal "empty"))
  guard (not (elem item_id seen)) (bad_field "thumbs_doc.thumbs" (literal "duplicate item id"))
  ok (record { item_id = item_id; bytes = bytes }, r)

unfoldable pub read_thumbs : ℕ → List ℕ → Reader → Wire (List Thumb × Reader)
unfolding read_thumb
read_thumbs zero seen r = ok ([], r)
read_thumbs (suc n) seen r = do
  (t, r) ← read_thumb seen r
  (ts, r) ← read_thumbs n (t.item_id ∷ seen) r
  ok (t ∷ ts, r)

unfoldable pub read_thumbs_title : List ℕ → Wire (List ℕ)
unfolding from_utf8
read_thumbs_title bytes = do
  title ← ok_or (from_utf8 bytes) (bad_field "thumbs_doc.title" (literal "utf-8"))
  guard (not (ltb max_title_chars (char_count title)))
      (too_large "thumbs_doc.title" (char_count title) max_title_chars)
  ok title

unfoldable pub decode_thumbs : List ℕ → Wire StickerThumbsDoc
unfolding read_thumbs read_thumbs_title thumbs_ok
decode_thumbs blob = do
  doc_fits blob
  (title_bytes, r) ← lp (max_title_chars * 4) "thumbs_doc.title" (new_reader blob)
  title ← read_thumbs_title title_bytes
  (kind, r) ← u8 "thumbs_doc.kind" r
  guard (valid_kind kind) (bad_field "thumbs_doc.kind" (literal "unknown kind"))
  (icon_item_id, r) ← u16be "thumbs_doc.icon" r
  (count, r) ← u16be "thumbs_doc.count" r
  guard (thumbs_ok kind count) (bad_field "thumbs_doc.thumbs" (literal "count out of range"))
  (thumbs, r) ← read_thumbs count [] r
  expect_end "thumbs_doc" r
  ok (record { title = title; kind = kind; icon_item_id = icon_item_id; thumbs = thumbs })
