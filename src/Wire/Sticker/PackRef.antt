-- ===== src/Wire/Sticker/PackRef.antt =====
-- `PackRef` of crates/wire-types/src/sticker.rs: what a chunk of an item says of the item's pack.
pub mod RoundTrip
use s_chat6_core.Common.{ℕ, ◌+◌, List, ◌&&◌, ok, ◌>>=◌, ◌>>◌, guard}
use s_chat6_core.Wire.Error.{Wire, bad_field, literal}
use s_chat6_core.Wire.Bin.{Writer, Reader, put_u8, put_u16be, raw, u8, u16be, take_bytes}
use s_chat6_core.Wire.Sticker.{valid_kind, valid_visibility, aspect_ok}

pub record PackRef : Type 0 where
  pub pack_id : List ℕ
  pub pack_pk : List ℕ
  pub kind : ℕ
  pub visibility : ℕ
  pub item_id : ℕ
  pub w : ℕ
  pub h : ℕ

abbrev pub pack_ref_len : ℕ
pack_ref_len = 16 + 32 + 1 + 1 + 2 + 2 + 2

unfoldable pub encode_to : PackRef → Writer → Writer
unfolding put_u8 put_u16be raw
encode_to p w = put_u16be p.h (
    put_u16be p.w
      (put_u16be p.item_id (put_u8 p.visibility (put_u8 p.kind (raw p.pack_pk (raw p.pack_id w))))))

unfoldable pub decode_from : Reader → Wire PackRef
decode_from r = do
  (pack_id, r) ← take_bytes 16 "pack_ref.pack_id" r
  (pack_pk, r) ← take_bytes 32 "pack_ref.pack_pk" r
  (kind, r) ← u8 "pack_ref.kind" r
  (visibility, r) ← u8 "pack_ref.visibility" r
  guard (valid_kind kind && valid_visibility visibility)
      (bad_field "pack_ref.kind" (literal "unknown kind/visibility"))
  (item_id, r) ← u16be "pack_ref.item_id" r
  (w, r) ← u16be "pack_ref.w" r
  (h, r) ← u16be "pack_ref.h" r
  guard (aspect_ok kind w h) (bad_field "pack_ref.dims" (literal "aspect out of range"))
  ok (record {
    pack_id = pack_id;
    pack_pk = pack_pk;
    kind = kind;
    visibility = visibility;
    item_id = item_id;
    w = w;
    h = h;
  })
