-- ===== src/Wire/Sticker/Item.antt =====
-- `StickerItem` of crates/wire-types/src/sticker.rs: one item, with its bytes or only by reference.
pub mod RoundTrip
use s_chat6_core.Common.{
  is_empty, ℕ, max, List, [], ◌∷◌, length, ltb, ◌==◌, Bool, true, ◌&&◌, ◌||◌, not, if◌then◌else◌,
  Option, none, some, ok, err, ◌>>=◌, ◌>>◌, guard, append_assoc, then_ok, Ensures, gives,
  Ensures-bind, Ensures-guard, Ensures-ok,
}
use s_chat6_core.Wire.Error.{Wire, WireError, bad_version, bad_field, literal, value}
use s_chat6_core.Wire.Bin.{
  Writer, Reader, new_writer, put_u8, put_u16be, put_lp, raw, finish, new_reader, u8, u16be, lp,
  take_bytes, expect_end,
}
use s_chat6_core.Wire.Sticker.{
  valid_kind, valid_visibility, aspect_ok, max_edge, max_bytes, max_bytes_sticker,
}

abbrev pub item_version : ℕ
item_version = 1

pub record StickerItem : Type 0 where
  pub kind : ℕ
  pub visibility : ℕ
  pub pack_id : List ℕ
  pub pack_pk : List ℕ
  pub item_id : ℕ
  pub w : ℕ
  pub h : ℕ
  pub content_sha256 : List ℕ
  pub bytes : Option (List ℕ)

-- The test of the inline bytes.
unfoldable pub inline_ok : ℕ → List ℕ → Bool
inline_ok kind b = not (is_empty b || ltb (max_bytes kind) (length b))

unfoldable pub check_inline : ℕ → Option (List ℕ) → Wire (Unit {0})
unfolding inline_ok
check_inline kind none = ok tt
check_inline kind (some b) =
    guard (inline_ok kind b) (bad_field "sticker.bytes" (literal "inline bytes out of range"))

unfoldable pub check_kind : ℕ → ℕ → Wire (Unit {0})
check_kind kind visibility =
    guard (valid_kind kind && valid_visibility visibility)
      (bad_field "sticker.kind" (literal "unknown kind/visibility"))

unfoldable pub check_dims : ℕ → ℕ → ℕ → Wire (Unit {0})
check_dims kind w h = do
  guard (aspect_ok kind w h) (bad_field "sticker.dims" (literal "aspect out of range"))
  guard (not (ltb (max_edge kind) (max w h))) (bad_field "sticker.dims" (literal "edge over cap"))

unfoldable pub validate : StickerItem → Wire (Unit {0})
unfolding check_kind check_dims check_inline
validate p = do
  check_kind p.kind p.visibility
  check_dims p.kind p.w p.h
  check_inline p.kind p.bytes

unfoldable pub put_inline : Option (List ℕ) → Writer → Writer
unfolding put_u8 put_lp
put_inline none w = put_u8 0 w
put_inline (some b) w = put_lp b (put_u8 1 w)

unfoldable pub encode_item : StickerItem → Wire (List ℕ)
unfolding validate put_u8 put_u16be raw finish new_writer put_inline
encode_item p = do
  validate p
  ok (
      finish (
        put_inline p.bytes (
          raw p.content_sha256 (
            put_u16be p.h (
              put_u16be p.w (
                put_u16be p.item_id (
                  raw p.pack_pk (
                    raw p.pack_id
                      (put_u8 p.visibility (put_u8 p.kind (put_u8 item_version new_writer)))))))))))

-- The `match has_bytes`.
unfoldable pub read_inline : ℕ → ℕ → Reader → Wire (Option (List ℕ))
unfolding inline_ok
read_inline kind has_bytes r =
    if has_bytes == 0
    then (expect_end "sticker" r >> ok none)
    else if has_bytes == 1
    then (do
      (b, r) ← lp max_bytes_sticker "sticker.bytes" r
      expect_end "sticker" r
      guard (inline_ok kind b) (bad_field "sticker.bytes" (literal "inline bytes out of range"))
      ok (some b))
    else err (bad_field "sticker.has_bytes" (value has_bytes))

unfoldable pub decode_item : List ℕ → Wire StickerItem
unfolding check_kind check_dims read_inline
decode_item bytes = do
  (version, r) ← u8 "sticker.version" (new_reader bytes)
  guard (version == item_version) (bad_version "sticker" version)
  (kind, r) ← u8 "sticker.kind" r
  (visibility, r) ← u8 "sticker.visibility" r
  check_kind kind visibility
  (pack_id, r) ← take_bytes 16 "sticker.pack_id" r
  (pack_pk, r) ← take_bytes 32 "sticker.pack_pk" r
  (item_id, r) ← u16be "sticker.item_id" r
  (w, r) ← u16be "sticker.w" r
  (h, r) ← u16be "sticker.h" r
  check_dims kind w h
  (content_sha256, r) ← take_bytes 32 "sticker.sha256" r
  (has_bytes, r) ← u8 "sticker.has_bytes" r
  inline ← read_inline kind has_bytes r
  ok (record {
    kind = kind;
    visibility = visibility;
    pack_id = pack_id;
    pack_pk = pack_pk;
    item_id = item_id;
    w = w;
    h = h;
    content_sha256 = content_sha256;
    bytes = inline;
  })
