-- ===== src/Wire/Sticker/PackDoc.antt =====
-- `StickerPackDoc` of crates/wire-types/src/sticker.rs: the signed document of a pack, with a parser for the
-- whole of it. The hash and the verification of the signature are parameters, as they are in the source.
pub mod Decode
pub mod Items
pub mod RoundTrip
pub mod Accepts
pub mod Scan
use s_chat6_core.Common.{
  ℕ, ◌+◌, ◌*◌, ◌%◌, ◌^◌, List, [], ◌∷◌, length, ltb, leb, ◌==◌, Bool, true, false, ◌&&◌, ◌||◌, not,
  if◌then◌else◌, ok, err, ◌>>=◌, ◌>>◌, guard, elem,
}
use s_chat6_core.Wire.Error.{Wire, WireError, bad_field, too_large, literal}
use s_chat6_core.Wire.Bin.{Writer, new_writer, put_u8, put_u16be, put_lp, raw, finish}
use s_chat6_core.Wire.Sticker.{valid_kind, valid_visibility, item_ok, max_items, max_title_chars}

-- b"s//chat6-v7 Pack".
abbrev pub pack_doc_domain : List ℕ
pack_doc_domain =
    b's' ∷ b'/' ∷ b'/' ∷ b'c' ∷ b'h' ∷ b'a' ∷ b't' ∷ b'6' ∷ b'-' ∷ b'v' ∷ b'7' ∷ b' ' ∷ b'P' ∷ b'a'
    ∷ b'c' ∷ b'k' ∷ []

pub record PackDocItem : Type 0 where
  pub item_id : ℕ
  pub w : ℕ
  pub h : ℕ
  pub sha256 : List ℕ
  pub bytes : List ℕ

pub record StickerPackDoc : Type 0 where
  pub pack_id : List ℕ
  pub kind : ℕ
  pub visibility : ℕ
  pub title : List ℕ
  pub icon_item_id : ℕ
  pub items : List PackDocItem

unfoldable pub put_item : PackDocItem → Writer → Writer
unfolding put_u16be put_lp raw
put_item it w =
    put_lp it.bytes (raw it.sha256 (put_u16be it.h (put_u16be it.w (put_u16be it.item_id w))))

-- The `for` loop, with the ids that have been seen.
unfoldable pub put_items : ℕ → List ℕ → List PackDocItem → Writer → Wire Writer
unfolding put_item
put_items kind seen [] w = ok w
put_items kind seen (it ∷ its) w = do
  guard (not (elem it.item_id seen)) (bad_field "pack_doc.items" (literal "duplicate item id"))
  guard (item_ok kind it.w it.h (length it.bytes))
      (bad_field "pack_doc.item" (literal "item fails caps"))
  put_items kind (it.item_id ∷ seen) its (put_item it w)

unfoldable pub count_ok : ℕ → ℕ → Bool
count_ok kind n = not (ltb n 1 || ltb (max_items kind) n)

unfoldable pub body_bytes : StickerPackDoc → Wire (List ℕ)
unfolding put_items count_ok put_u8 put_u16be put_lp raw new_writer finish
body_bytes d = do
  guard (valid_kind d.kind && valid_visibility d.visibility)
      (bad_field "pack_doc.kind" (literal "unknown kind/visibility"))
  guard (not (ltb (max_title_chars * 4) (length d.title)))
      (too_large "pack_doc.title" (length d.title) (max_title_chars * 4))
  guard (count_ok d.kind (length d.items))
      (bad_field "pack_doc.items" (literal "item count out of range"))
  w ← put_items d.kind [] d.items (
      put_u16be (length d.items % 2 ^ 16) (
        put_u16be d.icon_item_id (
          put_lp d.title (
            put_u8 d.visibility (put_u8 d.kind (raw d.pack_id (raw pack_doc_domain new_writer)))))))
  ok (finish w)
