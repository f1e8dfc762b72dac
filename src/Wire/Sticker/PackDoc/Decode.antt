-- ===== src/Wire/Sticker/PackDoc/Decode.antt =====
-- `decode_signed`, `decode_body` and `scan_partial` of crates/wire-types/src/sticker.rs.
use s_chat6_core.Common.{
  is_empty, ℕ, zero, suc, ◌+◌, ◌-◌, ◌*◌, List, [], ◌∷◌, length, take, drop, bytes_eq, ltb, ◌==◌,
  Bool, false, ◌&&◌, ◌||◌, not, if◌then◌else◌, Option, none, some, ok, err, ◌>>=◌, ◌>>◌, guard,
  ok_or, elem,
}
use s_chat6_core.Common.Utf8.{from_utf8, char_count}
use s_chat6_core.Wire.Error.{Wire, bad_field, too_large, truncated, literal}
use s_chat6_core.Wire.Bin.{
  Reader, new_reader, remaining, u8, u16be, u32be, lp, take_bytes, expect_end,
}
use s_chat6_core.Wire.Sticker.{
  valid_kind, valid_visibility, item_ok, max_bytes, max_title_chars, max_pack_doc_bytes,
}
use s_chat6_core.Wire.Sticker.PackDoc.{PackDocItem, StickerPackDoc, pack_doc_domain, count_ok}

unfoldable pub has_item : ℕ → List PackDocItem → Bool
has_item id [] = false
has_item id (it ∷ its) = it.item_id == id || has_item id its

-- `String::from_utf8(…).map_err(…)?` and the ceiling on the characters.
unfoldable pub read_title : List ℕ → Wire (List ℕ)
unfolding from_utf8
read_title bytes = do
  title ← ok_or (from_utf8 bytes) (bad_field "pack_doc.title" (literal "utf-8"))
  guard (not (ltb max_title_chars (char_count title)))
      (too_large "pack_doc.title" (char_count title) max_title_chars)
  ok title

abbrev pub min_doc_bytes : ℕ
min_doc_bytes = 64 + length pack_doc_domain + 16 + 1 + 1 + 4 + 2 + 2

module _ (sha256 : List ℕ → List ℕ) where
  -- The body of the `for` loop.
  unfoldable pub read_item : ℕ → List ℕ → Reader → Wire (PackDocItem × Reader)
  read_item kind seen r = do
    (item_id, r) ← u16be "pack_doc.item.id" r
    (w, r) ← u16be "pack_doc.item.w" r
    (h, r) ← u16be "pack_doc.item.h" r
    (sha, r) ← take_bytes 32 "pack_doc.item.sha" r
    (bytes, r) ← lp (max_bytes kind) "pack_doc.item.bytes" r
    guard (not (is_empty bytes)) (bad_field "pack_doc.item.bytes" (literal "empty"))
    guard (not (elem item_id seen)) (bad_field "pack_doc.items" (literal "duplicate item id"))
    guard (bytes_eq (sha256 bytes) sha) (bad_field "pack_doc.item.sha" (literal "hash mismatch"))
    guard (item_ok kind w h (length bytes)) (bad_field "pack_doc.item" (literal "item fails caps"))
    ok (record { item_id = item_id; w = w; h = h; sha256 = sha; bytes = bytes }, r)

  unfoldable pub read_items : ℕ → ℕ → List ℕ → Reader → Wire (List PackDocItem × Reader)
  unfolding read_item
  read_items zero kind seen r = ok ([], r)
  read_items (suc n) kind seen r = do
    (it, r) ← read_item kind seen r
    (its, r) ← read_items n kind (it.item_id ∷ seen) r
    ok (it ∷ its, r)

  unfoldable pub decode_body : List ℕ → Wire StickerPackDoc
  unfolding read_items read_title has_item count_ok
  decode_body body = do
    (domain, r) ← take_bytes (length pack_doc_domain) "pack_doc.domain" (new_reader body)
    guard (bytes_eq domain pack_doc_domain) (bad_field "pack_doc.domain" (literal "mismatch"))
    (pack_id, r) ← take_bytes 16 "pack_doc.pack_id" r
    (kind, r) ← u8 "pack_doc.kind" r
    (visibility, r) ← u8 "pack_doc.visibility" r
    guard (valid_kind kind && valid_visibility visibility)
        (bad_field "pack_doc.kind" (literal "unknown kind/visibility"))
    (title_bytes, r) ← lp (max_title_chars * 4) "pack_doc.title" r
    title ← read_title title_bytes
    (icon_item_id, r) ← u16be "pack_doc.icon" r
    (count, r) ← u16be "pack_doc.count" r
    guard (count_ok kind count) (bad_field "pack_doc.items" (literal "item count out of range"))
    (items, r) ← read_items count kind [] r
    expect_end "pack_doc" r
    guard (has_item icon_item_id items) (bad_field "pack_doc.icon" (literal "icon item missing"))
    ok (record {
      pack_id = pack_id;
      kind = kind;
      visibility = visibility;
      title = title;
      icon_item_id = icon_item_id;
      items = items;
    })

  unfoldable pub decode_signed :
      (List ℕ → List ℕ → List ℕ → Bool) → List ℕ → List ℕ → Wire StickerPackDoc
  unfolding decode_body
  decode_signed verify pack_pk blob = do
    guard (not (ltb max_pack_doc_bytes (length blob)))
        (too_large "pack_doc" (length blob) max_pack_doc_bytes)
    guard (not (ltb (length blob) min_doc_bytes)) (truncated "pack_doc")
    let body = take (length blob - 64) blob
    let sig = drop (length blob - 64) blob
    guard (verify pack_pk body sig) (bad_field "pack_doc.sig" (literal "signature invalid"))
    decode_body body

-- One round of the `while` loop of `scan_partial`; `none` is its `break`.
unfoldable pub scan_item : ℕ → List ℕ → Reader → Option (ℕ × Reader)
scan_item kind seen r = elim (u16be "pack_doc.item.id" r) [
  | err e ↦ none
  | ok (item_id, r1) ↦ elim (take_bytes (2 + 2 + 32) "pack_doc.item.head" r1) [
    | err e ↦ none
    | ok (head, r2) ↦ elim (u32be "pack_doc.item.len" r2) [
      | err e ↦ none
      | ok (n, r3) ↦
          if n == 0 || ltb (max_bytes kind) n || ltb (remaining r3) n
          then none
          else elim (take_bytes n "pack_doc.item.bytes" r3) [
            | err e ↦ none
            | ok (bytes, r4) ↦ if elem item_id seen then none else some (item_id, r4)
          ]
    ]
  ]
]

-- The loop, with the rounds that are left.
unfoldable pub scan_items : ℕ → ℕ → List ℕ → Reader → ℕ → ℕ
unfolding scan_item
scan_items zero kind seen r complete = complete
scan_items (suc left) kind seen r complete = elim (scan_item kind seen r) [
  | none ↦ complete
  | some (item_id, r') ↦ scan_items left kind (item_id ∷ seen) r' (complete + 1)
]

-- `none` wherever the header is cut off, or is not one.
unfoldable pub scan_header : List ℕ → Wire (ℕ × ℕ × Reader)
unfolding count_ok
scan_header partial = do
  guard (not (ltb max_pack_doc_bytes (length partial)))
      (too_large "pack_doc" (length partial) max_pack_doc_bytes)
  (domain, r) ← take_bytes (length pack_doc_domain) "pack_doc.domain" (new_reader partial)
  guard (bytes_eq domain pack_doc_domain) (bad_field "pack_doc.domain" (literal "mismatch"))
  (pack_id, r) ← take_bytes 16 "pack_doc.pack_id" r
  (kind, r) ← u8 "pack_doc.kind" r
  (visibility, r) ← u8 "pack_doc.visibility" r
  guard (valid_kind kind) (bad_field "pack_doc.kind" (literal "unknown kind/visibility"))
  (title, r) ← lp (max_title_chars * 4) "pack_doc.title" r
  (icon, r) ← u16be "pack_doc.icon" r
  (count, r) ← u16be "pack_doc.count" r
  guard (count_ok kind count) (bad_field "pack_doc.items" (literal "item count out of range"))
  ok (kind, count, r)

unfoldable pub scan_partial : List ℕ → Option (ℕ × ℕ)
unfolding scan_header scan_items
scan_partial partial = elim (scan_header partial) [
  | err e ↦ none
  | ok (kind, count, r) ↦ some (scan_items count kind [] r 0, count)
]
