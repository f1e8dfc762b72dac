-- ===== src/Wire/Sticker/PackDoc/Scan.antt =====
-- The progress scan of a pack document that has come whole.
use s_chat6_core.Common.{
  le→ltb, ℕ, ◌+◌, ◌*◌, ◌%◌, ◌^◌, ◌≤◌, ◌<◌, ◌≡◌, refl, ap, ◌∙◌, arith, List, [], ◌∷◌, ◌++◌, length,
  All, elem, ltb, ◌==◌, ◌||◌, Bool, true, false, ◌&&◌, not, some, ok, append_assoc, length-append,
  Ensures, gives, Ensures-bind, Ensures-guard, Ensures-ok,
}
use s_chat6_core.Common.Bytes.{to_be_bytes, length-to_be_bytes}
use s_chat6_core.Wire.Bin.{Reader, new_writer, put_u8, put_u16be, put_lp, raw, finish}
use s_chat6_core.Wire.Bin.Laws.{
  Sees, Sees-new, u8-Sees, lp-Sees, u16be-Sees, u32be-Sees, take_bytes-append, advance,
  remaining_lem,
}
use s_chat6_core.Wire.Sticker.{
  valid_kind, valid_visibility, max_bytes, max_title_chars, max_pack_doc_bytes,
}
use s_chat6_core.Wire.Sticker.PackDoc.{
  PackDocItem, StickerPackDoc, pack_doc_domain, count_ok, put_items, body_bytes,
}
use s_chat6_core.Wire.Sticker.PackDoc.Decode.{scan_item, scan_items, scan_header, scan_partial}
use s_chat6_core.Wire.Sticker.PackDoc.Accepts.{FreshIds}
use s_chat6_core.Wire.Sticker.PackDoc.Items.{
  item_ok-range, mod_small, IsTypedItem, IsWithin, item_bytes, items_bytes, item_ok-bytes,
  put_items-Ensures,
}
use s_chat6_core.Wire.Sticker.PackDoc.RoundTrip.{title_range, count_ok-small}

-- The head of an item that the scan skips, as one string.
item_head : PackDocItem → List ℕ
item_head it = to_be_bytes 2 it.w ++ (to_be_bytes 2 it.h ++ it.sha256)

length-item_head : (it : PackDocItem) → IsTypedItem it → length (item_head it) ≡ 2 + 2 + 32
unfolding item_head
length-item_head it t = omega (
  arith,
  length-append {0} (to_be_bytes 2 it.w) (to_be_bytes 2 it.h ++ it.sha256),
  length-append {0} (to_be_bytes 2 it.h) it.sha256,
  length-to_be_bytes 2 it.w,
  length-to_be_bytes 2 it.h,
  t.sha_32,
)

item_bytes-head :
    (it : PackDocItem) (ys : List ℕ)
    → item_bytes it ++ ys
      ≡ to_be_bytes 2 it.item_id
        ++ (item_head it ++ (to_be_bytes 4 (length it.bytes % 2 ^ 32) ++ (it.bytes ++ ys)))
unfolding item_head
item_bytes-head it ys = simp append_assoc

-- None of the three tests that end the scan.
no_break :
    (n cap ahead : ℕ) → 0 < n → n ≤ cap → n ≤ ahead → (n == 0 || ltb cap n || ltb ahead n) ≡ false
no_break n cap ahead a b c = ground arith

scan_item-Sees :
    (kind : ℕ) (seen : List ℕ) (it : PackDocItem) (r : Reader) (ys : List ℕ)
    → IsTypedItem it
    → IsWithin kind it
    → elem it.item_id seen ≡ false
    → Sees r (item_bytes it ++ ys)
    → (r' : Reader) × (scan_item kind seen r ≡ some (it.item_id, r')) × Sees r' ys
unfolding scan_item
scan_item-Sees kind seen it r ys t c new s0 =
    let n = length it.bytes in
    let (small, wide, filled) = item_ok-bytes kind it c in
    let (least, most) = item_ok-range kind it.w it.h n c in
    let (e1, s1) =
      u16be-Sees "pack_doc.item.id" r it.item_id _ (rw (item_bytes-head it ys) at s0) t.id_u16 in
    let (e2, s2) =
      take_bytes-append (2 + 2 + 32) "pack_doc.item.head" _ (item_head it) _ s1
        (length-item_head it t) in
    let (e3, s3) = u32be-Sees "pack_doc.item.len" _ n _ (rw (mod_small n wide) at s2) wide in
    let (e4, s4) = take_bytes-append n "pack_doc.item.bytes" _ it.bytes ys s3 refl in
    let here =
      no_break n (max_bytes kind) (length (it.bytes ++ ys)) least most
        (omega (arith, length-append {0} it.bytes ys)) in
    (
      _,
      ground (
        arith,
        e1,
        e2,
        e3,
        remaining_lem (advance 4 (advance (2 + 2 + 32) (advance 2 r))) (it.bytes ++ ys) s3,
        here,
        e4,
        new,
      ),
      s4,
    )

scan_items-Sees :
    (kind : ℕ) (seen : List ℕ) (its : List PackDocItem) (r : Reader) (ys : List ℕ) (complete : ℕ)
    → All IsTypedItem its
    → All (IsWithin kind) its
    → FreshIds seen its
    → Sees r (items_bytes its ++ ys)
    → scan_items (length its) kind seen r complete ≡ complete + length its
unfolding scan_items
scan_items-Sees kind seen [] r ys complete t c f s = omega arith
scan_items-Sees kind seen (it ∷ its) r ys complete t c f s =
    let s' = rw (append_assoc (item_bytes it) (items_bytes its) ys) at s in
    let (r', e, s1) = scan_item-Sees kind seen it r (items_bytes its ++ ys) t.0 c.0 f.0 s' in
    let rest = scan_items-Sees kind (it.item_id ∷ seen) its r' ys (complete + 1) t.1 c.1 f.1 s1 in
    rw (e, scan_items) (omega (arith, rest))

scan_partial-header :
    (partial : List ℕ) (kind count : ℕ) (r : Reader)
    → scan_header partial ≡ ok (kind, count, r)
    → scan_partial partial ≡ some (scan_items count kind [] r 0, count)
unfolding scan_partial
scan_partial-header partial kind count r h = ground (arith, h)

first_true : (a b : Bool) → (a && b) ≡ true → a ≡ true
first_true a b h = ground (arith, h)

zero_add : (n : ℕ) → 0 + n ≡ n
zero_add n = omega arith

-- The header, with the item table and whatever comes behind it.
abbrev header_bytes : StickerPackDoc → List ℕ → List ℕ
header_bytes d rest =
    pack_doc_domain
    ++ (d.pack_id
        ++ (d.kind
            ∷ d.visibility
            ∷ (to_be_bytes 4 (length d.title)
                ++ (d.title
                    ++ (to_be_bytes 2 d.icon_item_id
                        ++ (to_be_bytes 2 (length d.items) ++ rest))))))

scan_header-Sees :
    (d : StickerPackDoc) (rest : List ℕ)
    → length d.pack_id ≡ 16
    → d.icon_item_id < 2 ^ 16
    → valid_kind d.kind ≡ true
    → length d.title ≤ max_title_chars * 4
    → count_ok d.kind (length d.items) ≡ true
    → length (header_bytes d rest) ≤ max_pack_doc_bytes
    → (r : Reader) × (scan_header (header_bytes d rest) ≡ ok (d.kind, length d.items, r))
      × Sees r rest
unfolding scan_header
scan_header-Sees d rest id_16 icon known short counted small =
    let n = length d.items in
    let (e1, s1) =
      take_bytes-append 16 "pack_doc.domain" _ pack_doc_domain _ (Sees-new (header_bytes d rest))
        refl in
    let (e2, s2) = take_bytes-append 16 "pack_doc.pack_id" _ d.pack_id _ s1 id_16 in
    let (e3, s3) = u8-Sees "pack_doc.kind" _ d.kind _ s2 in
    let (e4, s4) = u8-Sees "pack_doc.visibility" _ d.visibility _ s3 in
    let (e5, s5) =
      lp-Sees (max_title_chars * 4) "pack_doc.title" _ d.title _ s4 short (omega (arith, short)) in
    let (e6, s6) = u16be-Sees "pack_doc.icon" _ d.icon_item_id _ s5 icon in
    let (e7, s7) =
      u16be-Sees "pack_doc.count" _ n rest s6 (omega (arith, count_ok-small d.kind n counted)) in
    (
      _,
      rw
          (
            le→ltb max_pack_doc_bytes (length (header_bytes d rest)) small,
            e1,
            e2,
            e3,
            e4,
            known,
            e5,
            e6,
            e7,
            counted,
          )
          refl,
      s7,
    )

-- The whole of what the encoder has written, and a signature behind it.
scan_partial-whole :
    (d : StickerPackDoc) (sig : List ℕ)
    → length d.pack_id ≡ 16
    → d.icon_item_id < 2 ^ 16
    → All IsTypedItem d.items
    → Ensures
        (λ body.
          length (body ++ sig) ≤ max_pack_doc_bytes
          → scan_partial (body ++ sig) ≡ some (length d.items, length d.items))
        (body_bytes d)
unfolding body_bytes put_u8 put_u16be put_lp raw new_writer finish
scan_partial-whole d sig id_16 icon typed =
    Ensures-guard (valid_kind d.kind && valid_visibility d.visibility) _ _ λ known.
      Ensures-guard (not (ltb (max_title_chars * 4) (length d.title))) _ _ λ small.
        Ensures-guard (count_ok d.kind (length d.items)) _ _ λ counted.
          Ensures-bind (put_items d.kind [] d.items _) _ λ w e. gives w.buf λ fits.
            let (buf, fresh, within) = Ensures-ok (put_items-Ensures d.kind d.items [] _) w e in
            let n : length d.title ≤ max_title_chars * 4 = title_range (length d.title) small in
            let whole : w.buf ++ sig ≡ header_bytes d (items_bytes d.items ++ sig) = rw buf (
              rw
                (
                  count_ok-small d.kind (length d.items) counted,
                  mod_small (length d.title) (omega (arith, n)),
                )
                (simp append_assoc)) in
            let (r, h, s) =
              scan_header-Sees d (items_bytes d.items ++ sig) id_16 icon
                (first_true (valid_kind d.kind) (valid_visibility d.visibility) known) n counted
                (rw whole at fits) in
            rw whole (
              scan_partial-header (header_bytes d (items_bytes d.items ++ sig)) d.kind
                (length d.items) r h
              ∙ ap (λ c. some (c, length d.items))
                  (scan_items-Sees d.kind [] d.items r sig 0 typed within fresh s
                    ∙ zero_add (length d.items)))

-- When a document has come whole, with any bytes as its signature behind it and at most 28 MiB in all, the
-- progress scan finds every item complete: as many as the document has, of as many, with no hash and no
-- signature checked. The document's id, icon number and items are of the widths of their types.
pub scan_complete :
    (d : StickerPackDoc) (body sig : List ℕ)
    → length d.pack_id ≡ 16
    → d.icon_item_id < 2 ^ 16
    → All IsTypedItem d.items
    → body_bytes d ≡ ok body
    → length (body ++ sig) ≤ max_pack_doc_bytes
    → scan_partial (body ++ sig) ≡ some (length d.items, length d.items)
scan_complete d body sig id_16 icon typed e =
    Ensures-ok (scan_partial-whole d sig id_16 icon typed) body e
