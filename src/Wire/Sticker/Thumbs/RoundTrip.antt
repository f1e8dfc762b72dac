-- ===== src/Wire/Sticker/Thumbs/RoundTrip.antt =====
-- The preview of a pack read back after it was written.
use s_chat6_core.Common.{
  is_empty, ℕ, ◌*◌, ◌%◌, ◌^◌, ◌≤◌, ◌<◌, ◌≡◌, refl, ◌∙◌, arith, List, [], ◌∷◌, ◌++◌, length, ltb,
  true, ◌||◌, not, ok, elem, append_assoc, append-nil, guard_inv, then_ok, Ensures, gives,
  Ensures-bind, Ensures-guard, Ensures-ok,
}
use s_chat6_core.Common.Bytes.{to_be_bytes}
use s_chat6_core.Common.Utf8.{is_utf8, char_count}
use s_chat6_core.Wire.Bin.{Writer, new_writer, put_u8, put_u16be, put_lp, raw, finish, Reader}
use s_chat6_core.Wire.Bin.Laws.{Sees, Sees-new, u16be-Sees, lp-Sees}
use s_chat6_core.Wire.Bin.Steps.{then_u8, then_u16be, then_lp, then_end, then_guard}
use s_chat6_core.Wire.Sticker.{
  valid_kind, max_items, max_title_chars, max_thumb_bytes, max_thumbs_doc_bytes,
}
use s_chat6_core.Wire.Sticker.Thumbs.{
  Thumb, StickerThumbsDoc, thumbs_ok, put_thumb, put_thumbs, encode_thumbs, read_thumb, read_thumbs,
  read_thumbs_title, decode_thumbs,
}

-- The ids fit 16 bits.
abbrev AllTyped : List Thumb → Type 0
AllTyped [] = Unit {0}
AllTyped (t ∷ ts) = (t.item_id < 2 ^ 16) × AllTyped ts

-- The Rust types of the fields, and a title as the decoder asks for it.
pub record IsSound (d : StickerThumbsDoc) : Type 0 where
  pub title_utf8 : is_utf8 d.title ≡ true
  pub title_short : not (ltb max_title_chars (char_count d.title)) ≡ true
  pub icon_u16 : d.icon_item_id < 2 ^ 16
  pub typed : AllTyped d.thumbs

abbrev thumbs_bytes : List Thumb → List ℕ
thumbs_bytes [] = []
thumbs_bytes (t ∷ ts) =
    to_be_bytes 2 t.item_id
    ++ (to_be_bytes 4 (length t.bytes % 2 ^ 32) ++ (t.bytes ++ thumbs_bytes ts))

put_thumbs-buf :
    (seen : List ℕ) (ts : List Thumb) (w w' : Writer)
    → put_thumbs seen ts w ≡ ok w'
    → w'.buf ≡ w.buf ++ thumbs_bytes ts
unfolding put_thumbs put_thumb put_u16be put_lp raw
put_thumbs-buf seen [] w w' e = ground (arith, e, append-nil w.buf)
put_thumbs-buf seen (t ∷ ts) w w' e =
    let (new, e1) = guard_inv (not (elem t.item_id seen)) _ _ e in
    let (fits, e2) =
      guard_inv (not (is_empty t.bytes || ltb max_thumb_bytes (length t.bytes))) _ _ e1 in
    put_thumbs-buf (t.item_id ∷ seen) ts _ w' e2 ∙ simp append_assoc

thumb_range :
    (b : List ℕ)
    → not (is_empty b || ltb max_thumb_bytes (length b)) ≡ true
    → (length b ≤ max_thumb_bytes) × (not (is_empty b) ≡ true)
thumb_range b h = ground (arith, h)

read_thumbs-Sees :
    (seen : List ℕ) (ts : List Thumb) (w w' : Writer) (r : Reader) (ys : List ℕ)
    → AllTyped ts
    → put_thumbs seen ts w ≡ ok w'
    → Sees r (thumbs_bytes ts ++ ys)
    → (r' : Reader) × (read_thumbs (length ts) seen r ≡ ok (ts, r')) × Sees r' ys
unfolding put_thumbs read_thumbs read_thumb
read_thumbs-Sees seen [] w w' r ys t e s = (r, refl, s)
read_thumbs-Sees seen (x ∷ ts) w w' r ys t e s =
    let (new, e1) = guard_inv (not (elem x.item_id seen)) _ _ e in
    let (fits, e2) =
      guard_inv (not (is_empty x.bytes || ltb max_thumb_bytes (length x.bytes))) _ _ e1 in
    let (small, filled) = thumb_range x.bytes fits in
    let s0 : Sees r (
        to_be_bytes 2 x.item_id
        ++ (to_be_bytes 4 (length x.bytes % 2 ^ 32) ++ (x.bytes ++ (thumbs_bytes ts ++ ys)))) =
      simp append_assoc at s in
    let fit : length x.bytes % 2 ^ 32 ≡ length x.bytes = omega (arith, small) in
    let (e3, s3) = u16be-Sees "thumbs_doc.thumb.id" r x.item_id _ s0 t.0 in
    let (e4, s4) =
      lp-Sees max_thumb_bytes "thumbs_doc.thumb.bytes" _ x.bytes _ (rw fit at s3) small
        (omega (arith, small)) in
    let (r', e5, s5) = read_thumbs-Sees (x.item_id ∷ seen) ts _ w' _ ys t.1 e2 s4 in
    (r', rw (e3, e4, filled, new, e5) refl, s5)

read_thumbs_title_lem :
    (t : List ℕ)
    → is_utf8 t ≡ true
    → not (ltb max_title_chars (char_count t)) ≡ true
    → read_thumbs_title t ≡ ok t
unfolding read_thumbs_title
read_thumbs_title_lem t valid short = rw (valid, short) refl

few_thumbs : (kind n : ℕ) → thumbs_ok kind n ≡ true → (n % 2 ^ 16 ≡ n) × (n < 2 ^ 16)
unfolding thumbs_ok max_items
few_thumbs kind n h = ground (arith, h)

title_range : (n : ℕ) → not (ltb (max_title_chars * 4) n) ≡ true → n ≤ max_title_chars * 4
title_range n h = ground (arith, h)

encode_thumbs-Ensures :
    (d : StickerThumbsDoc)
    → IsSound d
    → Ensures (λ blob. decode_thumbs blob ≡ ok d) (encode_thumbs d)
unfolding encode_thumbs decode_thumbs put_u8 put_u16be put_lp raw new_writer finish
encode_thumbs-Ensures d t = Ensures-guard (valid_kind d.kind) _ _ λ known.
    Ensures-guard (not (ltb (max_title_chars * 4) (length d.title))) _ _ λ small.
      Ensures-guard (thumbs_ok d.kind (length d.thumbs)) _ _ λ counted.
        Ensures-bind (put_thumbs [] d.thumbs _) _ λ w e.
          Ensures-guard (not (ltb max_thumbs_doc_bytes (length w.buf))) _ _ λ room.
            let buf = put_thumbs-buf [] d.thumbs _ w e in
            let n : length d.title ≤ max_title_chars * 4 = title_range (length d.title) small in
            let (few, fits) = few_thumbs d.kind (length d.thumbs) counted in
            gives w.buf (
              then_guard (not (ltb max_thumbs_doc_bytes (length w.buf))) _ _ room (
                rw buf (
                  rw few (
                    simp append_assoc (
                      then_lp _ _ _ d.title _ _ n (omega (arith, n)) (Sees-new _) λ s.
                        then_ok (read_thumbs_title d.title) _ d.title
                          (read_thumbs_title_lem d.title t.title_utf8 t.title_short)
                          (then_u8 _ _ _ d.kind _ s λ s. then_guard (valid_kind d.kind) _ _ known (
                            then_u16be _ _ _ d.icon_item_id _ t.icon_u16 s λ s.
                              then_u16be _ _ _ (length d.thumbs) _ fits s λ s.
                                then_guard (thumbs_ok d.kind (length d.thumbs)) _ _ counted (
                                  let (r', e', s') =
                                    read_thumbs-Sees [] d.thumbs _ w _ [] t.typed e
                                      (rw append-nil s) in
                                  then_ok _ _ (d.thumbs, r') e' (then_end _ _ _ s' refl)))))))))

-- A preview that is encoded, its ids of 16 bits and its title valid UTF-8 of at most 32 characters, is read
-- back as it was.
thumbs-round_trip :
    (d : StickerThumbsDoc) (blob : List ℕ)
    → IsSound d
    → encode_thumbs d ≡ ok blob
    → decode_thumbs blob ≡ ok d
thumbs-round_trip d blob t e = Ensures-ok (encode_thumbs-Ensures d t) blob e
