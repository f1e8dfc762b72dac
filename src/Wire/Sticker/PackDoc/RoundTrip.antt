-- ===== src/Wire/Sticker/PackDoc/RoundTrip.antt =====
-- Pack documents read back after they were written.
use s_chat6_core.Common.{
  ℕ, ◌*◌, ◌%◌, ◌^◌, ◌≤◌, ◌<◌, ◌≡◌, refl, arith, List, [], ◌∷◌, length, All, ltb, true, ◌&&◌, not,
  ok, append_assoc, append-nil, then_ok, Ensures, gives, Ensures-bind, Ensures-guard, Ensures-ok,
}
use s_chat6_core.Common.Utf8.{is_utf8, char_count}
use s_chat6_core.Wire.Bin.{new_writer, put_u8, put_u16be, put_lp, raw, finish}
use s_chat6_core.Wire.Bin.Laws.{Sees-new}
use s_chat6_core.Wire.Bin.Steps.{then_u8, then_u16be, then_take, then_lp, then_end, then_guard}
use s_chat6_core.Wire.Sticker.{valid_kind, valid_visibility, max_items, max_title_chars}
use s_chat6_core.Wire.Sticker.PackDoc.{
  PackDocItem, StickerPackDoc, pack_doc_domain, count_ok, put_items, body_bytes,
}
use s_chat6_core.Wire.Sticker.PackDoc.Decode.{has_item, read_title, decode_body}
use s_chat6_core.Wire.Sticker.PackDoc.Accepts.{IsChecked}
use s_chat6_core.Wire.Sticker.PackDoc.Items.{
  IsTypedItem, IsWithin, put_items-Ensures, read_items-Sees,
}

read_title_lem :
    (t : List ℕ)
    → is_utf8 t ≡ true
    → not (ltb max_title_chars (char_count t)) ≡ true
    → read_title t ≡ ok t
unfolding read_title
read_title_lem t valid short = rw (valid, short) refl

pub title_range : (n : ℕ) → not (ltb (max_title_chars * 4) n) ≡ true → n ≤ max_title_chars * 4
title_range n h = ground (arith, h)

pub count_ok-small : (kind n : ℕ) → count_ok kind n ≡ true → n % 2 ^ 16 ≡ n
unfolding count_ok max_items
count_ok-small kind n h = ground (arith, h)

module _ (sha256 : List ℕ → List ℕ) where
  -- The rest of what the decoder asks, which the encoder does not.
  pub record IsSound (d : StickerPackDoc) : Type 0 where
    pub id_16 : length d.pack_id ≡ 16
    pub icon_u16 : d.icon_item_id < 2 ^ 16
    pub title_utf8 : is_utf8 d.title ≡ true
    pub title_short : not (ltb max_title_chars (char_count d.title)) ≡ true
    pub typed : All IsTypedItem d.items
    pub hashed : All (λ (it : PackDocItem). sha256 it.bytes ≡ it.sha256) d.items
    pub icon : has_item d.icon_item_id d.items ≡ true

  All-IsChecked :
      (kind : ℕ) (its : List PackDocItem)
      → All (IsWithin kind) its
      → All (λ (it : PackDocItem). sha256 it.bytes ≡ it.sha256) its
      → All (IsChecked sha256 kind) its
  All-IsChecked kind [] w h = tt
  All-IsChecked kind (it ∷ its) w h =
      (record { caps = w.0; hash = h.0 }, All-IsChecked kind its w.1 h.1)

  body_bytes-Ensures :
      (d : StickerPackDoc)
      → IsSound d
      → Ensures (λ body. decode_body sha256 body ≡ ok d) (body_bytes d)
  unfolding body_bytes decode_body put_u8 put_u16be put_lp raw new_writer finish
  body_bytes-Ensures d t =
      Ensures-guard (valid_kind d.kind && valid_visibility d.visibility) _ _ λ known.
        Ensures-guard (not (ltb (max_title_chars * 4) (length d.title))) _ _ λ small.
          Ensures-guard (count_ok d.kind (length d.items)) _ _ λ counted.
            Ensures-bind (put_items d.kind [] d.items _) _ λ w e.
              let (buf, fresh, within) = Ensures-ok (put_items-Ensures d.kind d.items [] _) w e in
              let n : length d.title ≤ max_title_chars * 4 = title_range (length d.title) small in
              let few = count_ok-small d.kind (length d.items) counted in
              gives w.buf (
                rw buf (
                  rw few (
                    simp append_assoc (
                      then_take _ _ _ pack_doc_domain _ _ refl (Sees-new _) λ s.
                        then_take _ _ _ d.pack_id _ 16 t.id_16 s λ s. then_u8 _ _ _ d.kind _ s λ s.
                          then_u8 _ _ _ d.visibility _ s λ s.
                            then_guard (valid_kind d.kind && valid_visibility d.visibility) _ _
                              known
                              (then_lp _ _ _ d.title _ _ n (omega (arith, n)) s λ s.
                                then_ok (read_title d.title) _ d.title
                                  (read_title_lem d.title t.title_utf8 t.title_short)
                                  (then_u16be _ _ _ d.icon_item_id _ t.icon_u16 s λ s.
                                    then_u16be _ _ _ (length d.items) _ (omega (arith, few)) s λ s.
                                      then_guard (count_ok d.kind (length d.items)) _ _ counted (
                                        let (r', e', s') =
                                          read_items-Sees sha256 d.kind [] d.items _ [] t.typed
                                            (All-IsChecked d.kind d.items within t.hashed) fresh
                                            (rw append-nil s) in
                                        then_ok _ _ (d.items, r') e'
                                          (then_end _ _ _ s' (
                                            then_guard (has_item d.icon_item_id d.items) _ _ t.icon
                                              refl)))))))))

  -- A document that is encoded is read back as it was, if its fields have their Rust types and it meets
  -- what the decoder asks and the encoder does not: a title of at most 32 characters, items that name
  -- the hashes of their bytes, and an icon among the items.
  pub pack_doc-round_trip :
      (d : StickerPackDoc) (body : List ℕ)
      → IsSound d
      → body_bytes d ≡ ok body
      → decode_body sha256 body ≡ ok d
  pack_doc-round_trip d body t e = Ensures-ok (body_bytes-Ensures d t) body e
