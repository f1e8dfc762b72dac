-- ===== src/Wire/Sticker/Item/RoundTrip.antt =====
-- Sticker items read back after they were written, and what the decoder lets through.
use s_chat6_core.Common.{
  ℕ, ◌%◌, ◌^◌, ◌≤◌, ◌<◌, ◌≡◌, refl, arith, List, [], ◌∷◌, ◌++◌, length, true, Option, none, some,
  ok, append_assoc, then_ok, Ensures, gives, Ensures-bind, Ensures-ok,
}
use s_chat6_core.Common.Bytes.{to_be_bytes}
use s_chat6_core.Wire.Bin.{Writer, Reader, new_writer, put_u8, put_u16be, put_lp, raw, finish}
use s_chat6_core.Wire.Bin.Laws.{Sees, Sees-new}
use s_chat6_core.Wire.Bin.Steps.{then_u8, then_u16be, then_take, last_lp, then_end, then_guard}
use s_chat6_core.Wire.Sticker.{max_bytes, max_bytes_sticker}
use s_chat6_core.Wire.Sticker.Item.{
  StickerItem, validate, check_kind, check_dims, check_inline, inline_ok, put_inline, read_inline,
  encode_item, decode_item, item_version,
}

-- The Rust types of the fields.
pub record IsTyped (p : StickerItem) : Type 0 where
  pub id_16 : length p.pack_id ≡ 16
  pub pk_32 : length p.pack_pk ≡ 32
  pub item_u16 : p.item_id < 2 ^ 16
  pub w_u16 : p.w < 2 ^ 16
  pub h_u16 : p.h < 2 ^ 16
  pub sha_32 : length p.content_sha256 ≡ 32

abbrev flag : Option (List ℕ) → ℕ
flag none = 0
flag (some b) = 1

abbrev tail : Option (List ℕ) → List ℕ
tail none = []
tail (some b) = to_be_bytes 4 (length b % 2 ^ 32) ++ b

put_inline-buf :
    (o : Option (List ℕ)) (w : Writer) → (put_inline o w).buf ≡ w.buf ++ (flag o ∷ tail o)
unfolding put_inline put_u8 put_lp raw
put_inline-buf none w = refl
put_inline-buf (some b) w = simp append_assoc

max_bytes-le : (kind : ℕ) → max_bytes kind ≤ max_bytes_sticker
unfolding max_bytes
max_bytes-le kind = ground arith

inline_ok-small : (kind : ℕ) (b : List ℕ) → inline_ok kind b ≡ true → length b ≤ max_bytes kind
unfolding inline_ok
inline_ok-small kind b h = ground (arith, h)

read_inline-Sees :
    (kind : ℕ) (o : Option (List ℕ)) (r : Reader)
    → check_inline kind o ≡ ok tt
    → Sees r (tail o)
    → read_inline kind (flag o) r ≡ ok o
unfolding read_inline check_inline
read_inline-Sees kind none r v s = then_end _ _ _ s refl
read_inline-Sees kind (some b) r v s =
    let fits : inline_ok kind b ≡ true = ground (arith, v) in
    let n : length b ≤ max_bytes_sticker =
      omega (arith, inline_ok-small kind b fits, max_bytes-le kind) in
    last_lp _ _ _ b _ n (omega arith) s
      λ s. then_end _ _ _ s (then_guard (inline_ok kind b) _ _ fits refl)

validate_inv :
    (p : StickerItem)
    → validate p ≡ ok tt
    → (check_kind p.kind p.visibility ≡ ok tt)
      × (check_dims p.kind p.w p.h ≡ ok tt)
      × (check_inline p.kind p.bytes ≡ ok tt)
unfolding validate
validate_inv p v = ground (arith, v)

encode_item-Ensures :
    (p : StickerItem) → IsTyped p → Ensures (λ bytes. decode_item bytes ≡ ok p) (encode_item p)
unfolding encode_item decode_item put_u8 put_u16be raw finish new_writer
encode_item-Ensures p t = Ensures-bind (validate p) _ λ u v.
    let (kind_ok, dims_ok, inline_fits) = validate_inv p v in
    gives _ (
      rw (put_inline-buf p.bytes) (
        simp append_assoc (
          then_u8 _ _ _ item_version _ (Sees-new _) λ s. then_u8 _ _ _ p.kind _ s λ s.
            then_u8 _ _ _ p.visibility _ s λ s.
              then_ok (check_kind p.kind p.visibility) _ tt kind_ok (
                then_take _ _ _ p.pack_id _ 16 t.id_16 s λ s.
                  then_take _ _ _ p.pack_pk _ 32 t.pk_32 s λ s.
                    then_u16be _ _ _ p.item_id _ t.item_u16 s λ s.
                      then_u16be _ _ _ p.w _ t.w_u16 s λ s. then_u16be _ _ _ p.h _ t.h_u16 s λ s.
                        then_ok (check_dims p.kind p.w p.h) _ tt dims_ok (
                          then_take _ _ _ p.content_sha256 _ 32 t.sha_32 s λ s.
                            then_u8 _ _ _ (flag p.bytes) _ s λ s.
                              then_ok _ _ p.bytes (read_inline-Sees p.kind p.bytes _ inline_fits s)
                                refl)))))

-- A sticker item that is encoded, its fields of their Rust types, is read back as it was, with
-- its inline bytes or with none.
pub item-round_trip :
    (p : StickerItem) (bytes : List ℕ)
    → IsTyped p
    → encode_item p ≡ ok bytes
    → decode_item bytes ≡ ok p
item-round_trip p bytes t e = Ensures-ok (encode_item-Ensures p t) bytes e

-- Whatever bytes the decoder accepts, the item passes the encoder's validation: its kind and its
-- visibility are known, its dimensions are within the aspect and the edge of the kind, and its inline
-- bytes, if it has any, are not empty and within the cap of the kind.
decode_item-validated :
    (bytes : List ℕ) (p : StickerItem) → decode_item bytes ≡ ok p → validate p ≡ ok tt
unfolding decode_item validate
decode_item-validated bytes p e = ground (arith, e)
