-- ===== src/Wire/Sticker/PackRef/RoundTrip.antt =====
-- Pack references read back after they were written.
use s_chat6_core.Common.{
  ℕ, ◌^◌, ◌<◌, ◌≡◌, refl, arith, List, [], ◌∷◌, ◌++◌, length, length-append, true, ◌&&◌, ok,
  append_assoc, append-nil,
}
use s_chat6_core.Common.Bytes.{to_be_bytes, length-to_be_bytes}
use s_chat6_core.Wire.Bin.{Writer, put_u8, put_u16be, raw, new_reader}
use s_chat6_core.Wire.Bin.Laws.{Sees-new}
use s_chat6_core.Wire.Bin.Steps.{then_u8, then_u16be, then_take, then_guard}
use s_chat6_core.Wire.Sticker.{valid_kind, valid_visibility, aspect_ok}
use s_chat6_core.Wire.Sticker.PackRef.{PackRef, pack_ref_len, encode_to, decode_from}

-- A pack reference as the decoder asks it to be, its fields of their Rust types. The encoder does not
-- ask it.
pub record IsSound (p : PackRef) : Type 0 where
  pub id_16 : length p.pack_id ≡ 16
  pub pk_32 : length p.pack_pk ≡ 32
  pub known : (valid_kind p.kind && valid_visibility p.visibility) ≡ true
  pub item_u16 : p.item_id < 2 ^ 16
  pub w_u16 : p.w < 2 ^ 16
  pub h_u16 : p.h < 2 ^ 16
  pub aspect : aspect_ok p.kind p.w p.h ≡ true

unfoldable pub pack_bytes : PackRef → List ℕ
pack_bytes p =
    p.pack_id
    ++ (p.pack_pk
        ++ (p.kind
            ∷ p.visibility
            ∷ (to_be_bytes 2 p.item_id ++ (to_be_bytes 2 p.w ++ to_be_bytes 2 p.h))))

pub encode_to-buf : (p : PackRef) (w : Writer) → (encode_to p w).buf ≡ w.buf ++ pack_bytes p
unfolding encode_to put_u8 put_u16be raw pack_bytes
encode_to-buf p w = simp append_assoc

pub length-pack_bytes : (p : PackRef) → IsSound p → length (pack_bytes p) ≡ pack_ref_len
unfolding pack_bytes
length-pack_bytes p t = simp length-append (
    omega (
      arith,
      t.id_16,
      t.pk_32,
      length-to_be_bytes 2 p.item_id,
      length-to_be_bytes 2 p.w,
      length-to_be_bytes 2 p.h,
    ))

pub decode_from-pack_bytes :
    (p : PackRef) → IsSound p → decode_from (new_reader (pack_bytes p)) ≡ ok p
unfolding decode_from pack_bytes
decode_from-pack_bytes p t = then_take _ _ _ p.pack_id _ 16 t.id_16 (Sees-new _) λ s.
    then_take _ _ _ p.pack_pk _ 32 t.pk_32 s λ s. then_u8 _ _ _ p.kind _ s λ s.
      then_u8 _ _ _ p.visibility _ s λ s.
        then_guard (valid_kind p.kind && valid_visibility p.visibility) _ _ t.known (
          then_u16be _ _ _ p.item_id _ t.item_u16 s λ s. then_u16be _ _ _ p.w _ t.w_u16 s λ s.
            then_u16be _ _ _ p.h [] t.h_u16 (rw append-nil s)
              λ s. then_guard (aspect_ok p.kind p.w p.h) _ _ t.aspect refl)
