-- ===== src/Wire/Sticker/Ctrl/RoundTrip.antt =====
-- Sticker control messages read back after they were written.
use s_chat6_core.Common.{
  ℕ, ◌%◌, ◌^◌, ◌≤◌, ◌<◌, ◌≡◌, refl, arith, List, [], ◌++◌, length, ltb, not, Option, none, some, ok,
  append_assoc, append-nil, then_ok, Ensures, gives, Ensures-bind, Ensures-guard, Ensures-ok,
}
use s_chat6_core.Wire.Bin.{Writer, Reader, new_writer, put_u8, put_u16be, put_lp, raw, finish}
use s_chat6_core.Wire.Bin.Laws.{Sees, Sees-new, remaining_lem, advance, take_bytes-append}
use s_chat6_core.Wire.Bin.Steps.{
  then_u8, then_u16be, then_take, then_lp, last_take, last_lp, then_end, then_guard,
}
use s_chat6_core.Wire.Sticker.{
  item_chunk_max, max_item_chunks, pack_chunk_max, max_pack_chunks, max_thumbs_chunks,
}
use s_chat6_core.Wire.Sticker.PackRef.{PackRef, pack_ref_len}
use s_chat6_core.Wire.Sticker.PackRef.RoundTrip.{
  IsSound, pack_bytes, encode_to-buf, length-pack_bytes, decode_from-pack_bytes,
}
use s_chat6_core.Wire.Sticker.Ctrl.{
  StickerCtrl, ack, want_item, item_body, want_pack, pack_body, pack_refused, want_thumbs,
  thumbs_body, check_chunk_plan, sha_len_ok, reason_ok, put_pack, encode_ctrl, ctrl_version, op_ack,
  op_want_item, op_item_body, op_want_pack, op_pack_body, op_pack_refused, op_want_thumbs,
  op_thumbs_body,
}
use s_chat6_core.Wire.Sticker.Ctrl.Decode.{
  decode_ctrl, decode_ack, decode_want_item, decode_item_body, decode_want, decode_pack_body,
  decode_pack_refused, decode_thumbs_body, read_pack,
}

abbrev IsSoundRef : Option PackRef → Type 0
IsSoundRef none = Unit {0}
IsSoundRef (some p) = IsSound p

-- The Rust types of the fields; a pack reference is one that the decoder accepts.
abbrev pub IsTyped : StickerCtrl → Type 0
IsTyped (ack sha) = length sha ≡ 32
IsTyped (want_item sha) = Unit {0}
IsTyped (item_body sha index count content pack) =
    (length sha ≡ 32) × (index < 2 ^ 16) × (count < 2 ^ 16) × IsSoundRef pack
IsTyped (want_pack id pk) = (length id ≡ 16) × (length pk ≡ 32)
IsTyped (pack_body id pk index count content) =
    (length id ≡ 16) × (length pk ≡ 32) × (index < 2 ^ 16) × (count < 2 ^ 16)
IsTyped (pack_refused id pk reason) = (length id ≡ 16) × (length pk ≡ 32)
IsTyped (want_thumbs id pk) = (length id ≡ 16) × (length pk ≡ 32)
IsTyped (thumbs_body id pk index count content) =
    (length id ≡ 16) × (length pk ≡ 32) × (index < 2 ^ 16) × (count < 2 ^ 16)

abbrev trailer : Option PackRef → List ℕ
trailer none = []
trailer (some p) = pack_bytes p

put_pack-buf : (o : Option PackRef) (w : Writer) → (put_pack o w).buf ≡ w.buf ++ trailer o
unfolding put_pack
put_pack-buf none w = rw append-nil
put_pack-buf (some p) w = encode_to-buf p w

read_pack-Sees :
    (o : Option PackRef) (r : Reader)
    → IsSoundRef o
    → Sees r (trailer o)
    → (r' : Reader) × (read_pack r ≡ ok (o, r')) × Sees r' []
unfolding read_pack
read_pack-Sees none r t s = (r, rw (remaining_lem r [] s) refl, s)
read_pack-Sees (some p) r t s =
    let n = length-pack_bytes p t in
    let (e, s') =
      take_bytes-append pack_ref_len "sticker_ctrl.item_body.pack" r (pack_bytes p) []
        (rw append-nil s) n in
    (
      advance pack_ref_len r,
      rw (remaining_lem r (pack_bytes p) s, n, e, decode_from-pack_bytes p t) refl,
      s',
    )

item_body-Ensures :
    (sha : List ℕ) (index count : ℕ) (content : List ℕ) (pack : Option PackRef)
    → IsTyped (item_body sha index count content pack)
    → Ensures
        (λ bytes. decode_ctrl bytes ≡ ok (item_body sha index count content pack))
        (encode_ctrl (item_body sha index count content pack))
unfolding encode_ctrl decode_ctrl decode_item_body put_u8 put_u16be put_lp raw finish new_writer
item_body-Ensures sha index count content pack t =
    Ensures-bind (check_chunk_plan index count max_item_chunks "sticker_ctrl.item_body") _
      λ u planned. Ensures-guard (not (ltb item_chunk_max (length content))) _ _ λ small.
        let n : length content ≤ item_chunk_max = ground (arith, small) in
        gives _ (
          rw (put_pack-buf pack) (
            simp append_assoc (
              then_u8 _ _ _ ctrl_version _ (Sees-new _) λ s. then_u8 _ _ _ op_item_body _ s λ s.
                then_take _ _ _ sha _ 32 t.0 s λ s. then_u16be _ _ _ index _ t.1 s λ s.
                  then_u16be _ _ _ count _ t.2 s λ s.
                    then_ok (check_chunk_plan index count max_item_chunks "sticker_ctrl.item_body")
                      _ tt planned
                      (then_lp _ _ _ content _ _ n (omega arith) s λ s.
                        let (r', e, s') = read_pack-Sees pack _ t.3 s in
                        then_ok _ _ (pack, r') e (then_end _ _ _ s' refl)))))

encode_ctrl-Ensures :
    (c : StickerCtrl) → IsTyped c → Ensures (λ bytes. decode_ctrl bytes ≡ ok c) (encode_ctrl c)
unfolding encode_ctrl decode_ctrl decode_ack decode_want_item decode_want decode_pack_body
    decode_pack_refused decode_thumbs_body put_u8 put_u16be put_lp raw finish new_writer
encode_ctrl-Ensures (ack sha) t = gives _ (
    simp append_assoc (
      then_u8 _ _ _ ctrl_version _ (Sees-new _)
        λ s. then_u8 _ _ _ op_ack _ s λ s. last_take _ _ _ sha 32 t s λ s. then_end _ _ _ s refl))
encode_ctrl-Ensures (want_item sha) t = Ensures-guard (sha_len_ok (length sha)) _ _ λ fits.
    let n : length sha % 2 ^ 8 ≡ length sha = ground (arith, fits) in
    gives _ (
      rw n (
        then_u8 _ _ _ ctrl_version _ (Sees-new _) λ s. then_u8 _ _ _ op_want_item _ s λ s.
          then_u8 _ _ _ (length sha) _ s λ s.
            then_guard (sha_len_ok (length sha)) _ _ fits
              (last_take _ _ _ sha (length sha) refl s λ s. then_end _ _ _ s refl)))
encode_ctrl-Ensures (item_body sha index count content pack) t =
    item_body-Ensures sha index count content pack t
encode_ctrl-Ensures (want_pack id pk) t = gives _ (
    simp append_assoc (
      then_u8 _ _ _ ctrl_version _ (Sees-new _) λ s. then_u8 _ _ _ op_want_pack _ s λ s.
        then_take _ _ _ id _ 16 t.0 s λ s. last_take _ _ _ pk 32 t.1 s λ s. then_end _ _ _ s refl))
encode_ctrl-Ensures (pack_body id pk index count content) t =
    Ensures-bind (check_chunk_plan index count max_pack_chunks "sticker_ctrl.pack_body") _
      λ u planned. Ensures-guard (not (ltb pack_chunk_max (length content))) _ _ λ small.
        let n : length content ≤ pack_chunk_max = ground (arith, small) in
        gives _ (
          simp append_assoc (
            then_u8 _ _ _ ctrl_version _ (Sees-new _) λ s. then_u8 _ _ _ op_pack_body _ s λ s.
              then_take _ _ _ id _ 16 t.0 s λ s. then_take _ _ _ pk _ 32 t.1 s λ s.
                then_u16be _ _ _ index _ t.2 s λ s. then_u16be _ _ _ count _ t.3 s λ s.
                  then_ok (check_chunk_plan index count max_pack_chunks "sticker_ctrl.pack_body") _
                    tt planned
                    (last_lp _ _ _ content _ n (omega arith) s λ s. then_end _ _ _ s refl)))
encode_ctrl-Ensures (pack_refused id pk reason) t = Ensures-guard (reason_ok reason) _ _ λ known.
    gives _ (
      simp append_assoc (
        then_u8 _ _ _ ctrl_version _ (Sees-new _) λ s. then_u8 _ _ _ op_pack_refused _ s λ s.
          then_take _ _ _ id _ 16 t.0 s λ s. then_take _ _ _ pk _ 32 t.1 s λ s.
            then_u8 _ _ _ reason _ s
              λ s. then_end _ _ _ s (then_guard (reason_ok reason) _ _ known refl)))
encode_ctrl-Ensures (want_thumbs id pk) t = gives _ (
    simp append_assoc (
      then_u8 _ _ _ ctrl_version _ (Sees-new _) λ s. then_u8 _ _ _ op_want_thumbs _ s λ s.
        then_take _ _ _ id _ 16 t.0 s λ s. last_take _ _ _ pk 32 t.1 s λ s. then_end _ _ _ s refl))
encode_ctrl-Ensures (thumbs_body id pk index count content) t =
    Ensures-bind (check_chunk_plan index count max_thumbs_chunks "sticker_ctrl.thumbs_body") _
      λ u planned. Ensures-guard (not (ltb pack_chunk_max (length content))) _ _ λ small.
        let n : length content ≤ pack_chunk_max = ground (arith, small) in
        gives _ (
          simp append_assoc (
            then_u8 _ _ _ ctrl_version _ (Sees-new _) λ s. then_u8 _ _ _ op_thumbs_body _ s λ s.
              then_take _ _ _ id _ 16 t.0 s λ s. then_take _ _ _ pk _ 32 t.1 s λ s.
                then_u16be _ _ _ index _ t.2 s λ s. then_u16be _ _ _ count _ t.3 s λ s.
                  then_ok
                    (check_chunk_plan index count max_thumbs_chunks "sticker_ctrl.thumbs_body") _ tt
                    planned (last_lp _ _ _ content _ n (omega arith) s λ s. then_end _ _ _ s refl)))

-- A sticker control message of any of the eight operations that is encoded, its fields of their Rust
-- types and its pack reference, if it has one, of known kind and visibility and allowed aspect, is read
-- back as it was.
pub ctrl-round_trip :
    (c : StickerCtrl) (bytes : List ℕ)
    → IsTyped c
    → encode_ctrl c ≡ ok bytes
    → decode_ctrl bytes ≡ ok c
ctrl-round_trip c bytes t e = Ensures-ok (encode_ctrl-Ensures c t) bytes e
