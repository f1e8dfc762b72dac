-- ===== src/Wire/Sticker/Ctrl/Trailer.antt =====
-- A chunk of an item with a trailer that is no pack reference.
use s_chat6_core.Common.{
  ℕ, ◌%◌, ◌^◌, ◌≤◌, ◌<◌, ◌≡◌, refl, arith, List, [], ◌∷◌, ◌++◌, length, true, none, ok, err,
  append-nil, then_ok,
}
use s_chat6_core.Common.Bytes.{to_be_bytes}
use s_chat6_core.Wire.Error.{WireError}
use s_chat6_core.Wire.Bin.{Reader, new_reader}
use s_chat6_core.Wire.Bin.Laws.{Sees, Sees-new, remaining_lem, advance, take_bytes-append}
use s_chat6_core.Wire.Bin.Steps.{then_u8, then_u16be, then_take, then_lp, then_end, then_guard}
use s_chat6_core.Wire.Sticker.{item_chunk_max, max_item_chunks}
use s_chat6_core.Wire.Sticker.PackRef.{pack_ref_len, decode_from}
use s_chat6_core.Wire.Sticker.Ctrl.{
  item_body, plan_ok, check_chunk_plan, ctrl_version, op_item_body,
}
use s_chat6_core.Wire.Sticker.Ctrl.Decode.{decode_ctrl, decode_item_body, read_pack}

read_pack-junk :
    (junk : List ℕ) (r : Reader) (why : WireError)
    → length junk ≡ pack_ref_len
    → decode_from (new_reader junk) ≡ err why
    → Sees r junk
    → (r' : Reader) × (read_pack r ≡ ok (none, r')) × Sees r' []
unfolding read_pack
read_pack-junk junk r why len bad s =
    let (e, s') =
      take_bytes-append pack_ref_len "sticker_ctrl.item_body.pack" r junk [] (rw append-nil s)
        len in
    (advance pack_ref_len r, rw (remaining_lem r junk s, len, e, bad) refl, s')

-- A chunk of an item is kept when the 56 bytes behind it are no pack reference that the decoder
-- accepts: it is read with its bytes as they were, and without a pack.
pub bad_trailer-dropped :
    (sha : List ℕ) (index count : ℕ) (content junk : List ℕ) (why : WireError)
    → length sha ≡ 32
    → index < 2 ^ 16
    → count < 2 ^ 16
    → plan_ok index count max_item_chunks ≡ true
    → length content ≤ item_chunk_max
    → length junk ≡ pack_ref_len
    → decode_from (new_reader junk) ≡ err why
    → decode_ctrl (
        ctrl_version
        ∷ op_item_body
        ∷ (sha
            ++ (to_be_bytes 2 index
                ++ (to_be_bytes 2 count
                    ++ (to_be_bytes 4 (length content % 2 ^ 32) ++ (content ++ junk))))))
      ≡ ok (item_body sha index count content none)
unfolding decode_ctrl decode_item_body check_chunk_plan
bad_trailer-dropped sha index count content junk why sha_32 i c planned n len bad =
    then_u8 _ _ _ ctrl_version _ (Sees-new _) λ s. then_u8 _ _ _ op_item_body _ s λ s.
      then_take _ _ _ sha _ 32 sha_32 s λ s. then_u16be _ _ _ index _ i s λ s.
        then_u16be _ _ _ count _ c s λ s.
          then_guard (plan_ok index count max_item_chunks) _ _ planned (
            then_lp _ _ _ content _ _ n (omega arith) s λ s.
              let (r', e, s') = read_pack-junk junk _ why len bad s in
              then_ok _ _ (none, r') e (then_end _ _ _ s' refl))
