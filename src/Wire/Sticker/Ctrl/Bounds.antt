-- ===== src/Wire/Sticker/Ctrl/Bounds.antt =====
-- What the decoder of sticker control messages lets through.
use s_chat6_core.Common.{
  ℕ, ◌≤◌, ◌<◌, ◌≡◌, arith, List, length, true, Option, none, some, ok, Ensures, gives, fails,
  String, ◌==◌, Ensures-bind, Ensures-guard, Ensures-ok,
}
use s_chat6_core.Wire.Bin.{Reader}
use s_chat6_core.Wire.Bin.Accepts.{
  Ensures-if, Ensures-end, Ensures-u8, Ensures-u16be, Ensures-take, Ensures-lp,
}
use s_chat6_core.Wire.Sticker.{
  valid_kind, valid_visibility, aspect_ok, item_chunk_max, max_item_chunks, pack_chunk_max,
  max_pack_chunks, max_thumbs_chunks,
}
use s_chat6_core.Wire.Sticker.PackRef.{PackRef, decode_from}
use s_chat6_core.Wire.Sticker.Ctrl.{
  StickerCtrl, ack, want_item, item_body, want_pack, pack_body, pack_refused, want_thumbs,
  thumbs_body, check_chunk_plan, plan_ok, sha_len_ok, reason_ok, ctrl_version, op_ack, op_want_item,
  op_item_body, op_want_pack, op_pack_body, op_pack_refused, op_want_thumbs, op_thumbs_body,
}
use s_chat6_core.Wire.Sticker.Ctrl.Decode.{
  decode_ctrl, decode_op, decode_ack, decode_want_item, decode_item_body, decode_want,
  decode_pack_body, decode_pack_refused, decode_thumbs_body, read_pack,
}

abbrev IsKnownRef : Option PackRef → Type 0
IsKnownRef none = Unit {0}
IsKnownRef (some p) =
    (valid_kind p.kind ≡ true)
    × (valid_visibility p.visibility ≡ true)
    × (aspect_ok p.kind p.w p.h ≡ true)

-- A chunk is one of at most `max`, and carries at most `cap` bytes.
abbrev IsChunk : ℕ → ℕ → ℕ → ℕ → List ℕ → Type 0
IsChunk max cap index count content = (index < count) × (count ≤ max) × (length content ≤ cap)

abbrev pub IsBounded : StickerCtrl → Type 0
IsBounded (ack sha) = length sha ≡ 32
IsBounded (want_item sha) = (4 ≤ length sha) × (length sha ≤ 32)
IsBounded (item_body sha index count content pack) =
    (length sha ≡ 32) × IsChunk max_item_chunks item_chunk_max index count content × IsKnownRef pack
IsBounded (want_pack id pk) = (length id ≡ 16) × (length pk ≡ 32)
IsBounded (pack_body id pk index count content) =
    (length id ≡ 16) × (length pk ≡ 32) × IsChunk max_pack_chunks pack_chunk_max index count content
IsBounded (pack_refused id pk reason) =
    (length id ≡ 16) × (length pk ≡ 32) × (1 ≤ reason) × (reason ≤ 3)
IsBounded (want_thumbs id pk) = (length id ≡ 16) × (length pk ≡ 32)
IsBounded (thumbs_body id pk index count content) =
    (length id ≡ 16)
    × (length pk ≡ 32)
    × IsChunk max_thumbs_chunks pack_chunk_max index count content

read_pack-known : (r r' : Reader) (o : Option PackRef) → read_pack r ≡ ok (o, r') → IsKnownRef o
unfolding read_pack decode_from
read_pack-known r r' none e = tt
read_pack-known r r' (some p) e = ground (arith, e)

planned-bounds :
    (index count max : ℕ) → plan_ok index count max ≡ true → (index < count) × (count ≤ max)
unfolding plan_ok
planned-bounds index count max h = ground (arith, h)

decode_item_body-Ensures : (r : Reader) → Ensures IsBounded (decode_item_body r)
unfolding decode_item_body check_chunk_plan
decode_item_body-Ensures r = Ensures-take _ _ _ _ λ sha r sha_32. Ensures-u16be _ _ _ λ index r.
    Ensures-u16be _ _ _ λ count r.
      Ensures-guard (plan_ok index count max_item_chunks) _ _ λ planned.
        Ensures-lp _ _ _ _ λ content r small. Ensures-bind (read_pack r) _ λ (pack, r') e.
          Ensures-end _ _ _ (
            let (below, most) = planned-bounds index count max_item_chunks planned in
            gives (item_body sha index count content pack)
              (sha_32, (below, most, small), read_pack-known r r' pack e))

decode_pack_body-Ensures : (r : Reader) → Ensures IsBounded (decode_pack_body r)
unfolding decode_pack_body check_chunk_plan
decode_pack_body-Ensures r = Ensures-take _ _ _ _ λ id r id_16. Ensures-take _ _ _ _ λ pk r pk_32.
    Ensures-u16be _ _ _ λ index r. Ensures-u16be _ _ _ λ count r.
      Ensures-guard (plan_ok index count max_pack_chunks) _ _ λ planned.
        Ensures-lp _ _ _ _ λ content r small. Ensures-end _ _ _ (
          let (below, most) = planned-bounds index count max_pack_chunks planned in
          gives (pack_body id pk index count content) (id_16, pk_32, (below, most, small)))

decode_thumbs_body-Ensures : (r : Reader) → Ensures IsBounded (decode_thumbs_body r)
unfolding decode_thumbs_body check_chunk_plan
decode_thumbs_body-Ensures r = Ensures-take _ _ _ _ λ id r id_16. Ensures-take _ _ _ _ λ pk r pk_32.
    Ensures-u16be _ _ _ λ index r. Ensures-u16be _ _ _ λ count r.
      Ensures-guard (plan_ok index count max_thumbs_chunks) _ _ λ planned.
        Ensures-lp _ _ _ _ λ content r small. Ensures-end _ _ _ (
          let (below, most) = planned-bounds index count max_thumbs_chunks planned in
          gives (thumbs_body id pk index count content) (id_16, pk_32, (below, most, small)))

decode_ack-Ensures : (r : Reader) → Ensures IsBounded (decode_ack r)
unfolding decode_ack
decode_ack-Ensures r =
    Ensures-take _ _ _ _ λ sha r sha_32. Ensures-end _ _ _ (gives (ack sha) sha_32)

sha_len_ok-range : (n : ℕ) → sha_len_ok n ≡ true → (4 ≤ n) × (n ≤ 32)
unfolding sha_len_ok
sha_len_ok-range n h = ground (arith, h)

decode_want_item-Ensures : (r : Reader) → Ensures IsBounded (decode_want_item r)
unfolding decode_want_item
decode_want_item-Ensures r = Ensures-u8 _ _ _ λ n r. Ensures-guard (sha_len_ok n) _ _ λ fits.
    Ensures-take _ _ _ _
      λ sha r long. Ensures-end _ _ _ (gives (want_item sha) (rw long (sha_len_ok-range n fits)))

reason_ok-range : (n : ℕ) → reason_ok n ≡ true → (1 ≤ n) × (n ≤ 3)
unfolding reason_ok
reason_ok-range n h = ground (arith, h)

decode_pack_refused-Ensures : (r : Reader) → Ensures IsBounded (decode_pack_refused r)
unfolding decode_pack_refused
decode_pack_refused-Ensures r = Ensures-take _ _ _ _ λ id r id_16.
    Ensures-take _ _ _ _ λ pk r pk_32. Ensures-u8 _ _ _ λ reason r. Ensures-end _ _ _ (
      Ensures-guard (reason_ok reason) _ _ λ known.
        let (low, high) = reason_ok-range reason known in
        gives (pack_refused id pk reason) (id_16, pk_32, low, high))

-- The two arms with nothing but the ids of a pack.
decode_want-Ensures :
    (id pk : String) (make : List ℕ → List ℕ → StickerCtrl) (r : Reader)
    → ((a b : List ℕ) → length a ≡ 16 → length b ≡ 32 → IsBounded (make a b))
    → Ensures IsBounded (decode_want id pk make r)
unfolding decode_want
decode_want-Ensures id pk make r bounded =
    Ensures-take _ _ _ _
      λ a r p. Ensures-take _ _ _ _ λ b r q. Ensures-end _ _ _ (gives (make a b) (bounded a b p q))

decode_op-Ensures : (op : ℕ) (r : Reader) → Ensures IsBounded (decode_op op r)
unfolding decode_op
decode_op-Ensures op r = Ensures-if (op == op_ack) _ _ (decode_ack-Ensures r) (
    Ensures-if (op == op_want_item) _ _ (decode_want_item-Ensures r) (
      Ensures-if (op == op_item_body) _ _ (decode_item_body-Ensures r) (
        Ensures-if (op == op_want_pack) _ _
          (decode_want-Ensures _ _ want_pack r (λ a b p q. (p, q)))
          (Ensures-if (op == op_pack_body) _ _ (decode_pack_body-Ensures r) (
            Ensures-if (op == op_pack_refused) _ _ (decode_pack_refused-Ensures r) (
              Ensures-if (op == op_want_thumbs) _ _
                (decode_want-Ensures _ _ want_thumbs r (λ a b p q. (p, q)))
                (Ensures-if (op == op_thumbs_body) _ _ (decode_thumbs_body-Ensures r)
                  (fails _))))))))

decode_ctrl-Ensures : (bytes : List ℕ) → Ensures IsBounded (decode_ctrl bytes)
unfolding decode_ctrl
decode_ctrl-Ensures bytes = Ensures-u8 _ _ _ λ version r.
    Ensures-guard (version == ctrl_version) _ _
      λ known. Ensures-u8 _ _ _ λ op r. decode_op-Ensures op r

-- Whatever bytes the decoder accepts, the message is within its bounds: hashes and ids have their
-- lengths, a prefix of a hash has 4 to 32 bytes, a chunk is one of at most 24, or of 1280 for a pack,
-- and carries at most 27500 bytes, a refusal gives one of the three reasons, and a pack reference is of
-- known kind and visibility and allowed aspect.
pub decode_ctrl-IsBounded :
    (bytes : List ℕ) (c : StickerCtrl) → decode_ctrl bytes ≡ ok c → IsBounded c
decode_ctrl-IsBounded bytes c e = Ensures-ok (decode_ctrl-Ensures bytes) c e
