-- ===== src/Wire/Attach/Chunked.antt =====
-- Chunked heads read back after they were written.
use s_chat6_core.Common.{
  ℕ, ◌+◌, ◌%◌, ◌^◌, ◌≤◌, ◌<◌, ◌≡◌, refl, ap, arith, String, List, ◌∷◌, ◌++◌, length, length-drop,
  true, ok, append_assoc, then_ok, Ensures, gives, Ensures-bind, Ensures-ok,
}
use s_chat6_core.Common.Bytes.{to_be_bytes}
use s_chat6_core.Common.Utf8.{is_utf8, all_ascii}
use s_chat6_core.Wire.Bin.{
  Writer, Reader, new_writer, new_reader, put_u8, put_u16be, put_u32be, put_lp, raw, finish,
}
use s_chat6_core.Wire.Bin.Laws.{Sees, Sees-new, advance, lp-Sees}
use s_chat6_core.Wire.Bin.Steps.{then_u8, then_u16be, then_u32be, then_take}
use s_chat6_core.Wire.Attach.Head.{
  AttachHead, validate_common, check_plan, plan_ok, encode_caption_tail, put_tail, encode_chunked,
  max_mime, max_ext, max_caption, size_ok, head_version,
}
use s_chat6_core.Wire.Attach.Decode.{read_ascii, decode_caption_tail, decode_chunked}
use s_chat6_core.Wire.Attach.Tail.{tail, put_tail-buf, decode_tail-Sees}

-- The Rust types of the fields, and what the decoder asks of the strings: the encoder does not ask that the
-- hint and the extension are ASCII.
pub record IsSound (p : AttachHead) : Type 0 where
  pub mime_ascii : all_ascii p.mime_hint ≡ true
  pub ext_ascii : all_ascii p.orig_ext ≡ true
  pub caption_valid : is_utf8 p.caption ≡ true
  pub n_u32 : p.uncompressed_n < 2 ^ 32
  pub sha_32 : length p.content_sha256 ≡ 32

pub validated :
    (p : AttachHead)
    → validate_common p ≡ ok tt
    → (length p.mime_hint ≤ max_mime)
      × (length p.orig_ext ≤ max_ext)
      × (size_ok p.uncompressed_n ≡ true)
      × (length p.caption ≤ max_caption)
unfolding validate_common
validated p v = ground (arith, v)

planned :
    (p : AttachHead) → check_plan p ≡ ok tt → (p.chunk_count < 2 ^ 16) × (p.chunk_bucket < 2 ^ 16)
unfolding check_plan plan_ok
planned p v = ground (arith, v)

pub read_ascii-Sees :
    (max : ℕ) (at : String) (c ys : List ℕ) (r : Reader)
    → length c ≤ max
    → length c < 2 ^ 32
    → all_ascii c ≡ true
    → Sees r (to_be_bytes 4 (length c % 2 ^ 32) ++ (c ++ ys))
    → (read_ascii max at r ≡ ok (c, advance (length c) (advance 4 r)))
      × Sees (advance (length c) (advance 4 r)) ys
unfolding read_ascii
read_ascii-Sees max at c ys r h small ascii s =
    let fits : length c % 2 ^ 32 ≡ length c = omega (arith, small) in
    let (e, s') = lp-Sees max at r c ys (rw fits at s) h small in (rw (e, ascii) refl, s')

Sees-total : (r : Reader) (bs : List ℕ) → Sees r bs → length r.buf ≡ r.pos + length bs
Sees-total r bs s =
    omega (arith, s.inside, length-drop {0} r.pos r.buf, ap (λ (t : List ℕ). length t) s.ahead)

pub tail_written :
    (c : List ℕ) (f : ℕ) (w w' : Writer)
    → length c ≤ max_caption
    → encode_caption_tail c f w ≡ ok w'
    → w'.buf ≡ w.buf ++ tail c f
unfolding encode_caption_tail
tail_written c f w w' h e =
    let same : put_tail c f w ≡ w' = ground (arith, e) in rw (← same) (put_tail-buf c f w h)

-- The bytes of a chunked head.
abbrev layout : AttachHead → List ℕ
layout p =
    head_version
    ∷ p.class
    ∷ (to_be_bytes 4 (length p.mime_hint % 2 ^ 32)
        ++ (p.mime_hint
            ++ (to_be_bytes 4 (length p.orig_ext % 2 ^ 32)
                ++ (p.orig_ext
                    ++ (to_be_bytes 4 p.uncompressed_n
                        ++ (to_be_bytes 2 p.chunk_count
                            ++ (to_be_bytes 2 p.chunk_bucket
                                ++ (p.content_sha256 ++ tail p.caption p.flags))))))))

decode_chunked-layout :
    (p : AttachHead)
    → IsSound p
    → validate_common p ≡ ok tt
    → check_plan p ≡ ok tt
    → decode_chunked (layout p) ≡ ok p
unfolding decode_chunked new_reader
decode_chunked-layout p t v plan =
    let (mime, ext, size, cap) = validated p v in
    let (count, bucket) = planned p plan in
    then_u8 _ _ _ head_version _ (Sees-new (layout p)) λ s. then_u8 _ _ _ p.class _ s λ s.
      let (e1, s1) =
        read_ascii-Sees max_mime "attach_head.mime" p.mime_hint _ _ mime (omega (arith, mime))
          t.mime_ascii s in
      then_ok (read_ascii max_mime "attach_head.mime" _) _ _ e1 (
        let (e2, s2) =
          read_ascii-Sees max_ext "attach_head.ext" p.orig_ext _ _ ext (omega (arith, ext))
            t.ext_ascii s1 in
        then_ok (read_ascii max_ext "attach_head.ext" _) _ _ e2 (
          then_u32be _ _ _ p.uncompressed_n _ t.n_u32 s2 λ s.
            then_u16be _ _ _ p.chunk_count _ count s λ s.
              then_u16be _ _ _ p.chunk_bucket _ bucket s λ s.
                then_take _ _ _ p.content_sha256 _ 32 t.sha_32 s λ s.
                  then_ok (decode_caption_tail _ _) _ _
                    (decode_tail-Sees p.caption p.flags _ (length (layout p)) t.caption_valid cap
                      (Sees-total _ _ s) s)
                    (then_ok (validate_common p) _ tt v (then_ok (check_plan p) _ tt plan refl))))

chunked-Ensures :
    (p : AttachHead) → IsSound p → Ensures (λ bytes. decode_chunked bytes ≡ ok p) (encode_chunked p)
unfolding encode_chunked put_u8 put_u16be put_u32be put_lp raw new_writer finish to_be_bytes
chunked-Ensures p t = Ensures-bind (validate_common p) _ λ u v.
    Ensures-bind (check_plan p) _ λ u' plan.
      Ensures-bind (encode_caption_tail p.caption p.flags _) _ λ w e.
        let (mime, ext, size, cap) = validated p v in
        gives w.buf (
          rw (tail_written p.caption p.flags _ w cap e)
            (simp append_assoc (decode_chunked-layout p t v plan)))

-- A chunked head that is encoded is read back as it was, with no file.
pub chunked_head-round_trip :
    (p : AttachHead) (bytes : List ℕ)
    → IsSound p
    → encode_chunked p ≡ ok bytes
    → decode_chunked bytes ≡ ok p
chunked_head-round_trip p bytes t e = Ensures-ok (chunked-Ensures p t) bytes e
