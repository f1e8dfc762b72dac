-- ===== src/Wire/Attach/Inline.antt =====
-- Heads with the file inline read back after they were written.
use s_chat6_core.Common.{
  ℕ, zero, suc, ◌+◌, ◌%◌, ◌^◌, ◌≤◌, ◌<◌, ◌≡◌, refl, sym, ◌∙◌, arith, String, List, [], ◌∷◌, ◌++◌,
  length, length-append, take, take-append, ◌==◌, true, false, ◌&&◌, ok, some, append_assoc,
  append-nil, le→ltb, then_ok, Ensures, gives, Ensures-bind, Ensures-guard, Ensures-ok,
}
use s_chat6_core.Common.Bytes.{to_be_bytes, from_be_bytes, length-to_be_bytes, from_be-to_be}
use s_chat6_core.Common.Utf8.{is_utf8}
use s_chat6_core.Wire.Bin.{
  Reader, new_reader, new_writer, put_u8, put_u32be, put_lp, raw, finish, peek_u32be, remaining,
}
use s_chat6_core.Wire.Bin.Laws.{Sees, Sees-new, advance, remaining_lem}
use s_chat6_core.Wire.Bin.Steps.{then_u8, then_u32be, then_take, last_take, then_guard}
use s_chat6_core.Wire.Attach.Head.{
  AttachHead, validate_common, encode_caption_tail, encode_inline, max_mime, max_ext, max_caption,
  version_inline,
}
use s_chat6_core.Wire.Attach.Decode.{
  read_ascii, take_file, read_flagged, read_captioned, read_file, decode_inline,
}
use s_chat6_core.Wire.Attach.Tail.{
  tail, lp_bytes, length-lp, tail-suc, caption_utf8_lem, read_caption-Sees,
}
use s_chat6_core.Wire.Attach.Chunked.{IsSound, validated, read_ascii-Sees, tail_written}

peek-Sees :
    (at : String) (r : Reader) (bs : List ℕ)
    → Sees r bs
    → 4 ≤ length bs
    → peek_u32be at r ≡ ok (from_be_bytes (take 4 bs))
unfolding peek_u32be
peek-Sees at r bs s h = rw (remaining_lem r bs s, le→ltb (length bs) 4 h, s.ahead)

peek-written :
    (at : String) (r : Reader) (v : ℕ) (ys : List ℕ)
    → v < 2 ^ 32
    → Sees r (to_be_bytes 4 v ++ ys)
    → peek_u32be at r ≡ ok v
peek-written at r v ys h s =
    peek-Sees at r (to_be_bytes 4 v ++ ys) s
      (omega (arith, length-append {0} (to_be_bytes 4 v) ys, length-to_be_bytes 4 v))
    ∙ rw (take-append 4 (to_be_bytes 4 v) ys (length-to_be_bytes 4 v), from_be-to_be 4 v h)

-- The test after a peek.
rest_fits : (v n rest : ℕ) → v ≡ n → rest ≡ 4 + n → (v == n && rest == 4 + v) ≡ true
rest_fits v n rest h e = ground arith

rest_exceeds : (v n rest : ℕ) → (v ≡ n → 4 + v < rest) → (v == n && rest == 4 + v) ≡ false
rest_exceeds v n rest h = ground (arith, h)

module _ (n : ℕ) (file : List ℕ) (full : length file ≡ n) (n_u32 : n < 2 ^ 32) where
  abbrev file_bytes : List ℕ
  file_bytes = to_be_bytes 4 n ++ file

  length-file : length file_bytes ≡ 4 + n
  length-file =
      omega (arith, length-append {0} (to_be_bytes 4 n) file, length-to_be_bytes 4 n, full)

  take_file-Sees : (r : Reader) → Sees r file_bytes → take_file n r ≡ ok file
  unfolding take_file
  take_file-Sees r s = then_u32be _ _ _ n _ n_u32 s λ s. last_take _ _ _ file n full s λ s. refl

  read_flagged-Sees :
      (r : Reader) (f : ℕ) → Sees r (f ∷ file_bytes) → read_flagged n r ≡ ok (f, file)
  unfolding read_flagged
  read_flagged-Sees r f s = then_u8 _ _ _ f _ s λ s. then_u32be _ _ _ n _ n_u32 s λ s.
      then_guard (n == n && remaining _ == n) _ _ (rw (remaining_lem _ _ s, full) (ground arith))
        (last_take _ _ _ file n full s λ s. refl)

  plain_file : (r : Reader) → Sees r file_bytes → read_file n r ≡ ok ([], 0, file)
  unfolding read_file
  plain_file r s = rw (
    peek-written "attach_head.inline" r n file n_u32 s,
    rest_fits n n (remaining r) refl (remaining_lem r _ s ∙ length-file),
    take_file-Sees r s,
  )

  module _ (c : List ℕ) (valid : is_utf8 c ≡ true) (h : length c ≤ max_caption) where
    captioned_plain :
        (r : Reader) → Sees r (lp_bytes c ++ file_bytes) → read_captioned n r ≡ ok (c, 0, file)
    unfolding read_captioned
    captioned_plain r s =
        let (e1, s1) = read_caption-Sees c file_bytes r h s in
        rw (
          e1,
          caption_utf8_lem c valid,
          peek-written "attach_head.inline" _ n file n_u32 s1,
          rest_fits n n (remaining _) refl (remaining_lem _ _ s1 ∙ length-file),
          take_file-Sees _ s1,
        )

    captioned_flagged :
        (r : Reader) (f : ℕ)
        → Sees r (lp_bytes c ++ (f ∷ file_bytes))
        → read_captioned n r ≡ ok (c, f, file)
    unfolding read_captioned
    captioned_flagged r f s =
        let (e1, s1) = read_caption-Sees c (f ∷ file_bytes) r h s in
        rw (
          e1,
          caption_utf8_lem c valid,
          peek-Sees "attach_head.inline" _ (f ∷ file_bytes) s1 (omega (arith, length-file)),
          rest_exceeds (from_be_bytes (take 4 (f ∷ file_bytes))) n
              (remaining (advance (length c) (advance 4 r)))
              (λ same. omega (
                arith,
                same,
                remaining_lem (advance (length c) (advance 4 r)) (f ∷ file_bytes) s1,
                length-file,
              )),
          read_flagged-Sees _ f s1,
        )

    -- The length of the caption is not taken for the length of the file.
    past_peek :
        (r : Reader) (ys : List ℕ)
        → 4 + n ≤ length ys
        → Sees r (lp_bytes c ++ ys)
        → read_file n r ≡ read_captioned n r
    unfolding read_file
    past_peek r ys more s = rw (
      peek-written "attach_head.inline" r (length c) (c ++ ys) (omega arith) (rw append_assoc at s),
      rest_exceeds (length c) n (remaining r)
          (λ same. omega (arith, remaining_lem r _ s, length-lp c ys, more)),
    )

  read_file-Sees :
      (c : List ℕ) (f : ℕ) (r : Reader)
      → is_utf8 c ≡ true
      → length c ≤ max_caption
      → Sees r (tail c f ++ file_bytes)
      → read_file n r ≡ ok (c, f, file)
  read_file-Sees [] zero r valid h s = plain_file r s
  read_file-Sees (x ∷ c) zero r valid h s =
      let s' : Sees r (lp_bytes (x ∷ c) ++ file_bytes) = rw append-nil at s in
      past_peek (x ∷ c) valid h r _ (omega (arith, length-file)) s'
      ∙ captioned_plain (x ∷ c) valid h r s'
  read_file-Sees c (suc f) r valid h s =
      let s' : Sees r (lp_bytes c ++ (suc f ∷ file_bytes)) =
        rw (tail-suc c f, append_assoc (lp_bytes c) (suc f ∷ []) file_bytes) at s in
      past_peek c valid h r _ (omega (arith, length-file)) s'
      ∙ captioned_flagged c valid h r (suc f) s'

  -- The length is cast to 32 bits where it is written.
  read_file-written :
      (c : List ℕ) (f : ℕ) (r : Reader)
      → is_utf8 c ≡ true
      → length c ≤ max_caption
      → Sees r (tail c f ++ (to_be_bytes 4 (length file % 2 ^ 32) ++ file))
      → read_file n r ≡ ok (c, f, file)
  read_file-written c f r valid h s =
      let fits : length file % 2 ^ 32 ≡ n = omega (arith, full, n_u32) in
      read_file-Sees c f r valid h (rw fits at s)

-- The bytes of an inline head.
abbrev layout : AttachHead → List ℕ → List ℕ
layout p file =
    version_inline
    ∷ p.class
    ∷ (to_be_bytes 4 (length p.mime_hint % 2 ^ 32)
        ++ (p.mime_hint
            ++ (to_be_bytes 4 (length p.orig_ext % 2 ^ 32)
                ++ (p.orig_ext
                    ++ (to_be_bytes 4 p.uncompressed_n
                        ++ (p.content_sha256
                            ++ (tail p.caption p.flags
                                ++ (to_be_bytes 4 (length file % 2 ^ 32) ++ file))))))))

-- An inline head has no plan of chunks.
abbrev planless : AttachHead → AttachHead
planless p = record p { chunk_count = 0; chunk_bucket = 0 }

planless-same : (p : AttachHead) → p.chunk_count ≡ 0 → p.chunk_bucket ≡ 0 → planless p ≡ p
planless-same p none_sent no_bucket i = record p {
  chunk_count = sym none_sent i;
  chunk_bucket = sym no_bucket i;
}

decode_inline-layout :
    (p : AttachHead) (file : List ℕ)
    → IsSound p
    → validate_common p ≡ ok tt
    → length file ≡ p.uncompressed_n
    → decode_inline (layout p file) ≡ ok (planless p, some file)
unfolding decode_inline new_reader validate_common
decode_inline-layout p file t v full =
    let (mime, ext, size, cap) = validated p v in
    let n = p.uncompressed_n in
    then_u8 _ _ _ version_inline _ (Sees-new (layout p file)) λ s. then_u8 _ _ _ p.class _ s λ s.
      let (e1, s1) =
        read_ascii-Sees max_mime "attach_head.mime" p.mime_hint _ _ mime (omega (arith, mime))
          t.mime_ascii s in
      then_ok (read_ascii max_mime "attach_head.mime" _) _ _ e1 (
        let (e2, s2) =
          read_ascii-Sees max_ext "attach_head.ext" p.orig_ext _ _ ext (omega (arith, ext))
            t.ext_ascii s1 in
        then_ok (read_ascii max_ext "attach_head.ext" _) _ _ e2 (
          then_u32be _ _ _ n _ t.n_u32 s2 λ s. then_take _ _ _ p.content_sha256 _ 32 t.sha_32 s λ s.
            then_ok (read_file n _) _ _
              (read_file-written n file full t.n_u32 p.caption p.flags _ t.caption_valid cap s)
              (then_ok (validate_common (planless p)) _ tt v refl)))

inline-Ensures :
    (p : AttachHead) (file : List ℕ)
    → IsSound p
    → Ensures (λ bytes. decode_inline bytes ≡ ok (p, some file)) (encode_inline p file)
unfolding encode_inline put_u8 put_u32be put_lp raw new_writer finish to_be_bytes
inline-Ensures p file t = Ensures-bind (validate_common p) _ λ u v.
    Ensures-guard (p.chunk_count == 0 && p.chunk_bucket == 0) _ _ λ plan.
      Ensures-guard (length file == p.uncompressed_n) _ _ λ full.
        Ensures-bind (encode_caption_tail p.caption p.flags _) _ λ w e.
          let (mime, ext, size, cap) = validated p v in
          let same : planless p ≡ p = planless-same p (ground arith) (ground arith) in
          gives _ (
            rw (tail_written p.caption p.flags _ w cap e)
              (simp append_assoc (decode_inline-layout p file t v (ground arith) ∙ rw same refl)))

pub inline_head-round_trip :
    (p : AttachHead) (file bytes : List ℕ)
    → IsSound p
    → encode_inline p file ≡ ok bytes
    → decode_inline bytes ≡ ok (p, some file)
inline_head-round_trip p file bytes t e = Ensures-ok (inline-Ensures p file t) bytes e
