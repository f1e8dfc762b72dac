-- ===== src/Wire/Attach/RoundTrip.antt =====
-- Heads of both versions read back after they were written.
use s_chat6_core.Common.{
  ℕ, ◌%◌, ◌^◌, ◌≡◌, refl, ap, subst, List, ◌∷◌, ◌++◌, length, ok, some, none, Option, Ensures,
  gives, Ensures-bind, Ensures-guard, Ensures-ok, ◌==◌, ◌&&◌,
}
use s_chat6_core.Common.Bytes.{to_be_bytes}
use s_chat6_core.Wire.Bin.{
  new_reader, new_writer, put_u8, put_u16be, put_u32be, put_lp, raw, finish,
}
use s_chat6_core.Wire.Bin.Laws.{Sees, Sees-new, u8-Sees}
use s_chat6_core.Wire.Attach.Head.{
  AttachHead, validate_common, check_plan, encode_caption_tail, encode_chunked, encode_inline,
  head_version, version_inline,
}
use s_chat6_core.Wire.Attach.Decode.{
  decode_inline, decode_chunked, decode_with_inline, HeadPayload, encode_head, decode_head,
}
use s_chat6_core.Wire.Attach.Chunked.{chunked_head-round_trip, IsSound, validated, tail_written}
use s_chat6_core.Wire.Attach.Inline.{inline_head-round_trip}

-- The version is the first byte.
abbrev Starts : ℕ → List ℕ → Type 0
Starts v bytes = (rest : List ℕ) × (bytes ≡ v ∷ rest)

chunked-Starts : (p : AttachHead) → Ensures (Starts head_version) (encode_chunked p)
unfolding encode_chunked put_u8 put_u16be put_u32be put_lp raw new_writer finish to_be_bytes
chunked-Starts p = Ensures-bind (validate_common p) _ λ u v.
    Ensures-bind (check_plan p) _ λ u' plan.
      Ensures-bind (encode_caption_tail p.caption p.flags _) _ λ w e.
        let (mime, ext, size, cap) = validated p v in
        gives w.buf (_, tail_written p.caption p.flags _ w cap e)

inline-Starts :
    (p : AttachHead) (file : List ℕ) → Ensures (Starts version_inline) (encode_inline p file)
unfolding encode_inline put_u8 put_u32be put_lp raw new_writer finish to_be_bytes
inline-Starts p file = Ensures-bind (validate_common p) _ λ u v.
    Ensures-guard (p.chunk_count == 0 && p.chunk_bucket == 0) _ _ λ plan.
      Ensures-guard (length file == p.uncompressed_n) _ _ λ full.
        Ensures-bind (encode_caption_tail p.caption p.flags _) _ λ w e.
          let (mime, ext, size, cap) = validated p v in
          gives _ (
            _,
            ap (λ b. (b ++ to_be_bytes 4 (length file % 2 ^ 32)) ++ file)
                (tail_written p.caption p.flags _ w cap e),
          )

module _ (h : AttachHead) where
  chunked_head :
      (bytes : List ℕ)
      → Starts head_version bytes
      → decode_chunked bytes ≡ ok h
      → decode_head bytes ≡ ok (record { head = h; inline = none })
  unfolding decode_head decode_with_inline
  chunked_head bytes (rest, e) d =
      let (e1, s) =
        u8-Sees "attach_head.version" (new_reader bytes) head_version rest
          (subst (λ b. Sees (new_reader bytes) b) e (Sees-new bytes)) in
      rw (e1, d) refl

  inline_head :
      (bytes file : List ℕ)
      → Starts version_inline bytes
      → decode_inline bytes ≡ ok (h, some file)
      → decode_head bytes ≡ ok (record { head = h; inline = some file })
  unfolding decode_head decode_with_inline
  inline_head bytes file (rest, e) d =
      let (e1, s) =
        u8-Sees "attach_head.version" (new_reader bytes) version_inline rest
          (subst (λ b. Sees (new_reader bytes) b) e (Sees-new bytes)) in
      rw (e1, d) refl

of_inline :
    (h : AttachHead) (file : Option (List ℕ)) (bytes : List ℕ)
    → IsSound h
    → encode_head (record { head = h; inline = file }) ≡ ok bytes
    → decode_head bytes ≡ ok (record { head = h; inline = file })
unfolding encode_head
of_inline h none bytes t e =
    chunked_head h bytes (Ensures-ok (chunked-Starts h) bytes e)
      (chunked_head-round_trip h bytes t e)
of_inline h (some file) bytes t e =
    inline_head h bytes file (Ensures-ok (inline-Starts h file) bytes e)
      (inline_head-round_trip h file bytes t e)

-- A head of either version, with the flags, the caption and the file it may have, is read back as it was
-- when it is encoded without an error, its strings are valid UTF-8, the hint and the extension are ASCII and
-- the other fields have their Rust types.
pub head-round_trip :
    (p : HeadPayload) (bytes : List ℕ)
    → IsSound p.head
    → encode_head p ≡ ok bytes
    → decode_head bytes ≡ ok p
head-round_trip p bytes t e = of_inline p.head p.inline bytes t e
