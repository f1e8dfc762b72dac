-- ===== src/Wire/Attach/Decode.antt =====
-- The decoders of an attachment's head in crates/wire-types/src/attach.rs.
use s_chat6_core.Common.{
  ℕ, ◌+◌, ◌-◌, List, [], length, ltb, ◌==◌, ◌&&◌, not, String, if◌then◌else◌, Option, none, some,
  ok, err, ◌>>=◌, ◌>>◌, guard, ok_or,
}
use s_chat6_core.Common.Utf8.{from_utf8, all_ascii}
use s_chat6_core.Wire.Error.{Wire, bad_field, bad_length, bad_version, trailing, literal}
use s_chat6_core.Wire.Bin.{
  Reader, new_reader, remaining, u8, u16be, u32be, lp, take_bytes, peek_u32be,
}
use s_chat6_core.Wire.Attach.Head.{
  AttachHead, validate_common, check_plan, encode_chunked, encode_inline, max_mime, max_ext,
  max_caption, head_version, version_inline,
}

unfoldable pub caption_utf8 : List ℕ → Wire (List ℕ)
unfolding from_utf8
caption_utf8 bytes =
    ok_or (from_utf8 bytes) (bad_field "attach_head.caption" (literal "invalid utf-8"))

-- The length of the caption, and its bytes.
unfoldable pub read_caption : Reader → Wire (List ℕ × Reader)
read_caption r = do
  (cap_len, r) ← u32be "attach_head.caption" r
  guard (not (ltb max_caption cap_len)) (bad_length "attach_head.caption" cap_len max_caption)
  take_bytes cap_len "attach_head.caption" r

-- What is done with the caption's bytes, by where they end.
unfoldable end_caption : List ℕ → Reader → ℕ → Wire (List ℕ × ℕ)
unfolding caption_utf8
end_caption cap_bytes r total =
    if r.pos == total
    then (do
      guard (not (ltb (length cap_bytes) 1)) (bad_length "attach_head.caption" 0 max_caption)
      caption ← caption_utf8 cap_bytes
      ok (caption, 0))
    else if r.pos + 1 == total
    then (do
      caption ← if length cap_bytes == 0 then ok [] else caption_utf8 cap_bytes
      (flags, r) ← u8 "attach_head.flags" r
      ok (caption, flags))
    else err (trailing "attach_head" (total - r.pos))

unfoldable pub decode_caption_tail : Reader → ℕ → Wire (List ℕ × ℕ)
unfolding read_caption end_caption
decode_caption_tail r total =
    if remaining r == 0
    then ok ([], 0)
    else (read_caption r >>= λ (cap_bytes, r'). end_caption cap_bytes r' total)

unfoldable pub read_ascii : ℕ → String → Reader → Wire (List ℕ × Reader)
unfolding all_ascii
read_ascii max at r = do
  (bytes, r) ← lp max at r
  guard (all_ascii bytes) (bad_field at (literal "not ascii"))
  ok (bytes, r)

unfoldable pub decode_chunked : List ℕ → Wire AttachHead
unfolding read_ascii decode_caption_tail validate_common check_plan
decode_chunked bytes = do
  (version, r) ← u8 "attach_head.version" (new_reader bytes)
  (class, r) ← u8 "attach_head.class" r
  (mime_hint, r) ← read_ascii max_mime "attach_head.mime" r
  (orig_ext, r) ← read_ascii max_ext "attach_head.ext" r
  (n, r) ← u32be "attach_head.n" r
  (count, r) ← u16be "attach_head.count" r
  (bucket, r) ← u16be "attach_head.bucket" r
  (sha, r) ← take_bytes 32 "attach_head.sha256" r
  (caption, flags) ← decode_caption_tail r (length bytes)
  let head : AttachHead = record {
    class = class;
    mime_hint = mime_hint;
    orig_ext = orig_ext;
    uncompressed_n = n;
    chunk_count = count;
    chunk_bucket = bucket;
    content_sha256 = sha;
    caption = caption;
    flags = flags;
  }
  validate_common head
  check_plan head
  ok head

-- The length prefix that has been peeked at, and the file behind it.
unfoldable pub take_file : ℕ → Reader → Wire (List ℕ)
take_file n r = do
  (len, r) ← u32be "attach_head.inline" r
  (file, r) ← take_bytes n "attach_head.inline" r
  ok file

-- lp caption, u8 flags, lp inline.
unfoldable pub read_flagged : ℕ → Reader → Wire (ℕ × List ℕ)
read_flagged n r = do
  (flags, r) ← u8 "attach_head.flags" r
  (inline_len, r) ← u32be "attach_head.inline" r
  guard (inline_len == n && remaining r == inline_len)
      (bad_length "attach_head.inline" inline_len n)
  (file, r) ← take_bytes inline_len "attach_head.inline" r
  ok (flags, file)

-- The length prefix was that of a caption.
unfoldable pub read_captioned : ℕ → Reader → Wire (List ℕ × ℕ × List ℕ)
unfolding read_caption caption_utf8 take_file read_flagged
read_captioned n r = do
  (cap_bytes, r) ← read_caption r
  caption ← caption_utf8 cap_bytes
  peek2 ← peek_u32be "attach_head.inline" r
  if peek2 == n && remaining r == 4 + peek2
      then (do file ← take_file peek2 r; ok (caption, 0, file))
      else (do (flags, file) ← read_flagged n r; ok (caption, flags, file))

-- The caption, the flags and the file: the tail is there unless the next length takes up the rest.
unfoldable pub read_file : ℕ → Reader → Wire (List ℕ × ℕ × List ℕ)
unfolding take_file read_captioned
read_file n r = do
  peek ← peek_u32be "attach_head.inline" r
  if peek == n && remaining r == 4 + peek
      then (do file ← take_file peek r; ok ([], 0, file))
      else read_captioned n r

unfoldable pub decode_inline : List ℕ → Wire (AttachHead × Option (List ℕ))
unfolding read_ascii read_file validate_common
decode_inline bytes = do
  (version, r) ← u8 "attach_head.version" (new_reader bytes)
  (class, r) ← u8 "attach_head.class" r
  (mime_hint, r) ← read_ascii max_mime "attach_head.mime" r
  (orig_ext, r) ← read_ascii max_ext "attach_head.ext" r
  (n, r) ← u32be "attach_head.n" r
  (sha, r) ← take_bytes 32 "attach_head.sha256" r
  (caption, flags, file) ← read_file n r
  let head : AttachHead = record {
    class = class;
    mime_hint = mime_hint;
    orig_ext = orig_ext;
    uncompressed_n = n;
    chunk_count = 0;
    chunk_bucket = 0;
    content_sha256 = sha;
    caption = caption;
    flags = flags;
  }
  validate_common head
  ok (head, some file)

unfoldable pub decode_with_inline : List ℕ → Wire (AttachHead × Option (List ℕ))
decode_with_inline bytes = do
  (version, r) ← u8 "attach_head.version" (new_reader bytes)
  if version == head_version
      then (do head ← decode_chunked bytes; ok (head, none))
      else if version == version_inline
      then decode_inline bytes
      else err (bad_version "attach_head" version)

-- `AttachHeadPayload`.
pub record HeadPayload : Type 0 where
  pub head : AttachHead
  pub inline : Option (List ℕ)

abbrev encode_either : Option (List ℕ) → AttachHead → Wire (List ℕ)
encode_either (some bytes) head = encode_inline head bytes
encode_either none head = encode_chunked head

unfoldable pub encode_head : HeadPayload → Wire (List ℕ)
unfolding encode_inline encode_chunked
encode_head p = encode_either p.inline p.head

unfoldable pub decode_head : List ℕ → Wire HeadPayload
unfolding decode_with_inline
decode_head bytes = do
  (head, inline) ← decode_with_inline bytes
  ok (record { head = head; inline = inline })
