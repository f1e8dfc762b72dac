-- ===== src/Wire/Attach/Head.antt =====
-- `AttachHead` and `AttachHeadPayload` of crates/wire-types/src/attach.rs: the head of an attachment, with
-- a plan of chunks or with the whole file. A string is the list of its bytes.
use s_chat6_core.Common.{
  is_empty, ℕ, ◌*◌, List, length, ltb, ◌==◌, Bool, ◌&&◌, ◌||◌, not, if◌then◌else◌, ok, ◌>>=◌, ◌>>◌,
  guard, bit_and,
}
use s_chat6_core.Wire.Error.{
  Wire, bad_field, bad_length, too_large, literal, media_class, uncompressed, count_bucket,
}
use s_chat6_core.Wire.Bin.{Writer, new_writer, put_u8, put_u16be, put_u32be, put_lp, raw, finish}

abbrev pub class_image : ℕ
class_image = 1

abbrev pub class_video : ℕ
class_video = 2

abbrev pub max_attach : ℕ
max_attach = 25 * 1_024 * 1_024

abbrev pub max_mime : ℕ
max_mime = 64

abbrev pub max_ext : ℕ
max_ext = 8

abbrev pub max_caption : ℕ
max_caption = 16 * 1_024

abbrev pub max_chunks : ℕ
max_chunks = 1_024

abbrev pub flag_view_once : ℕ
flag_view_once = 1

abbrev pub head_version : ℕ
head_version = 1

abbrev pub version_inline : ℕ
version_inline = 2

pub record AttachHead : Type 0 where
  pub class : ℕ
  pub mime_hint : List ℕ
  pub orig_ext : List ℕ
  pub uncompressed_n : ℕ
  pub chunk_count : ℕ
  pub chunk_bucket : ℕ
  pub content_sha256 : List ℕ
  pub caption : List ℕ
  pub flags : ℕ

unfoldable pub view_once : AttachHead → Bool
view_once p = not (bit_and p.flags flag_view_once == 0)

unfoldable pub class_ok : ℕ → Bool
class_ok c = c == class_image || c == class_video

unfoldable pub size_ok : ℕ → Bool
size_ok n = not (ltb n 1 || ltb max_attach n)

unfoldable pub validate_common : AttachHead → Wire (Unit {0})
validate_common p = do
  guard (class_ok p.class) (bad_field "attach_head.media_class" (media_class p.class))
  guard (not (ltb max_mime (length p.mime_hint)))
      (too_large "attach_head.mime" (length p.mime_hint) max_mime)
  guard (not (ltb max_ext (length p.orig_ext)))
      (too_large "attach_head.ext" (length p.orig_ext) max_ext)
  guard (size_ok p.uncompressed_n)
      (bad_field "attach_head.uncompressed_n" (uncompressed p.uncompressed_n))
  guard (not (ltb max_caption (length p.caption)))
      (too_large "attach_head.caption" (length p.caption) max_caption)

-- The plan of a chunked head.
unfoldable pub plan_ok : ℕ → ℕ → Bool
plan_ok count bucket =
    not (ltb count 1 || ltb max_chunks count || ltb bucket count || ltb max_chunks bucket)

unfoldable pub check_plan : AttachHead → Wire (Unit {0})
check_plan p =
    guard (plan_ok p.chunk_count p.chunk_bucket)
      (bad_field "attach_head.chunks" (count_bucket p.chunk_count p.chunk_bucket))

-- The flags byte is written when there are flags; the tail when there is a caption or there are flags.
unfoldable pub put_tail : List ℕ → ℕ → Writer → Writer
unfolding put_u8 put_lp
put_tail caption flags w =
    let captioned = put_lp caption w in
    if is_empty caption && flags == 0
    then w
    else if flags == 0
    then captioned
    else put_u8 flags captioned

unfoldable pub encode_caption_tail : List ℕ → ℕ → Writer → Wire Writer
unfolding put_tail
encode_caption_tail caption flags w = do
  guard (is_empty caption && flags == 0 || not (ltb max_caption (length caption)))
      (too_large "attach_head.caption" (length caption) max_caption)
  ok (put_tail caption flags w)

-- What both versions start with, behind the version.
abbrev put_start : ℕ → AttachHead → Writer
put_start version p =
    put_u32be p.uncompressed_n
      (put_lp p.orig_ext (put_lp p.mime_hint (put_u8 p.class (put_u8 version new_writer))))

unfoldable pub encode_chunked : AttachHead → Wire (List ℕ)
unfolding check_plan encode_caption_tail put_u8 put_u16be put_u32be put_lp raw new_writer finish
encode_chunked p = do
  validate_common p
  check_plan p
  w ← encode_caption_tail p.caption p.flags (
      raw p.content_sha256
        (put_u16be p.chunk_bucket (put_u16be p.chunk_count (put_start head_version p))))
  ok (finish w)

unfoldable pub encode_inline : AttachHead → List ℕ → Wire (List ℕ)
unfolding encode_caption_tail put_u8 put_u32be put_lp raw new_writer finish
encode_inline p inline_bytes = do
  validate_common p
  guard (p.chunk_count == 0 && p.chunk_bucket == 0)
      (bad_field "attach_head.chunks" (literal "inline head must have zero chunk plan"))
  guard (length inline_bytes == p.uncompressed_n)
      (bad_length "attach_head.inline" (length inline_bytes) p.uncompressed_n)
  w ← encode_caption_tail p.caption p.flags (raw p.content_sha256 (put_start version_inline p))
  ok (finish (put_lp inline_bytes w))
