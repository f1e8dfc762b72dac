-- ===== src/Wire/Sticker.antt =====
-- The `sticker` limits of crates/wire-types/src/limits.rs, and what the payloads of
-- crates/wire-types/src/sticker.rs share.
pub mod Item
pub mod PackRef
pub mod Ctrl
pub mod PackDoc
pub mod Thumbs
use s_chat6_core.Common.{
  ℕ, ◌*◌, max, List, [], ◌∷◌, ltb, leb, ◌==◌, Bool, true, false, ◌&&◌, ◌||◌, not, if◌then◌else◌,
}

abbrev kind_emoji : ℕ
kind_emoji = 1

abbrev kind_sticker : ℕ
kind_sticker = 2

abbrev visibility_public : ℕ
visibility_public = 1

abbrev visibility_private : ℕ
visibility_private = 2

abbrev max_bytes_emoji : ℕ
max_bytes_emoji = 64 * 1_024

abbrev pub max_bytes_sticker : ℕ
max_bytes_sticker = 512 * 1_024

abbrev sticker_aspect_num : ℕ
sticker_aspect_num = 3

abbrev pub max_title_chars : ℕ
max_title_chars = 32

abbrev pub item_chunk_max : ℕ
item_chunk_max = 27_500

abbrev pub max_item_chunks : ℕ
max_item_chunks = 24

abbrev pub pack_chunk_max : ℕ
pack_chunk_max = 27_500

abbrev pub max_pack_chunks : ℕ
max_pack_chunks = 1_280

abbrev pub max_thumb_bytes : ℕ
max_thumb_bytes = 8 * 1_024

abbrev pub max_thumbs_doc_bytes : ℕ
max_thumbs_doc_bytes = 512 * 1_024

abbrev pub max_thumbs_chunks : ℕ
max_thumbs_chunks = 24

abbrev pub max_pack_doc_bytes : ℕ
max_pack_doc_bytes = 28 * 1_024 * 1_024

unfoldable pub max_items : ℕ → ℕ
max_items kind = if kind == kind_emoji then 64 else if kind == kind_sticker then 50 else 0

unfoldable pub max_edge : ℕ → ℕ
max_edge kind = if kind == kind_emoji then 160 else if kind == kind_sticker then 512 else 0

unfoldable pub max_bytes : ℕ → ℕ
max_bytes kind =
    if kind == kind_emoji
    then max_bytes_emoji
    else if kind == kind_sticker
    then max_bytes_sticker
    else 0

unfoldable pub valid_kind : ℕ → Bool
valid_kind kind = kind == kind_emoji || kind == kind_sticker

unfoldable pub valid_visibility : ℕ → Bool
valid_visibility visibility = visibility == visibility_public || visibility == visibility_private

unfoldable pub aspect_ok : ℕ → ℕ → ℕ → Bool
aspect_ok kind w h =
    if w == 0 || h == 0
    then false
    else if kind == kind_emoji
    then w == h
    else if kind == kind_sticker
    then leb w (h * sticker_aspect_num) && leb h (w * sticker_aspect_num)
    else false

unfoldable pub item_ok : ℕ → ℕ → ℕ → ℕ → Bool
unfolding valid_kind max_bytes aspect_ok max_edge
item_ok kind w h byte_len =
    valid_kind kind
    && ltb 0 byte_len
    && leb byte_len (max_bytes kind)
    && aspect_ok kind w h
    && leb (max w h) (max_edge kind)
