-- ===== src/Attach/Plan.antt =====
-- `plan_transfer` of crates/core/src/attach/mod.rs: the pieces of an outbound attachment and its head. The hash
-- is a parameter.
pub mod Assembled
use s_chat6_core.Common.{
  ℕ, zero, suc, ◌+◌, ◌-◌, ◌*◌, ◌/◌, ◌%◌, ◌^◌, List, [], ◌∷◌, ◌++◌, map, length, replicate, is_empty,
  ltb, leb, Bool, ◌||◌, not, if◌then◌else◌, Result, ok, err, ◌>>=◌, ◌>>◌, guard,
}
use s_chat6_core.Wire.Attach.Chunk.{chunk_data_max}
use s_chat6_core.Wire.Attach.Head.{AttachHead, max_attach, flag_view_once}

abbrev pub inline_max : ℕ
inline_max = 27_000

abbrev bucket_granularity : ℕ
bucket_granularity = 8

pub data ChunkOut : Type 0 where
  content : List ℕ → ChunkOut
  pad : ChunkOut

pub record AttachPlan : Type 0 where
  pub head : AttachHead
  pub chunks : List ChunkOut

-- `EngineError::EditDenied("attachment size out of range")`.
pub data PlanError : Type 0 where
  size_out_of_range : PlanError

-- `bytes.chunks(CHUNK_DATA_MAX)`, with the room that is left in the piece at hand: the rest of that piece, and
-- the pieces behind it.
unfoldable pub split : ℕ → List ℕ → List ℕ × List (List ℕ)
split room [] = ([], [])
split zero (x ∷ xs) = let (piece, rest) = split (chunk_data_max - 1) xs in ([], (x ∷ piece) ∷ rest)
split (suc room) (x ∷ xs) = let (piece, rest) = split room xs in (x ∷ piece, rest)

unfoldable pub pieces : List ℕ → List (List ℕ)
unfolding split
pieces bytes = (split 0 bytes).1

-- `a.div_ceil(b)`.
abbrev pub div_ceil : ℕ → ℕ → ℕ
div_ceil a b = (a + (b - 1)) / b

abbrev pub chunk_count_of : ℕ → ℕ
chunk_count_of n = div_ceil n 27_900 % 2 ^ 16

abbrev pub bucket_of : ℕ → ℕ
bucket_of count = div_ceil count 8 * 8 % 2 ^ 16

unfoldable pub plan_chunks : List ℕ → List ChunkOut
unfolding pieces
plan_chunks bytes =
    map content (pieces bytes)
    ++ replicate (bucket_of (chunk_count_of (length bytes)) - length (pieces bytes)) pad

unfoldable pub plan_transfer :
    (List ℕ → List ℕ) → ℕ → List ℕ → List ℕ → List ℕ → List ℕ → Bool → Result PlanError AttachPlan
unfolding plan_chunks
plan_transfer sha256 media_class mime_hint orig_ext bytes caption view_once = do
  guard (not (is_empty bytes || ltb max_attach (length bytes))) size_out_of_range
  let inline = leb (length bytes) inline_max
  let chunk_count = if inline then 0 else chunk_count_of (length bytes)
  ok (record {
    head = record {
      class = media_class;
      mime_hint = mime_hint;
      orig_ext = orig_ext;
      uncompressed_n = length bytes;
      chunk_count = chunk_count;
      chunk_bucket = if inline then 0 else bucket_of (chunk_count_of (length bytes));
      content_sha256 = sha256 bytes;
      caption = caption;
      flags = if view_once then flag_view_once else 0;
    };
    chunks = if inline then [] else plan_chunks bytes;
  })
