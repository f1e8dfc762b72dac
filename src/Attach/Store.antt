-- ===== src/Attach/Store.antt =====
-- crates/core/src/store/attachments.rs and chunks.rs: the two tables of the transfers as lists of rows. Strings
-- are lists of bytes.
pub mod Laws
pub mod Order
use s_chat6_core.Common.{
  ℕ, zero, suc, ◌+◌, ◌-◌, ◌/◌, ◌%◌, List, [], ◌∷◌, ◌++◌, length, replicate, take, bytes_eq, ltb,
  leb, ◌==◌, Bool, true, false, not, ◌&&◌, ◌||◌, if◌then◌else◌, Option, none, some, Result, ok, err,
}
use s_chat6_core.Messages.{Direction}
use s_chat6_core.Sync.View.{set_bit}

-- The fields of a row; a new head is one with an empty bitmap, neither complete nor consumed.
pub record AttachmentRow : Type 0 where
  pub head_id : List ℕ
  pub rel_id : List ℕ
  pub msg_id : List ℕ
  pub direction : Direction
  pub media_class : ℕ
  pub mime_hint : List ℕ
  pub uncompressed_n : ℕ
  pub chunk_count : ℕ
  pub chunk_bucket : ℕ
  pub content_sha256 : List ℕ
  pub caption : List ℕ
  pub flags : ℕ
  pub orig_ext : List ℕ
  pub chunks : List ℕ
  pub complete : Bool
  pub consumed : Bool
  pub expires_at : Option ℕ
  pub created_at : ℕ

pub record ChunkRow : Type 0 where
  pub head_id : List ℕ
  pub idx : ℕ
  pub bytes : List ℕ
  pub rel_id : List ℕ
  pub created_at : ℕ

-- The `StoreError::Corrupt` of `put_chunk`, and the primary key of `attachments`.
pub data StoreError : Type 0 where
  -- format!("chunk {id}:{index} rewritten with different bytes")
  rewritten : List ℕ → ℕ → StoreError
  head_exists : List ℕ → StoreError

-- SELECT … FROM attachments WHERE head_id = ?1.
unfoldable pub attachment : List ℕ → List AttachmentRow → Option AttachmentRow
attachment id [] = none
attachment id (row ∷ rows) = if bytes_eq row.head_id id then some row else attachment id rows

unfoldable pub insert_head :
    AttachmentRow → List AttachmentRow → Result StoreError (List AttachmentRow)
unfolding attachment
insert_head row rows = elim (attachment row.head_id rows) [
  | none ↦ ok (row ∷ rows)
  | some old ↦ err (head_exists row.head_id)
]

-- UPDATE attachments SET … WHERE head_id = ?1.
unfoldable pub update_head :
    List ℕ → (AttachmentRow → AttachmentRow) → List AttachmentRow → List AttachmentRow
update_head id f [] = []
update_head id f (row ∷ rows) =
    (if bytes_eq row.head_id id then f row else row) ∷ update_head id f rows

-- DELETE FROM attachments WHERE head_id = ?1.
unfoldable pub delete_attachment : List ℕ → List AttachmentRow → List AttachmentRow
delete_attachment id [] = []
delete_attachment id (row ∷ rows) =
    if bytes_eq row.head_id id then delete_attachment id rows else row ∷ delete_attachment id rows

unfoldable pub for_message : List ℕ → List AttachmentRow → List AttachmentRow
for_message id [] = []
for_message id (row ∷ rows) =
    if bytes_eq row.msg_id id then row ∷ for_message id rows else for_message id rows

unfoldable pub mark_consumed : List ℕ → List AttachmentRow → List AttachmentRow
unfolding update_head
mark_consumed id rows = update_head id (λ row. record row { consumed = true }) rows

-- `expires_at IS NOT NULL AND expires_at <= ?1`.
abbrev is_expired : Option ℕ → ℕ → Bool
is_expired none now = false
is_expired (some e) now = leb e now

unfoldable sweep_expired : ℕ → List AttachmentRow → List AttachmentRow
sweep_expired now [] = []
sweep_expired now (row ∷ rows) =
    if is_expired row.expires_at now then sweep_expired now rows else row ∷ sweep_expired now rows

-- `count_ones` of a byte, by its eight bits.
abbrev ones_from : ℕ → ℕ → ℕ
ones_from zero b = 0
ones_from (suc k) b = b % 2 + ones_from k (b / 2)

unfoldable pub count_ones : List ℕ → ℕ
count_ones [] = 0
count_ones (b ∷ bs) = ones_from 8 b + count_ones bs

-- `chunk_count.div_ceil(8)` bytes, cut or filled up with zeros.
unfoldable resize : List ℕ → ℕ → List ℕ
resize bitmap need = take need (bitmap ++ replicate need 0)

abbrev pub bitmap_bytes : ℕ → ℕ
bitmap_bytes chunk_count = (chunk_count + 7) / 8

unfoldable pub marked : AttachmentRow → ℕ → List ℕ
unfolding resize
marked row index = set_bit (resize row.chunks (bitmap_bytes row.chunk_count)) index

-- The bitmap only: the row is not complete before its hash is verified.
unfoldable pub note_chunk : List ℕ → ℕ → List AttachmentRow → List AttachmentRow × Option Bool
unfolding attachment update_head marked count_ones
note_chunk id index rows = elim (attachment id rows) [
  | none ↦ (rows, none)
  | some row ↦ if leb row.chunk_count index then (rows, none) else (
    update_head id (λ r. record r { chunks = marked row index }) rows,
    some (leb row.chunk_count (count_ones (marked row index))),
  )
]

-- SELECT data FROM attachment_chunks WHERE head_id = ?1 AND idx = ?2.
unfoldable pub chunk : List ℕ → ℕ → List ChunkRow → Option (List ℕ)
chunk id index [] = none
chunk id index (c ∷ cs) =
    if bytes_eq c.head_id id && c.idx == index then some c.bytes else chunk id index cs

-- Same bytes again are a redelivery, other bytes an error.
unfoldable pub put_chunk :
    List ℕ → ℕ → List ℕ → List ℕ → ℕ → List ChunkRow → Result StoreError (List ChunkRow)
unfolding chunk
put_chunk id index bytes rel_id now cs = elim (chunk id index cs) [
  | some prev ↦ if bytes_eq prev bytes then ok cs else err (rewritten id index)
  | none ↦
      ok (
        record { head_id = id; idx = index; bytes = bytes; rel_id = rel_id; created_at = now } ∷ cs)
]

-- ORDER BY idx ASC.
unfoldable pub insert_by_idx : ChunkRow → List ChunkRow → List ChunkRow
insert_by_idx c [] = c ∷ []
insert_by_idx c (d ∷ ds) =
    let rest = insert_by_idx c ds in if leb c.idx d.idx then c ∷ d ∷ ds else d ∷ rest

unfoldable pub rows_for : List ℕ → List ChunkRow → List ChunkRow
unfolding insert_by_idx
rows_for id [] = []
rows_for id (c ∷ cs) =
    let rest = rows_for id cs in if bytes_eq c.head_id id then insert_by_idx c rest else rest

abbrev pub data_of : List ChunkRow → List (List ℕ)
data_of [] = []
data_of (c ∷ cs) = c.bytes ∷ data_of cs

unfoldable pub chunks_for : List ℕ → List ChunkRow → List (List ℕ)
unfolding rows_for
chunks_for id cs = data_of (rows_for id cs)

unfoldable pub delete_chunks : List ℕ → List ChunkRow → List ChunkRow
delete_chunks id [] = []
delete_chunks id (c ∷ cs) =
    if bytes_eq c.head_id id then delete_chunks id cs else c ∷ delete_chunks id cs

-- COUNT(*) and SUM(LENGTH(data)).
unfoldable pub orphan_head_stats : List ℕ → List ChunkRow → ℕ × ℕ
orphan_head_stats id [] = (0, 0)
orphan_head_stats id (c ∷ cs) =
    let (n, bytes) = orphan_head_stats id cs in
    if bytes_eq c.head_id id then (n + 1, bytes + length c.bytes) else (n, bytes)

-- NOT EXISTS (SELECT 1 FROM attachments a WHERE a.head_id = …).
unfoldable pub is_orphan : List AttachmentRow → List ℕ → Bool
unfolding attachment
is_orphan rows id = elim (attachment id rows) [ none ↦ true | some row ↦ false ]

unfoldable pub orphan_rel_stats : List ℕ → List AttachmentRow → List ChunkRow → ℕ × ℕ
unfolding is_orphan
orphan_rel_stats rel rows [] = (0, 0)
orphan_rel_stats rel rows (c ∷ cs) =
    let (n, bytes) = orphan_rel_stats rel rows cs in
    if bytes_eq c.rel_id rel && is_orphan rows c.head_id
    then (n + 1, bytes + length c.bytes)
    else (n, bytes)

unfoldable sweep_orphans : ℕ → List AttachmentRow → List ChunkRow → List ChunkRow
unfolding is_orphan
sweep_orphans older_than rows [] = []
sweep_orphans older_than rows (c ∷ cs) =
    if ltb c.created_at older_than && is_orphan rows c.head_id
    then sweep_orphans older_than rows cs
    else c ∷ sweep_orphans older_than rows cs
