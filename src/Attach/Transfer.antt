-- ===== src/Attach/Transfer.antt =====
-- The inbound half of crates/core/src/attach/mod.rs: heads and chunks as they come in, the reassembly, and
-- what the client reads. The hash is a parameter; whether attachments are allowed and when a row expires are what
-- the policy store answers. Writes before an error stay, so the tables are returned in either case.
pub mod Verified
pub mod Caps
pub mod Steps
pub mod Reach
pub mod Leftover
use s_chat6_core.Common.{
  ℕ, zero, suc, ◌+◌, ◌-◌, ◌*◌, ◌/◌, ◌%◌, ◌^◌, List, [], ◌∷◌, ◌++◌, length, replicate, is_empty,
  bytes_eq, ltb, leb, ◌==◌, Bool, true, false, not, ◌&&◌, ◌||◌, if◌then◌else◌, Option, none, some,
  Result, ok, err, bit_and,
}
use s_chat6_core.Wire.Attach.Head.{AttachHead, flag_view_once}
use s_chat6_core.Wire.Attach.Decode.{HeadPayload}
use s_chat6_core.Wire.Attach.Chunk.{AttachChunk}
use s_chat6_core.Messages.{Direction, in_}
use s_chat6_core.Attach.Store.{
  AttachmentRow, ChunkRow, StoreError, attachment, insert_head, update_head, delete_attachment,
  for_message, mark_consumed, count_ones, bitmap_bytes, note_chunk, put_chunk, chunks_for,
  delete_chunks, orphan_head_stats, orphan_rel_stats,
}

abbrev pub max_orphan_chunks_per_head : ℕ
max_orphan_chunks_per_head = 1_024

abbrev pub max_orphan_bytes_per_head : ℕ
max_orphan_bytes_per_head = 25 * 1_024 * 1_024

abbrev pub max_orphan_chunks_per_rel : ℕ
max_orphan_chunks_per_rel = 4_096

abbrev pub max_orphan_bytes_per_rel : ℕ
max_orphan_bytes_per_rel = 64 * 1_024 * 1_024

pub record AttachDb : Type 0 where
  pub attachments : List AttachmentRow
  pub attachment_chunks : List ChunkRow

-- The events of the engine that are about transfers.
pub data AttachEvent : Type 0 where
  attachment_failed : List ℕ → AttachEvent
  attachment_complete : List ℕ → List ℕ → AttachEvent
  attachment_progress : List ℕ → ℕ → ℕ → AttachEvent
  chunk_dropped : List ℕ → AttachEvent

abbrev pub Handled : Type 0
Handled = AttachDb × Result StoreError (List AttachEvent)

-- `bytes.extend_from_slice(piece)` for every piece.
abbrev pub concat : List (List ℕ) → List ℕ
concat [] = []
concat (x ∷ xs) = x ++ concat xs

-- Every index of the transfer.
unfoldable pub full_bitmap : ℕ → List ℕ
full_bitmap count =
    if count % 8 == 0
    then replicate (bitmap_bytes count) 255
    else replicate (bitmap_bytes count - 1) 255 ++ ((2 ^ (count % 8) - 1) ∷ [])

unfoldable pub head_row : List ℕ → List ℕ → AttachHead → Option ℕ → ℕ → AttachmentRow
head_row rel_id msg_id head expiry now = record {
  head_id = msg_id;
  rel_id = rel_id;
  msg_id = msg_id;
  direction = in_;
  media_class = head.class;
  mime_hint = head.mime_hint;
  uncompressed_n = head.uncompressed_n;
  chunk_count = head.chunk_count;
  chunk_bucket = head.chunk_bucket;
  content_sha256 = head.content_sha256;
  caption = head.caption;
  flags = head.flags;
  orig_ext = head.orig_ext;
  chunks = [];
  complete = false;
  consumed = false;
  expires_at = expiry;
  created_at = now;
}

-- DELETE of the chunks and of the row.
unfoldable pub erase : List ℕ → AttachDb → AttachDb
unfolding delete_chunks delete_attachment
erase id db = record {
  attachments = delete_attachment id db.attachments;
  attachment_chunks = delete_chunks id db.attachment_chunks;
}

module _ (sha256 : List ℕ → List ℕ) where
  -- The length and the hash that the head has announced.
  unfoldable pub is_announced : AttachmentRow → List ℕ → Bool
  is_announced row bytes =
      length bytes == row.uncompressed_n && bytes_eq (sha256 bytes) row.content_sha256

  -- `try_complete` at a row that is not complete, with the pieces that are stored.
  unfoldable pub assemble :
      List ℕ → AttachmentRow → List (List ℕ) → AttachDb → AttachDb × List AttachEvent
  unfolding is_announced erase update_head full_bitmap
  assemble id row stored db =
      if ltb (length stored) row.chunk_count
      then (db, [])
      else if not (is_announced row (concat stored))
      then (erase id db, attachment_failed id ∷ [])
      else (
        record db {
          attachments =
              update_head id
                (λ r. record r { chunks = full_bitmap row.chunk_count; complete = true })
                db.attachments;
        },
        attachment_complete id row.msg_id ∷ [],
      )

  unfoldable pub try_complete : List ℕ → AttachDb → AttachDb × List AttachEvent
  unfolding attachment assemble chunks_for
  try_complete id db = elim (attachment id db.attachments) [
    | none ↦ (db, [])
    | some row ↦
        if row.complete then (db, []) else assemble id row (chunks_for id db.attachment_chunks) db
  ]

  -- What follows the insertion of a head.
  unfoldable pub start_transfer : List ℕ → List ℕ → HeadPayload → ℕ → AttachDb → Handled
  unfolding put_chunk update_head delete_attachment try_complete
  start_transfer rel_id id payload now db = elim payload.inline [
    | none ↦ let (db', events) = try_complete id db in (db', ok events)
    | some bytes ↦
        if not (bytes_eq (sha256 bytes) payload.head.content_sha256)
        then (
          record db { attachments = delete_attachment id db.attachments },
          ok (attachment_failed id ∷ []),
        )
        else elim (put_chunk id 0 bytes rel_id now db.attachment_chunks) [
          | err e ↦ (db, err e)
          | ok chunks ↦ (
            record {
              attachments = update_head id (λ r. record r { complete = true }) db.attachments;
              attachment_chunks = chunks;
            },
            ok (attachment_complete id id ∷ []),
          )
        ]
  ]

  unfoldable pub on_attach_head :
      Bool → Option ℕ → List ℕ → List ℕ → HeadPayload → ℕ → AttachDb → Handled
  unfolding attachment insert_head head_row start_transfer
  on_attach_head allowed expiry rel_id msg_id payload now db =
      if not allowed then (db, ok []) else elim (attachment msg_id db.attachments) [
        | some row ↦ (db, ok [])
        | none ↦
            elim (insert_head (head_row rel_id msg_id payload.head expiry now) db.attachments) [
              | err e ↦ (db, err e)
              | ok rows ↦
                  start_transfer rel_id msg_id payload now (record db { attachments = rows })
            ]
      ]

  -- The caps on chunks whose head is not known.
  unfoldable pub over_cap : List ℕ → AttachChunk → AttachDb → Bool
  unfolding orphan_head_stats orphan_rel_stats
  over_cap rel_id c db =
      let (count, bytes) = orphan_head_stats c.head_id db.attachment_chunks in
      let (rel_count, rel_bytes) = orphan_rel_stats rel_id db.attachments db.attachment_chunks in
      leb max_orphan_chunks_per_head count
      || ltb max_orphan_bytes_per_head (bytes + length c.bytes)
      || leb max_orphan_chunks_per_rel rel_count
      || ltb max_orphan_bytes_per_rel (rel_bytes + length c.bytes)

  abbrev total_of : Option AttachmentRow → ℕ × ℕ
  total_of none = (0, 0)
  total_of (some row) = (count_ones row.chunks, row.chunk_count)

  -- The `match` on what `note_chunk` answers.
  unfoldable pub after_chunk : List ℕ → Option Bool → AttachDb → AttachDb × List AttachEvent
  unfolding attachment count_ones try_complete
  after_chunk id none db = (db, [])
  after_chunk id (some false) db =
      let (received, total) = total_of (attachment id db.attachments) in
      (db, attachment_progress id received total ∷ [])
  after_chunk id (some true) db = try_complete id db

  unfoldable pub store_chunk : List ℕ → AttachChunk → ℕ → AttachDb → Handled
  unfolding put_chunk note_chunk after_chunk
  store_chunk rel_id c now db =
      elim (put_chunk c.head_id c.index c.bytes rel_id now db.attachment_chunks) [
        | err e ↦ (db, err e)
        | ok chunks ↦
            let (rows, noted) = note_chunk c.head_id c.index db.attachments in
            let (db', events) =
              after_chunk c.head_id noted
                (record { attachments = rows; attachment_chunks = chunks }) in
            (db', ok events)
      ]

  unfoldable pub on_attach_chunk : List ℕ → AttachChunk → ℕ → AttachDb → Handled
  unfolding attachment over_cap store_chunk
  on_attach_chunk rel_id c now db =
      if c.pad then (db, ok []) else elim (attachment c.head_id db.attachments) [
        | none ↦
            if over_cap rel_id c db
            then (db, ok (chunk_dropped c.head_id ∷ []))
            else store_chunk rel_id c now db
        | some row ↦
            if leb row.chunk_count c.index
            then (db, ok (chunk_dropped c.head_id ∷ []))
            else store_chunk rel_id c now db
      ]

-- DELETE of a message: every transfer that it has.
abbrev erase_all : List AttachmentRow → AttachDb → AttachDb
erase_all [] db = db
erase_all (att ∷ rest) db = erase_all rest (erase att.head_id db)

unfoldable pub on_delete_target : List ℕ → AttachDb → AttachDb
unfolding for_message erase
on_delete_target target db = erase_all (for_message target db.attachments) db

unfoldable pub attachment_bytes : List ℕ → AttachDb → Option (List ℕ)
unfolding attachment chunks_for
attachment_bytes id db = elim (attachment id db.attachments) [
  | none ↦ none
  | some row ↦
      if not row.complete || row.consumed || is_empty (chunks_for id db.attachment_chunks)
      then none
      else some (concat (chunks_for id db.attachment_chunks))
]

unfoldable attachment_viewed : List ℕ → AttachDb → AttachDb
unfolding attachment delete_chunks mark_consumed
attachment_viewed id db = elim (attachment id db.attachments) [
  | none ↦ db
  | some row ↦
      if not (bit_and row.flags flag_view_once == 0) && not row.consumed
      then record {
        attachments = mark_consumed id db.attachments;
        attachment_chunks = delete_chunks id db.attachment_chunks;
      }
      else db
]
