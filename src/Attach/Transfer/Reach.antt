-- ===== src/Attach/Transfer/Reach.antt =====
-- Heads, chunks and deletions as steps, and the caps on orphans over their runs. The sweep of expired transfers is
-- no step here: it keeps the chunks of the rows that it deletes.
use s_chat6_core.Common.{
  ℕ, ◌≡◌, refl, arith, List, [], ◌∷◌, bytes_eq, bytes_eq_refl, Bool, true, false, Option, none,
  some, ok, Bool-cases, inl, inr,
}
use s_chat6_core.Wire.Attach.Decode.{HeadPayload}
use s_chat6_core.Wire.Attach.Chunk.{AttachChunk}
use s_chat6_core.Attach.Store.{
  AttachmentRow, ChunkRow, attachment, insert_head, update_head, delete_attachment, put_chunk,
  is_orphan, for_message,
}
use s_chat6_core.Attach.Store.Laws.{is_orphan-cons, delete_attachment-none}
use s_chat6_core.Attach.Transfer.{
  AttachDb, head_row, erase, erase_all, start_transfer, on_attach_head, on_attach_chunk,
  on_delete_target,
}
use s_chat6_core.Attach.Transfer.Caps.{
  IsCapped, IsCapped-heads, erase-IsCapped, put_cases, found_cases, inserted-IsCapped,
}
use s_chat6_core.Attach.Transfer.Steps.{
  updated-IsCapped, try_complete-IsCapped, on_attach_chunk-IsCapped,
}

-- The inline bytes of a head as its chunk 0.
abbrev inline_chunk : List ℕ → List ℕ → AttachChunk
inline_chunk id bytes = record { head_id = id; index = 0; pad = false; bytes = bytes }

module _ (sha256 : List ℕ → List ℕ) where
  started-IsCapped :
      (rel id : List ℕ) (payload : HeadPayload) (now : ℕ) (db : AttachDb)
      → is_orphan db.attachments id ≡ false
      → IsCapped (record db { attachments = delete_attachment id db.attachments })
      → IsCapped db
      → (o : Option (List ℕ)) → payload.inline ≡ o
      → IsCapped (start_transfer sha256 rel id payload now db).0
  unfolding start_transfer
  started-IsCapped rel id payload now db known without capped none e =
      rw (e, start_transfer) (try_complete-IsCapped sha256 id db capped)
  started-IsCapped rel id payload now db known without capped (some bytes) e =
      elim (Bool-cases (bytes_eq (sha256 bytes) payload.head.content_sha256)) [
        | inr wrong ↦ rw (e, start_transfer, wrong) without
        | inl right ↦ elim (put_cases rel (inline_chunk id bytes) now db.attachment_chunks _ refl) [
          | inl (why, refused) ↦ rw (e, start_transfer, right, refused) capped
          | inr (inl again) ↦
              rw (e, start_transfer, right, again)
                (updated-IsCapped sha256 _ id db (λ r. refl) capped)
          | inr (inr new) ↦
              rw (e, start_transfer, right, new)
                (updated-IsCapped sha256 _ id _ (λ r. refl)
                  (inserted-IsCapped rel (inline_chunk id bytes) now db
                    (λ h. absurd (ground (arith, known, h))) capped))
        ]
      ]

  known_head :
      (row : AttachmentRow) (rows : List AttachmentRow) → is_orphan (row ∷ rows) row.head_id ≡ false
  unfolding is_orphan attachment
  known_head row rows = rw (bytes_eq_refl row.head_id, is_orphan) refl

  head_deleted :
      (row : AttachmentRow) (rows : List AttachmentRow)
      → attachment row.head_id rows ≡ none
      → delete_attachment row.head_id (row ∷ rows) ≡ rows
  unfolding delete_attachment
  head_deleted row rows unknown =
      rw (bytes_eq_refl row.head_id) (delete_attachment-none row.head_id rows unknown)

  pub inserted :
      (row : AttachmentRow) (rows : List AttachmentRow)
      → attachment row.head_id rows ≡ none
      → insert_head row rows ≡ ok (row ∷ rows)
  unfolding insert_head
  inserted row rows unknown = rw (unknown, insert_head) refl

  on_attach_head-IsCapped :
      (allowed : Bool) (expiry : Option ℕ) (rel id : List ℕ) (payload : HeadPayload) (now : ℕ)
      (db : AttachDb)
      → IsCapped db
      → IsCapped (on_attach_head sha256 allowed expiry rel id payload now db).0
  unfolding on_attach_head head_row
  on_attach_head-IsCapped false expiry rel id payload now db capped = capped
  on_attach_head-IsCapped true expiry rel id payload now db capped =
      let row = head_row rel id payload.head expiry now in
      elim (found_cases (attachment id db.attachments)) [
        | inr (old, known) ↦ rw (known, on_attach_head) capped
        | inl unknown ↦
            rw (unknown, on_attach_head, inserted row db.attachments unknown)
              (started-IsCapped rel id payload now _ (known_head row db.attachments)
                (rw (head_deleted row db.attachments unknown) capped)
                (IsCapped-heads db.attachments (row ∷ db.attachments) db.attachment_chunks
                  (is_orphan-cons row db.attachments) capped)
                payload.inline refl)
      ]

  erased_all-IsCapped :
      (rows : List AttachmentRow) (db : AttachDb) → IsCapped db → IsCapped (erase_all rows db)
  erased_all-IsCapped [] db capped = capped
  erased_all-IsCapped (row ∷ rows) db capped =
      erased_all-IsCapped rows (erase row.head_id db) (erase-IsCapped row.head_id db capped)

  -- The transfers of a connection: nothing at first, then heads, chunks and deletions in any order, whatever they
  -- hold, whether attachments are allowed or not.
  pub data Reach : AttachDb → Type 0 where
    start : Reach (record { attachments = []; attachment_chunks = [] })
    head :
        (db : AttachDb) (allowed : Bool) (expiry : Option ℕ) (rel id : List ℕ)
        (payload : HeadPayload) (now : ℕ)
        → Reach db
        → Reach (on_attach_head sha256 allowed expiry rel id payload now db).0
    chunk :
        (db : AttachDb) (rel : List ℕ) (c : AttachChunk) (now : ℕ)
        → Reach db
        → Reach (on_attach_chunk sha256 rel c now db).0
    deletion : (db : AttachDb) (target : List ℕ) → Reach db → Reach (on_delete_target target db)

  nothing-IsCapped : IsCapped (record { attachments = []; attachment_chunks = [] })
  unfolding s_chat6_core.Attach.Store.orphan_head_stats s_chat6_core.Attach.Store.orphan_rel_stats
  nothing-IsCapped = record {
    heads = λ id h. (omega arith, omega arith);
    rels = λ rel. (omega arith, omega arith);
  }

  -- Whatever heads, chunks and deletions come, in whatever order, the chunks that are stored under a head that
  -- is not known are at most 1024 and 25 MiB, and those of one relationship under heads that are not known
  -- are at most 4096 and 64 MiB.
  pub Reach-IsCapped : (db : AttachDb) → Reach db → IsCapped db
  unfolding on_delete_target
  Reach-IsCapped db start = nothing-IsCapped
  Reach-IsCapped _ (head db allowed expiry rel id payload now r) =
      on_attach_head-IsCapped allowed expiry rel id payload now db (Reach-IsCapped db r)
  Reach-IsCapped _ (chunk db rel c now r) =
      on_attach_chunk-IsCapped sha256 rel c now db (Reach-IsCapped db r)
  Reach-IsCapped _ (deletion db target r) =
      erased_all-IsCapped (for_message target db.attachments) db (Reach-IsCapped db r)
