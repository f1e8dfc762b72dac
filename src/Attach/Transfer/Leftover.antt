-- ===== src/Attach/Transfer/Leftover.antt =====
-- An inline head whose chunks came first.
use s_chat6_core.Common.{
  ℕ, ◌≡◌, refl, ap, ◌∙◌, arith, List, [], ◌∷◌, ◌++◌, bytes_eq, bytes_eq_refl, leb, true, Option,
  none, some, ok,
}
use s_chat6_core.Wire.Attach.Head.{AttachHead}
use s_chat6_core.Attach.Store.{
  AttachmentRow, ChunkRow, attachment, chunk, put_chunk, rows_for, insert_by_idx, chunks_for,
  update_head,
}
use s_chat6_core.Attach.Store.Laws.{attachment-update_some}
use s_chat6_core.Attach.Transfer.{
  AttachDb, Handled, attachment_complete, concat, head_row, start_transfer, on_attach_head,
  attachment_bytes,
}
use s_chat6_core.Attach.Transfer.Reach.{inserted}

-- Chunk 0 comes first.
first_row : (c : ChunkRow) (ds : List ChunkRow) → c.idx ≡ 0 → insert_by_idx c ds ≡ c ∷ ds
unfolding insert_by_idx
first_row c [] e = refl
first_row c (d ∷ ds) e = let low : leb c.idx d.idx ≡ true = ground (arith, e) in rw low refl

rows_for-first :
    (id bytes rel : List ℕ) (now : ℕ) (cs : List ChunkRow)
    → chunks_for id
        (record { head_id = id; idx = 0; bytes = bytes; rel_id = rel; created_at = now } ∷ cs)
      ≡ bytes ∷ chunks_for id cs
unfolding chunks_for rows_for
rows_for-first id bytes rel now cs =
    rw
      (
        bytes_eq_refl id,
        first_row (record { head_id = id; idx = 0; bytes = bytes; rel_id = rel; created_at = now })
            (rows_for id cs) refl,
      )
      refl

module _ (sha256 : List ℕ → List ℕ) (expiry : Option ℕ) (rel id bytes : List ℕ) (head : AttachHead)
    (now : ℕ) (db : AttachDb) where
  abbrev row : AttachmentRow
  row = head_row rel id head expiry now

  abbrev finished : AttachmentRow → AttachmentRow
  finished r = record r { complete = true }

  abbrev after : AttachDb
  after = record {
    attachments = update_head id finished (row ∷ db.attachments);
    attachment_chunks =
        record { head_id = id; idx = 0; bytes = bytes; rel_id = rel; created_at = now }
        ∷ db.attachment_chunks;
  }

  found : attachment id (row ∷ db.attachments) ≡ some row
  unfolding attachment head_row
  found = rw (bytes_eq_refl id) refl

  read_back :
      attachment_bytes id after ≡ some (bytes ++ concat (chunks_for id db.attachment_chunks))
  unfolding attachment_bytes head_row
  read_back =
      rw
        (
          attachment-update_some finished (λ r. refl) id (row ∷ db.attachments) row found,
          attachment_bytes,
          rows_for-first id bytes rel now db.attachment_chunks,
        )
        refl

  abbrev out : Handled
  out =
      on_attach_head sha256 true expiry rel id (record { head = head; inline = some bytes }) now db

  stored_first :
      chunk id 0 db.attachment_chunks ≡ none
      → put_chunk id 0 bytes rel now db.attachment_chunks ≡ ok after.attachment_chunks
  unfolding put_chunk
  stored_first fresh = rw (fresh, put_chunk) refl

  completed :
      attachment id db.attachments ≡ none
      → chunk id 0 db.attachment_chunks ≡ none
      → bytes_eq (sha256 bytes) head.content_sha256 ≡ true
      → out ≡ (after, ok (attachment_complete id id ∷ []))
  unfolding on_attach_head start_transfer head_row
  completed unknown fresh right =
      rw
        (
          unknown,
          on_attach_head,
          inserted sha256 row db.attachments unknown,
          right,
          stored_first fresh,
        )
        refl

  -- An inline head that is new, with bytes of the announced hash and no chunk 0 stored, is reported complete at
  -- once, and the client then reads its bytes with everything behind them that was stored under this id before
  -- the head: those chunks are neither removed nor verified.
  pub inline_head-appends :
      attachment id db.attachments ≡ none
      → chunk id 0 db.attachment_chunks ≡ none
      → bytes_eq (sha256 bytes) head.content_sha256 ≡ true
      → (out.1 ≡ ok (attachment_complete id id ∷ []))
        × (attachment_bytes id out.0 ≡ some (bytes ++ concat (chunks_for id db.attachment_chunks)))
  inline_head-appends unknown fresh right =
      let e = completed unknown fresh right in
      (ap (λ (o : Handled). o.1) e, ap (λ (o : Handled). attachment_bytes id o.0) e ∙ read_back)
