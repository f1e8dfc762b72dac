-- ===== src/Attach/Transfer/Verified.antt =====
-- What `try_complete` can do, and what the client reads then.
use s_chat6_core.Common.{
  ℕ, ◌<◌, ◌≡◌, ◌⊎◌, refl, arith, List, [], ◌∷◌, length, is_empty, bytes_eq_sound, ltb, ltb→lt, true,
  false, ◌||◌, if◌then◌else◌, none, some, Bool-cases, inl, inr,
}
use s_chat6_core.Attach.Store.{AttachmentRow, attachment, update_head, chunks_for}
use s_chat6_core.Attach.Store.Laws.{attachment-delete, rows_for-delete, attachment-update_some}
use s_chat6_core.Attach.Transfer.{
  AttachDb, AttachEvent, attachment_failed, attachment_complete, concat, full_bitmap, erase,
  is_announced, assemble, try_complete, attachment_bytes,
}

module _ (sha256 : List ℕ → List ℕ) (id : List ℕ) (row : AttachmentRow) (db : AttachDb) where
  abbrev pub stored : List (List ℕ)
  stored = chunks_for id db.attachment_chunks

  -- Pieces are missing: nothing happens.
  abbrev pub IsWaiting : AttachDb × List AttachEvent → Type 0
  IsWaiting out = (length stored < row.chunk_count) × (out ≡ (db, []))

  -- The pieces are not what was announced: the transfer is gone.
  abbrev pub IsFailed : AttachDb × List AttachEvent → Type 0
  IsFailed out =
      (is_announced sha256 row (concat stored) ≡ false)
      × (attachment id out.0.attachments ≡ none)
      × (chunks_for id out.0.attachment_chunks ≡ [])
      × (out.1 ≡ attachment_failed id ∷ [])

  -- The pieces are what was announced, and the client reads them unless there are none or they were viewed.
  abbrev pub IsVerified : AttachDb × List AttachEvent → Type 0
  IsVerified out =
      (length (concat stored) ≡ row.uncompressed_n)
      × (sha256 (concat stored) ≡ row.content_sha256)
      × (out.1 ≡ attachment_complete id row.msg_id ∷ [])
      × (attachment_bytes id out.0
          ≡ (if row.consumed || is_empty stored then none else some (concat stored)))

  announced_sound :
      is_announced sha256 row (concat stored) ≡ true
      → (length (concat stored) ≡ row.uncompressed_n)
        × (sha256 (concat stored) ≡ row.content_sha256)
  unfolding is_announced
  announced_sound h = (
    ground (arith, h),
    bytes_eq_sound (sha256 (concat stored)) row.content_sha256 (ground (arith, h)),
  )

  failed :
      is_announced sha256 row (concat stored) ≡ false
      → IsFailed (erase id db, attachment_failed id ∷ [])
  unfolding erase chunks_for
  failed h = (
    h,
    attachment-delete id db.attachments,
    rw (rows_for-delete id db.attachment_chunks) refl,
    refl,
  )

  -- The row with every bit set.
  abbrev finished : AttachmentRow → AttachmentRow
  finished r = record r { chunks = full_bitmap row.chunk_count; complete = true }

  read_back :
      attachment id db.attachments ≡ some row
      → attachment_bytes id (record db { attachments = update_head id finished db.attachments })
        ≡ (if row.consumed || is_empty stored then none else some (concat stored))
  unfolding attachment_bytes
  read_back e =
      rw (attachment-update_some finished (λ r. refl) id db.attachments row e, attachment_bytes)
        refl

  -- An incomplete transfer, when its pieces are looked at, is in one of three cases, which say all that
  -- happens: pieces are missing and nothing happens; or the pieces do not have the length and the hash that
  -- the head has announced, and the row and every piece are gone; or they have both, the transfer is reported
  -- complete, and the client reads exactly these bytes, unless there are none or they were viewed.
  pub try_complete-IsVerified :
      attachment id db.attachments ≡ some row
      → row.complete ≡ false
      → IsWaiting (try_complete sha256 id db)
        ⊎ (IsFailed (try_complete sha256 id db) ⊎ IsVerified (try_complete sha256 id db))
  unfolding try_complete assemble
  try_complete-IsVerified e open_row =
      rw (e, try_complete, open_row)
        (elim (Bool-cases (ltb (length stored) row.chunk_count)) [
          | inl few ↦ rw few (inl (ltb→lt _ _ few, refl))
          | inr all ↦ elim (Bool-cases (is_announced sha256 row (concat stored))) [
            | inl good ↦
                let (n, hash) = announced_sound good in
                rw (all, good) (inr (inr (n, hash, refl, read_back e)))
            | inr bad ↦
                let (_, gone, erased, told) = failed bad in
                rw (all, bad) (inr (inl (refl, gone, erased, told)))
          ]
        ])
