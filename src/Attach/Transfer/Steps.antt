-- ===== src/Attach/Transfer/Steps.antt =====
-- The handlers of crates/core/src/attach/mod.rs for a chunk, and the completion, against the caps. The sweep of
-- expired transfers, which makes orphans of their chunks, is not among them.
use s_chat6_core.Common.{
  ℕ, ◌≡◌, refl, sym, ◌∙◌, arith, List, [], length, ltb, leb, Bool, true, false, if◌then◌else◌,
  Option, none, some, Bool-cases, inl, inr,
}
use s_chat6_core.Wire.Attach.Chunk.{AttachChunk}
use s_chat6_core.Attach.Store.{
  AttachmentRow, attachment, update_head, note_chunk, marked, count_ones, is_orphan, chunks_for,
}
use s_chat6_core.Attach.Store.Laws.{is_orphan-update}
use s_chat6_core.Attach.Transfer.{
  AttachDb, AttachEvent, concat, is_announced, assemble, try_complete, over_cap, after_chunk,
  store_chunk, on_attach_chunk,
}
use s_chat6_core.Attach.Transfer.Caps.{
  IsCapped, IsCapped-heads, erase-IsCapped, HasRoom, inserted-IsCapped, put_cases, found_cases,
}

known_not_orphan :
    (id : List ℕ) (row : AttachmentRow) (db : AttachDb)
    → attachment id db.attachments ≡ some row
    → ¬ (is_orphan db.attachments id ≡ true)
unfolding is_orphan
known_not_orphan id row db known h = ground (arith, known, h)

module _ (sha256 : List ℕ → List ℕ) where
  room_left :
      (rel : List ℕ) (c : AttachChunk) (db : AttachDb)
      → over_cap sha256 rel c db ≡ false
      → HasRoom rel c db
  unfolding over_cap
  room_left rel c db free h = ground (arith, free)

  pub updated-IsCapped :
      (f : AttachmentRow → AttachmentRow) (id : List ℕ) (db : AttachDb)
      → ((r : AttachmentRow) → (f r).head_id ≡ r.head_id)
      → IsCapped db
      → IsCapped (record db { attachments = update_head id f db.attachments })
  updated-IsCapped f id db keeps capped =
      IsCapped-heads db.attachments (update_head id f db.attachments) db.attachment_chunks
        (λ x h. sym (is_orphan-update f keeps id x db.attachments) ∙ h) capped

  assemble-IsCapped :
      (id : List ℕ) (row : AttachmentRow) (stored : List (List ℕ)) (db : AttachDb)
      → IsCapped db
      → IsCapped (assemble sha256 id row stored db).0
  unfolding assemble
  assemble-IsCapped id row stored db capped =
      elim (Bool-cases (ltb (length stored) row.chunk_count)) [
        | inl few ↦ rw few capped
        | inr all ↦ elim (Bool-cases (is_announced sha256 row (concat stored))) [
          | inl good ↦ rw (all, good) (updated-IsCapped _ id db (λ r. refl) capped)
          | inr bad ↦ rw (all, bad) (erase-IsCapped id db capped)
        ]
      ]

  pub try_complete-IsCapped :
      (id : List ℕ) (db : AttachDb) → IsCapped db → IsCapped (try_complete sha256 id db).0
  unfolding try_complete
  try_complete-IsCapped id db capped =
      elim (attachment id db.attachments)
        as (λ found.
          IsCapped
            (elim found as (λ t. AttachDb × List AttachEvent) [
              | none ↦ (db, [])
              | some row ↦
                  if row.complete
                  then (db, [])
                  else assemble sha256 id row (chunks_for id db.attachment_chunks) db
            ]).0) [
              | none ↦ capped
              | some row ↦ elim (Bool-cases row.complete) [
                | inl done ↦ rw done capped
                | inr open_row ↦
                    rw open_row
                      (assemble-IsCapped id row (chunks_for id db.attachment_chunks) db capped)
              ]
            ]

  after_chunk-IsCapped :
      (id : List ℕ) (noted : Option Bool) (db : AttachDb)
      → IsCapped db
      → IsCapped (after_chunk sha256 id noted db).0
  unfolding after_chunk
  after_chunk-IsCapped id none db capped = capped
  after_chunk-IsCapped id (some false) db capped = capped
  after_chunk-IsCapped id (some true) db capped = try_complete-IsCapped id db capped

  noted-IsCapped :
      (id : List ℕ) (index : ℕ) (db : AttachDb)
      → IsCapped db
      → IsCapped (record db { attachments = (note_chunk id index db.attachments).0 })
  unfolding note_chunk
  noted-IsCapped id index db capped =
      elim (attachment id db.attachments)
        as (λ found. IsCapped (record db {
          attachments =
              (elim found as (λ t. List AttachmentRow × Option Bool) [
                | none ↦ (db.attachments, none)
                | some row ↦ if leb row.chunk_count index then (db.attachments, none) else (
                  update_head id (λ r. record r { chunks = marked row index }) db.attachments,
                  some (leb row.chunk_count (count_ones (marked row index))),
                )
              ]).0;
        })) [
          | none ↦ capped
          | some row ↦ elim (Bool-cases (leb row.chunk_count index)) [
            | inl out ↦ rw out capped
            | inr within ↦ rw within (updated-IsCapped _ id db (λ r. refl) capped)
          ]
        ]

  store_chunk-IsCapped :
      (rel : List ℕ) (c : AttachChunk) (now : ℕ) (db : AttachDb)
      → HasRoom rel c db
      → IsCapped db
      → IsCapped (store_chunk sha256 rel c now db).0
  unfolding store_chunk
  store_chunk-IsCapped rel c now db room capped =
      elim (put_cases rel c now db.attachment_chunks _ refl) [
        | inl (e, refused) ↦ rw (refused, store_chunk) capped
        | inr (inl again) ↦
            rw (again, store_chunk)
              (after_chunk-IsCapped c.head_id _ _ (noted-IsCapped c.head_id c.index db capped))
        | inr (inr new) ↦
            rw (new, store_chunk)
              (after_chunk-IsCapped c.head_id _ _
                (noted-IsCapped c.head_id c.index _ (inserted-IsCapped rel c now db room capped)))
      ]

  pub on_attach_chunk-IsCapped :
      (rel : List ℕ) (c : AttachChunk) (now : ℕ) (db : AttachDb)
      → IsCapped db
      → IsCapped (on_attach_chunk sha256 rel c now db).0
  unfolding on_attach_chunk
  on_attach_chunk-IsCapped rel c now db capped = elim (Bool-cases c.pad) [
    | inl filler ↦ rw filler capped
    | inr real ↦ elim (found_cases (attachment c.head_id db.attachments)) [
      | inl unknown ↦ elim (Bool-cases (over_cap sha256 rel c db)) [
        | inl full ↦ rw (real, unknown, on_attach_chunk, full) capped
        | inr free ↦
            rw (real, unknown, on_attach_chunk, free)
              (store_chunk-IsCapped rel c now db (room_left rel c db free) capped)
      ]
      | inr (row, known) ↦ elim (Bool-cases (leb row.chunk_count c.index)) [
        | inl out ↦ rw (real, known, on_attach_chunk, out) capped
        | inr within ↦
            rw (real, known, on_attach_chunk, within)
              (store_chunk-IsCapped rel c now db
                (λ h. absurd (known_not_orphan c.head_id row db known h)) capped)
      ]
    ]
  ]
