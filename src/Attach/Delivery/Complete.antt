-- ===== src/Attach/Delivery/Complete.antt =====
-- From a file at one end to the same file at the other: `plan_transfer`, the chunk table and `on_attach_head`.
use s_chat6_core.Common.{
  ℕ, ◌≤◌, ◌<◌, ◌≡◌, refl, sym, ap, subst, ◌∙◌, arith, List, [], ◌∷◌, length, is_empty,
  bytes_eq_refl, ==_refl, Bool, true, false, ◌||◌, if◌then◌else◌, Option, none, some, ok, ok_inj,
  inl, inr,
}
use s_chat6_core.Wire.Attach.Head.{AttachHead, max_attach}
use s_chat6_core.Attach.Plan.{AttachPlan, inline_max, plan_transfer}
use s_chat6_core.Attach.Plan.Assembled.{contents, plan_transfer-assembled}
use s_chat6_core.Attach.Store.{AttachmentRow, ChunkRow, attachment, rows_for, chunks_for}
use s_chat6_core.Attach.Transfer.{
  AttachDb, Handled, attachment_complete, concat, head_row, is_announced, try_complete,
  start_transfer, on_attach_head, attachment_bytes,
}
use s_chat6_core.Attach.Transfer.Verified.{try_complete-IsVerified}
use s_chat6_core.Attach.Transfer.Reach.{inserted}
use s_chat6_core.Attach.Delivery.{Covers, deliver, delivered-pieces}

module _ (sha256 : List ℕ → List ℕ) (expiry : Option ℕ) (id rel : List ℕ) (now : ℕ)
    (head : AttachHead) (rows : List AttachmentRow) (cs : List ChunkRow) where
  abbrev row : AttachmentRow
  row = head_row rel id head expiry now

  abbrev with_row : AttachDb
  with_row = record { attachments = row ∷ rows; attachment_chunks = cs }

  abbrev pub arrived : Handled
  arrived =
      on_attach_head sha256 true expiry rel id (record { head = head; inline = none }) now
        (record { attachments = rows; attachment_chunks = cs })

  found : attachment id with_row.attachments ≡ some row
  unfolding attachment head_row
  found = rw (bytes_eq_refl id) refl

  -- A head without a file, when it is new, leads to the look at its pieces.
  looks :
      start_transfer sha256 rel id (record { head = head; inline = none }) now with_row
      ≡ ((try_complete sha256 id with_row).0, ok (try_complete sha256 id with_row).1)
  unfolding start_transfer
  looks = refl

  taken :
      attachment id rows ≡ none
      → (out : Handled)
      → start_transfer sha256 rel id (record { head = head; inline = none }) now with_row ≡ out
      → arrived ≡ out
  unfolding on_attach_head
  taken unknown out e = rw (unknown, on_attach_head, inserted sha256 row rows unknown) e

  announced :
      head.uncompressed_n ≡ length (concat (chunks_for id cs))
      → head.content_sha256 ≡ sha256 (concat (chunks_for id cs))
      → is_announced sha256 row (concat (chunks_for id cs)) ≡ true
  unfolding is_announced head_row
  announced n hash =
      rw
        (
          n,
          hash,
          ==_refl (length (concat (chunks_for id cs))),
          bytes_eq_refl (sha256 (concat (chunks_for id cs))),
        )
        refl

  pending_row :
      (row.complete ≡ false) × (row.consumed ≡ false) × (row.chunk_count ≡ head.chunk_count)
  unfolding head_row
  pending_row = (refl, refl, refl)

  announced_row : (row.msg_id ≡ id)
  unfolding head_row
  announced_row = refl

  readable :
      (ps : List (List ℕ))
      → row.consumed ≡ false
      → 1 ≤ length ps
      → (if row.consumed || is_empty ps then none else some (concat ps)) ≡ some (concat ps)
  readable [] fresh one = absurd (omega (arith, one))
  readable (p ∷ ps) fresh one = rw fresh refl

  -- All pieces are there and are what the head announces: the transfer is complete, and the bytes are read.
  completes :
      attachment id rows ≡ none
      → head.chunk_count ≡ length (chunks_for id cs)
      → 1 ≤ length (chunks_for id cs)
      → head.uncompressed_n ≡ length (concat (chunks_for id cs))
      → head.content_sha256 ≡ sha256 (concat (chunks_for id cs))
      → (arrived.1 ≡ ok (attachment_complete id id ∷ []))
        × (attachment_bytes id arrived.0 ≡ some (concat (chunks_for id cs)))
  completes unknown count one n hash =
      let (closed, fresh, total) = pending_row in
      let e = taken unknown _ looks in
      elim (try_complete-IsVerified sha256 id row with_row found closed) [
        | inl (few, _) ↦ absurd (omega (arith, few, total, count))
        | inr (inl (wrong, _, _, _)) ↦ absurd (ground (arith, wrong, announced n hash))
        | inr (inr (_, _, told, bytes)) ↦ (
          ap (λ (o : Handled). o.1) e ∙ ap ok (told ∙ rw announced_row refl),
          ap (λ (o : Handled). attachment_bytes id o.0) e
              ∙ bytes
              ∙ readable (chunks_for id cs) fresh one,
        )
      ]

module _ (sha256 : List ℕ → List ℕ) (media_class : ℕ) (mime_hint orig_ext bytes caption : List ℕ)
    (view_once : Bool) (p : AttachPlan) where
  -- The plan of a file, as far as the other end needs it.
  abbrev IsPlanned : Type 0
  IsPlanned =
      (concat (contents p.chunks) ≡ bytes)
      × (length (contents p.chunks) ≡ p.head.chunk_count)
      × (1 ≤ p.head.chunk_count)
      × (p.head.uncompressed_n ≡ length bytes)
      × (p.head.content_sha256 ≡ sha256 bytes)

  pub planned :
      plan_transfer sha256 media_class mime_hint orig_ext bytes caption view_once ≡ ok p
      → inline_max < length bytes
      → length bytes ≤ max_attach
      → IsPlanned
  planned e large small =
      let (q, made, whole, _, count, _, _, one, _, _, n, hash) =
        plan_transfer-assembled sha256 media_class mime_hint orig_ext bytes caption view_once large
          small in
      let same : q ≡ p = ok_inj q p (sym made ∙ e) in
      subst
        (λ (t : AttachPlan).
          (concat (contents t.chunks) ≡ bytes)
          × (length (contents t.chunks) ≡ t.head.chunk_count)
          × (1 ≤ t.head.chunk_count)
          × (t.head.uncompressed_n ≡ length bytes)
          × (t.head.content_sha256 ≡ sha256 bytes))
        same (whole, count, one, n, hash)

  -- A file of 27001 bytes to 25 MiB is planned; its pieces are put into the chunk table of the other end in any
  -- order, each at least once, where nothing is stored under its id; then its head comes, which is new and
  -- allowed. Every piece is stored, the head reports the transfer complete, and the client reads the file.
  pub transfer-completes :
      (expiry : Option ℕ) (id rel : List ℕ) (now : ℕ) (rows : List AttachmentRow)
      (cs : List ChunkRow) (order : List ℕ)
      → plan_transfer sha256 media_class mime_hint orig_ext bytes caption view_once ≡ ok p
      → inline_max < length bytes
      → length bytes ≤ max_attach
      → Covers id rel now (contents p.chunks) order
      → rows_for id cs ≡ []
      → attachment id rows ≡ none
      → (cs' : List ChunkRow) × (deliver id rel now (contents p.chunks) order cs ≡ ok cs')
        × ((arrived sha256 expiry id rel now p.head rows cs').1
            ≡ ok (attachment_complete id id ∷ []))
        × (attachment_bytes id (arrived sha256 expiry id rel now p.head rows cs').0 ≡ some bytes)
  transfer-completes expiry id rel now rows cs order e large small covers nothing unknown =
      let (whole, count, one, n, hash) = planned e large small in
      let (cs', stored, pieces_of) =
        delivered-pieces id rel now (contents p.chunks) order cs covers nothing in
      let all : concat (chunks_for id cs') ≡ bytes = ap concat pieces_of ∙ whole in
      let many : length (chunks_for id cs') ≡ p.head.chunk_count =
        ap (λ (t : List (List ℕ)). length t) pieces_of ∙ count in
      let (told, read) =
        completes sha256 expiry id rel now p.head rows cs' unknown (sym many)
          (omega (arith, one, many)) (n ∙ ap (λ (t : List ℕ). length t) (sym all))
          (hash ∙ ap sha256 (sym all)) in
      (cs', stored, told, read ∙ ap some all)
