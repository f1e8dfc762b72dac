-- ===== src/Attach/Transfer/Caps.antt =====
-- The caps on chunks whose head is not known, and what an insertion or an erasure does to them.
use s_chat6_core.Common.{
  ℕ, ◌+◌, ◌≤◌, ◌<◌, ◌≡◌, ◌⊎◌, refl, sym, ap, ◌∙◌, arith, List, [], ◌∷◌, length, bytes_eq,
  bytes_eq_sound, subst, true, ◌&&◌, Option, none, some, ok, err, Bool-cases, inl, inr,
}
use s_chat6_core.Wire.Attach.Chunk.{AttachChunk}
use s_chat6_core.Attach.Store.{
  AttachmentRow, ChunkRow, StoreError, rewritten, delete_attachment, put_chunk, chunk,
  delete_chunks, orphan_head_stats, orphan_rel_stats, is_orphan,
}
use s_chat6_core.Attach.Store.Laws.{is_orphan-delete}
use s_chat6_core.Attach.Transfer.{
  AttachDb, max_orphan_chunks_per_head, max_orphan_bytes_per_head, max_orphan_chunks_per_rel,
  max_orphan_bytes_per_rel, erase,
}

-- Count and bytes within the caps.
abbrev pub IsWithin : ℕ × ℕ → ℕ → ℕ → Type 0
IsWithin s count bytes = (s.0 ≤ count) × (s.1 ≤ bytes)

-- The chunks of every head that is not known, and those of every relationship, are within their caps.
pub record IsCapped (db : AttachDb) : Type 0 where
  pub heads :
      (id : List ℕ)
      → is_orphan db.attachments id ≡ true
      → IsWithin
          (orphan_head_stats id db.attachment_chunks)
          max_orphan_chunks_per_head
          max_orphan_bytes_per_head
  pub rels :
      (rel : List ℕ)
      → IsWithin
          (orphan_rel_stats rel db.attachments db.attachment_chunks)
          max_orphan_chunks_per_rel
          max_orphan_bytes_per_rel

-- Fewer orphans among the heads make the counts smaller.
rel_stats-le :
    (rel : List ℕ) (rows rows' : List AttachmentRow) (cs : List ChunkRow)
    → ((x : List ℕ) → is_orphan rows' x ≡ true → is_orphan rows x ≡ true)
    → IsWithin
        (orphan_rel_stats rel rows' cs)
        (orphan_rel_stats rel rows cs).0
        (orphan_rel_stats rel rows cs).1
unfolding orphan_rel_stats
rel_stats-le rel rows rows' [] fewer = (omega arith, omega arith)
rel_stats-le rel rows rows' (c ∷ cs) fewer =
    ground (arith, rel_stats-le rel rows rows' cs fewer, fewer c.head_id)

pub IsCapped-heads :
    (rows rows' : List AttachmentRow) (cs : List ChunkRow)
    → ((x : List ℕ) → is_orphan rows' x ≡ true → is_orphan rows x ≡ true)
    → IsCapped (record { attachments = rows; attachment_chunks = cs })
    → IsCapped (record { attachments = rows'; attachment_chunks = cs })
IsCapped-heads rows rows' cs fewer c = record {
  heads = λ id h. c.heads id (fewer id h);
  rels = λ rel.
      let le = rel_stats-le rel rows rows' cs fewer in
      let within = c.rels rel in (omega (arith, le.0, within.0), omega (arith, le.1, within.1));
}

-- The erasure of one transfer.
head_stats-delete :
    (id x : List ℕ) (cs : List ChunkRow)
    → IsWithin
        (orphan_head_stats x (delete_chunks id cs))
        (orphan_head_stats x cs).0
        (orphan_head_stats x cs).1
unfolding orphan_head_stats delete_chunks
head_stats-delete id x [] = (omega arith, omega arith)
head_stats-delete id x (c ∷ cs) = ground (arith, head_stats-delete id x cs)

head_stats-deleted :
    (id : List ℕ) (cs : List ChunkRow) → orphan_head_stats id (delete_chunks id cs) ≡ (0, 0)
unfolding orphan_head_stats delete_chunks
head_stats-deleted id [] = refl
head_stats-deleted id (c ∷ cs) = ground (arith, head_stats-deleted id cs)

rel_stats-erase :
    (id rel : List ℕ) (rows : List AttachmentRow) (cs : List ChunkRow)
    → IsWithin
        (orphan_rel_stats rel (delete_attachment id rows) (delete_chunks id cs))
        (orphan_rel_stats rel rows cs).0
        (orphan_rel_stats rel rows cs).1
unfolding orphan_rel_stats delete_chunks
rel_stats-erase id rel rows [] = (omega arith, omega arith)
rel_stats-erase id rel rows (c ∷ cs) = elim (Bool-cases (bytes_eq c.head_id id)) [
  | inl same ↦ rw same (ground (arith, rel_stats-erase id rel rows cs))
  | inr other ↦
      rw other
        (ground (arith, rel_stats-erase id rel rows cs, is_orphan-delete id c.head_id rows other))
]

pub erase-IsCapped : (id : List ℕ) (db : AttachDb) → IsCapped db → IsCapped (erase id db)
unfolding erase
erase-IsCapped id db c = record {
  heads = λ x h. elim (Bool-cases (bytes_eq x id)) [
    | inl same ↦
        let gone =
          subst (λ t. orphan_head_stats t (delete_chunks id db.attachment_chunks) ≡ (0, 0))
            (sym (bytes_eq_sound x id same)) (head_stats-deleted id db.attachment_chunks) in
        ground (arith, gone)
    | inr other ↦
        let le = head_stats-delete id x db.attachment_chunks in
        let within = c.heads x (sym (is_orphan-delete id x db.attachments other) ∙ h) in
        (omega (arith, le.0, within.0), omega (arith, le.1, within.1))
  ];
  rels = λ rel.
      let le = rel_stats-erase id rel db.attachments db.attachment_chunks in
      let within = c.rels rel in (omega (arith, le.0, within.0), omega (arith, le.1, within.1));
}

-- Room for one more chunk, where its head is not known.
abbrev pub HasRoom : List ℕ → AttachChunk → AttachDb → Type 0
HasRoom rel c db =
    is_orphan db.attachments c.head_id ≡ true
    → ((orphan_head_stats c.head_id db.attachment_chunks).0 < max_orphan_chunks_per_head)
      × ((orphan_head_stats c.head_id db.attachment_chunks).1 + length c.bytes
          ≤ max_orphan_bytes_per_head)
      × ((orphan_rel_stats rel db.attachments db.attachment_chunks).0 < max_orphan_chunks_per_rel)
      × ((orphan_rel_stats rel db.attachments db.attachment_chunks).1 + length c.bytes
          ≤ max_orphan_bytes_per_rel)

abbrev pub row_of : List ℕ → AttachChunk → ℕ → ChunkRow
row_of rel c now = record {
  head_id = c.head_id;
  idx = c.index;
  bytes = c.bytes;
  rel_id = rel;
  created_at = now;
}

inserted-heads :
    (rel : List ℕ) (c : AttachChunk) (now : ℕ) (db : AttachDb) (id : List ℕ)
    → HasRoom rel c db
    → IsCapped db
    → is_orphan db.attachments id ≡ true
    → IsWithin
        (orphan_head_stats id (row_of rel c now ∷ db.attachment_chunks))
        max_orphan_chunks_per_head
        max_orphan_bytes_per_head
unfolding orphan_head_stats
inserted-heads rel c now db id room capped h = elim (Bool-cases (bytes_eq c.head_id id)) [
  | inl same ↦
      let e = bytes_eq_sound c.head_id id same in
      let (count, bytes, _, _) = room (subst (λ t. is_orphan db.attachments t ≡ true) (sym e) h) in
      let counts : orphan_head_stats c.head_id db.attachment_chunks
          ≡ orphan_head_stats id db.attachment_chunks =
        ap (λ t. orphan_head_stats t db.attachment_chunks) e in
      rw same (
        omega (arith, count, ap (λ (p : ℕ × ℕ). p.0) counts),
        omega (arith, bytes, ap (λ (p : ℕ × ℕ). p.1) counts),
      )
  | inr other ↦ rw other (capped.heads id h)
]

inserted-rels :
    (rel : List ℕ) (c : AttachChunk) (now : ℕ) (db : AttachDb) (rel' : List ℕ)
    → HasRoom rel c db
    → IsCapped db
    → IsWithin
        (orphan_rel_stats rel' db.attachments (row_of rel c now ∷ db.attachment_chunks))
        max_orphan_chunks_per_rel
        max_orphan_bytes_per_rel
unfolding orphan_rel_stats
inserted-rels rel c now db rel' room capped =
    elim (Bool-cases (bytes_eq rel rel' && is_orphan db.attachments c.head_id)) [
      | inl counted ↦
          let same : bytes_eq rel rel' ≡ true = ground (arith, counted) in
          let (_, _, count, bytes) = room (ground (arith, counted)) in
          let e = bytes_eq_sound rel rel' same in
          let counts : orphan_rel_stats rel db.attachments db.attachment_chunks
              ≡ orphan_rel_stats rel' db.attachments db.attachment_chunks =
            ap (λ t. orphan_rel_stats t db.attachments db.attachment_chunks) e in
          rw counted (
            omega (arith, count, ap (λ (p : ℕ × ℕ). p.0) counts),
            omega (arith, bytes, ap (λ (p : ℕ × ℕ). p.1) counts),
          )
      | inr not_counted ↦ rw not_counted (capped.rels rel')
    ]

pub inserted-IsCapped :
    (rel : List ℕ) (c : AttachChunk) (now : ℕ) (db : AttachDb)
    → HasRoom rel c db
    → IsCapped db
    → IsCapped (record db { attachment_chunks = row_of rel c now ∷ db.attachment_chunks })
inserted-IsCapped rel c now db room capped = record {
  heads = λ id h. inserted-heads rel c now db id room capped h;
  rels = λ rel'. inserted-rels rel c now db rel' room capped;
}

-- What `put_chunk` answers: an error, the table as it was, or one row more.
pub put_cases :
    (rel : List ℕ) (c : AttachChunk) (now : ℕ) (cs : List ChunkRow) (o : Option (List ℕ))
    → chunk c.head_id c.index cs ≡ o
    → ((e : StoreError) × (put_chunk c.head_id c.index c.bytes rel now cs ≡ err e))
      ⊎ ((put_chunk c.head_id c.index c.bytes rel now cs ≡ ok cs)
          ⊎ (put_chunk c.head_id c.index c.bytes rel now cs ≡ ok (row_of rel c now ∷ cs)))
unfolding put_chunk
put_cases rel c now cs none h = inr (inr (rw (h, put_chunk) refl))
put_cases rel c now cs (some prev) h = elim (Bool-cases (bytes_eq prev c.bytes)) [
  | inl same ↦ inr (inl (rw (h, put_chunk, same) refl))
  | inr other ↦ inl (rewritten c.head_id c.index, rw (h, put_chunk, other) refl)
]

pub found_cases : (o : Option AttachmentRow) → (o ≡ none) ⊎ ((row : AttachmentRow) × (o ≡ some row))
found_cases none = inl refl
found_cases (some row) = inr (row, refl)
