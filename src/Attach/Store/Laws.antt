-- ===== src/Attach/Store/Laws.antt =====
-- Lookups in the tables of the transfers after an update or a deletion.
use s_chat6_core.Common.{
  ℕ, ◌≡◌, refl, sym, ap, subst, bytes_eq-sym, ◌∙◌, arith, List, [], ◌∷◌, bytes_eq, bytes_eq_sound,
  true, false, Bool-cases, inl, inr, none, some,
}
use s_chat6_core.Attach.Store.{
  AttachmentRow, ChunkRow, attachment, update_head, delete_attachment, rows_for, delete_chunks,
  is_orphan,
}

pub attachment-delete :
    (id : List ℕ) (rows : List AttachmentRow) → attachment id (delete_attachment id rows) ≡ none
unfolding attachment delete_attachment
attachment-delete id [] = refl
attachment-delete id (row ∷ rows) = ground (arith, attachment-delete id rows)

pub rows_for-delete : (id : List ℕ) (cs : List ChunkRow) → rows_for id (delete_chunks id cs) ≡ []
unfolding rows_for delete_chunks
rows_for-delete id [] = refl
rows_for-delete id (c ∷ cs) = elim (Bool-cases (bytes_eq c.head_id id)) [
  | inl same ↦ rw same (rows_for-delete id cs)
  | inr other ↦ rw (other, other) (rows_for-delete id cs)
]

-- A row that is found is the row of that id.
attachment-head_id :
    (id : List ℕ) (rows : List AttachmentRow) (row : AttachmentRow)
    → attachment id rows ≡ some row
    → row.head_id ≡ id
unfolding attachment
attachment-head_id id [] row e = cc
attachment-head_id id (r ∷ rows) row e = elim (Bool-cases (bytes_eq r.head_id id)) [
  | inl same ↦
      let found : r ≡ row = ground (arith, e, same) in
      ap (λ (t : AttachmentRow). t.head_id) (sym found) ∙ bytes_eq_sound r.head_id id same
  | inr other ↦ attachment-head_id id rows row (ground (arith, e, other))
]

module _ (f : AttachmentRow → AttachmentRow)
    (keeps : (r : AttachmentRow) → (f r).head_id ≡ r.head_id) where
  pub attachment-update_some :
      (id : List ℕ) (rows : List AttachmentRow) (row : AttachmentRow)
      → attachment id rows ≡ some row
      → attachment id (update_head id f rows) ≡ some (f row)
  unfolding attachment update_head
  attachment-update_some id [] row e = cc
  attachment-update_some id (r ∷ rows) row e = elim (Bool-cases (bytes_eq r.head_id id)) [
    | inl same ↦
        let found : r ≡ row = ground (arith, e, same) in
        let kept : bytes_eq (f r).head_id id ≡ true = ap (λ h. bytes_eq h id) (keeps r) ∙ same in
        rw (same, kept) (ap (λ t. some (f t)) found)
    | inr other ↦ rw (other, other) (attachment-update_some id rows row (ground (arith, e, other)))
  ]

  pub is_orphan-update :
      (id x : List ℕ) (rows : List AttachmentRow)
      → is_orphan (update_head id f rows) x ≡ is_orphan rows x
  unfolding is_orphan attachment update_head
  is_orphan-update id x [] = refl
  is_orphan-update id x (r ∷ rows) =
      let kept : bytes_eq (f r).head_id x ≡ bytes_eq r.head_id x =
        ap (λ h. bytes_eq h x) (keeps r) in
      elim (Bool-cases (bytes_eq r.head_id id)) [
        | inl same ↦ rw same (ground (arith, kept, is_orphan-update id x rows))
        | inr other ↦ rw other (ground (arith, is_orphan-update id x rows))
      ]

-- What is an orphan after one more head was one before.
pub is_orphan-cons :
    (row : AttachmentRow) (rows : List AttachmentRow) (x : List ℕ)
    → is_orphan (row ∷ rows) x ≡ true
    → is_orphan rows x ≡ true
unfolding is_orphan attachment
is_orphan-cons row rows x h = ground (arith, h)

-- A head that is not there is not deleted.
pub delete_attachment-none :
    (id : List ℕ) (rows : List AttachmentRow)
    → attachment id rows ≡ none
    → delete_attachment id rows ≡ rows
unfolding attachment delete_attachment
delete_attachment-none id [] e = refl
delete_attachment-none id (row ∷ rows) e = elim (Bool-cases (bytes_eq row.head_id id)) [
  | inl same ↦ absurd (ground (arith, e, same))
  | inr other ↦
      rw other (ap (λ t. row ∷ t) (delete_attachment-none id rows (ground (arith, e, other))))
]

-- The deletion of one head leaves the others.
pub is_orphan-delete :
    (id x : List ℕ) (rows : List AttachmentRow)
    → bytes_eq x id ≡ false
    → is_orphan (delete_attachment id rows) x ≡ is_orphan rows x
unfolding is_orphan attachment delete_attachment
is_orphan-delete id x [] other = refl
is_orphan-delete id x (row ∷ rows) other =
    let apart : bytes_eq row.head_id id ≡ true → bytes_eq row.head_id x ≡ false = λ same.
      bytes_eq-sym x row.head_id
        (subst (λ h. bytes_eq x h ≡ false) (sym (bytes_eq_sound row.head_id id same)) other) in
    ground (arith, is_orphan-delete id x rows other, apart)
