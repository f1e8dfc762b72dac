-- ===== src/Attach/Delivery.antt =====
-- The pieces of a plan, stored at the other end in some order, with repetitions.
pub mod Complete
use s_chat6_core.Common.{
  ℕ, zero, suc, ◌+◌, ◌≤◌, ◌<◌, ◌≡◌, ◌⊎◌, refl, sym, ap, subst, ◌∙◌, arith, List, [], ◌∷◌, length,
  get_elem?, elem, is_empty, bytes_eq, bytes_eq_refl, ltb, ◌==◌, ==_refl, Bool, true, false, not,
  ◌&&◌, ◌||◌, if◌then◌else◌, Option, none, some, Result, ok, err, ◌>>=◌, Bool-cases, inl, inr,
}
use s_chat6_core.Wire.Attach.Head.{AttachHead, max_attach}
use s_chat6_core.Attach.Plan.{AttachPlan, inline_max, pieces, plan_transfer}
use s_chat6_core.Attach.Plan.Assembled.{contents, plan_transfer-assembled}
use s_chat6_core.Attach.Store.{
  AttachmentRow, ChunkRow, StoreError, attachment, chunk, put_chunk, rows_for, chunks_for, data_of,
}
use s_chat6_core.Attach.Store.Order.{Strict, find, chunk-find, insert-Strict, data_of-pieces}
use s_chat6_core.Attach.Transfer.{
  AttachDb, AttachEvent, attachment_complete, concat, head_row, is_announced, try_complete,
  start_transfer, on_attach_head, attachment_bytes,
}

module _ (id rel : List ℕ) (now : ℕ) (ps : List (List ℕ)) where
  -- One piece is stored; an index that the plan does not have is no chunk of it.
  abbrev place : ℕ → Option (List ℕ) → List ChunkRow → Result StoreError (List ChunkRow)
  place i none cs = ok cs
  place i (some bytes) cs = put_chunk id i bytes rel now cs

  abbrev pub deliver : List ℕ → List ChunkRow → Result StoreError (List ChunkRow)
  deliver [] cs = ok cs
  deliver (i ∷ order) cs = place i (get_elem? ps i) cs >>= λ cs'. deliver order cs'

  -- What has come so far is part of the plan.
  record IsPartial (cs : List ChunkRow) : Type 0 where
    strict : Strict 0 (rows_for id cs)
    right : (j : ℕ) → (chunk id j cs ≡ none) ⊎ (chunk id j cs ≡ get_elem? ps j)

  abbrev Keeps : List ChunkRow → List ChunkRow → Type 0
  Keeps cs cs' = (j : ℕ) → chunk id j cs ≡ get_elem? ps j → chunk id j cs' ≡ get_elem? ps j

  abbrev row_of : ℕ → List ℕ → ChunkRow
  row_of i bytes = record { head_id = id; idx = i; bytes = bytes; rel_id = rel; created_at = now }

  chunk-cons :
      (i j : ℕ) (bytes : List ℕ) (cs : List ChunkRow)
      → chunk id j (row_of i bytes ∷ cs) ≡ (if i == j then some bytes else chunk id j cs)
  unfolding chunk
  chunk-cons i j bytes cs = rw (bytes_eq_refl id) refl

  same_index : (i j : ℕ) → (i == j) ≡ true → i ≡ j
  same_index i j h = ground (arith, h)

  cons-right :
      (i : ℕ) (bytes : List ℕ) (cs : List ChunkRow) (j : ℕ)
      → get_elem? ps i ≡ some bytes
      → (chunk id j cs ≡ none) ⊎ (chunk id j cs ≡ get_elem? ps j)
      → (chunk id j (row_of i bytes ∷ cs) ≡ none)
        ⊎ (chunk id j (row_of i bytes ∷ cs) ≡ get_elem? ps j)
  cons-right i bytes cs j piece before = elim (Bool-cases (i == j)) [
    | inl same ↦ inr (
        chunk-cons i j bytes cs
        ∙ rw same (sym piece ∙ ap (λ t. get_elem? ps t) (same_index i j same)))
    | inr other ↦ rw (chunk-cons i j bytes cs, other) before
  ]

  cons-IsPartial :
      (i : ℕ) (bytes : List ℕ) (cs : List ChunkRow)
      → get_elem? ps i ≡ some bytes
      → chunk id i cs ≡ none
      → IsPartial cs
      → IsPartial (row_of i bytes ∷ cs)
  unfolding rows_for
  cons-IsPartial i bytes cs piece absent p = record {
    strict = rw (bytes_eq_refl id) (
        insert-Strict 0 (row_of i bytes) (rows_for id cs) p.strict (omega arith)
          (sym (chunk-find id i cs) ∙ absent));
    right = λ j. cons-right i bytes cs j piece (p.right j);
  }

  -- One delivery: the piece is stored or was already there, and nothing else changes.
  abbrev Placed : ℕ → Option (List ℕ) → List ChunkRow → Type 0
  Placed i o cs =
      (cs' : List ChunkRow) × (place i o cs ≡ ok cs')
      × IsPartial cs'
      × Keeps cs cs'
      × (chunk id i cs' ≡ get_elem? ps i)

  -- Where the plan has nothing, nothing has come.
  right_none :
      (j : ℕ) (cs : List ChunkRow) → IsPartial cs → get_elem? ps j ≡ none → chunk id j cs ≡ none
  right_none j cs p e = elim (p.right j) [ inl absent ↦ absent | inr there ↦ there ∙ e ]

  cons-Keeps :
      (i : ℕ) (bytes : List ℕ) (cs : List ChunkRow)
      → get_elem? ps i ≡ some bytes
      → Keeps cs (row_of i bytes ∷ cs)
  cons-Keeps i bytes cs piece j h = elim (Bool-cases (i == j)) [
    | inl same ↦
        chunk-cons i j bytes cs
        ∙ rw same (sym piece ∙ ap (λ t. get_elem? ps t) (same_index i j same))
    | inr other ↦ chunk-cons i j bytes cs ∙ rw other h
  ]

  placed :
      (i : ℕ) (cs : List ChunkRow) (o : Option (List ℕ))
      → get_elem? ps i ≡ o
      → IsPartial cs
      → Placed i o cs
  unfolding put_chunk
  placed i cs none e p = (cs, refl, p, (λ j h. h), right_none i cs p e ∙ sym e)
  placed i cs (some bytes) e p = elim (p.right i) [
    | inl absent ↦ (
      row_of i bytes ∷ cs,
      rw (absent, put_chunk) refl,
      cons-IsPartial i bytes cs e absent p,
      cons-Keeps i bytes cs e,
      chunk-cons i i bytes cs ∙ rw (==_refl i) (sym e),
    )
    | inr there ↦ (cs, rw (there ∙ e, put_chunk, bytes_eq_refl bytes) refl, p, (λ j h. h), there)
  ]

  -- Every delivery succeeds, and what has been delivered is there.
  abbrev Delivered : List ℕ → List ChunkRow → Type 0
  Delivered order cs =
      (cs' : List ChunkRow) × (deliver order cs ≡ ok cs')
      × IsPartial cs'
      × Keeps cs cs'
      × ((j : ℕ) → elem j order ≡ true → chunk id j cs' ≡ get_elem? ps j)

  delivered : (order : List ℕ) (cs : List ChunkRow) → IsPartial cs → Delivered order cs
  delivered [] cs p = (cs, refl, p, (λ j h. h), λ j h. cc)
  delivered (i ∷ order) cs p =
      let (cs1, e1, p1, keeps1, here) = placed i cs (get_elem? ps i) refl p in
      let (cs2, e2, p2, keeps2, there) = delivered order cs1 p1 in
      (
        cs2,
        rw (e1, e2) refl,
        p2,
        (λ j h. keeps2 j (keeps1 j h)),
        λ j h. elim (Bool-cases (i == j)) [
          | inl same ↦
              let e = same_index i j same in
              subst (λ t. chunk id t cs2 ≡ get_elem? ps t) e (keeps2 i here)
          | inr other ↦ there j (rw other at h)
        ],
      )

  abbrev pub Covers : List ℕ → Type 0
  Covers order = (j : ℕ) → j < length ps → elem j order ≡ true

  get_elem?-none : (qs : List (List ℕ)) (j : ℕ) → length qs ≤ j → get_elem? qs j ≡ none
  get_elem?-none [] j h = refl
  get_elem?-none (q ∷ qs) zero h = absurd (omega arith)
  get_elem?-none (q ∷ qs) (suc j) h = get_elem?-none qs j (omega (arith, h))

  find_zero :
      (j : ℕ) (cs : List ChunkRow)
      → chunk id j cs ≡ get_elem? ps j
      → find (0 + j) (rows_for id cs) ≡ get_elem? ps j
  find_zero j cs h =
      let e : 0 + j ≡ j = omega arith in
      ap (λ t. find t (rows_for id cs)) e ∙ sym (chunk-find id j cs) ∙ h

  -- Pieces that are stored in any order, each at least once, stand there in the order of the plan.
  pub delivered-pieces :
      (order : List ℕ) (cs : List ChunkRow)
      → Covers order
      → rows_for id cs ≡ []
      → (cs' : List ChunkRow) × (deliver order cs ≡ ok cs') × (chunks_for id cs' ≡ ps)
  unfolding chunks_for
  delivered-pieces order cs covers nothing =
      let start : IsPartial cs = record {
        strict = rw nothing tt;
        right = λ j. inl (chunk-find id j cs ∙ rw nothing refl);
      } in
      let (cs', e, p, keeps, there) = delivered order cs start in
      let each = λ (j : ℕ).
        elim (Bool-cases (ltb j (length ps))) as (λ b. chunk id j cs' ≡ get_elem? ps j) [
          | inl within ↦ there j (covers j (ground (arith, within)))
          | inr past ↦
              let beyond = get_elem?-none ps j (ground (arith, past)) in
              right_none j cs' p beyond ∙ sym beyond
        ] in
      (cs', e, data_of-pieces 0 (rows_for id cs') ps p.strict (λ j. find_zero j cs' (each j)))
