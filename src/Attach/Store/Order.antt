-- ===== src/Attach/Store/Order.antt =====
-- The pieces of a transfer by their indexes.
use s_chat6_core.Common.{
  ℕ, suc, ◌+◌, ◌-◌, ◌≤◌, ◌<◌, ◌≡◌, refl, ap, ◌∙◌, arith, List, [], ◌∷◌, get_elem?, bytes_eq, leb,
  ◌==◌, false, if◌then◌else◌, Option, none, some, Bool-cases, inl, inr,
}
use s_chat6_core.Attach.Store.{ChunkRow, chunk, insert_by_idx, rows_for, data_of}

-- The bytes under an index.
abbrev pub find : ℕ → List ChunkRow → Option (List ℕ)
find i [] = none
find i (r ∷ rs) = if r.idx == i then some r.bytes else find i rs

-- Indexes that grow, from `k` on.
abbrev pub Strict : ℕ → List ChunkRow → Type 0
Strict k [] = Unit {0}
Strict k (r ∷ rs) = (k ≤ r.idx) × Strict (suc r.idx) rs

find-insert :
    (i : ℕ) (c : ChunkRow) (rs : List ChunkRow)
    → find i (insert_by_idx c rs) ≡ (if c.idx == i then some c.bytes else find i rs)
unfolding insert_by_idx
find-insert i c [] = refl
find-insert i c (r ∷ rs) = ground (arith, find-insert i c rs)

pub chunk-find :
    (id : List ℕ) (i : ℕ) (cs : List ChunkRow) → chunk id i cs ≡ find i (rows_for id cs)
unfolding chunk rows_for
chunk-find id i [] = refl
chunk-find id i (c ∷ cs) = elim (Bool-cases (bytes_eq c.head_id id)) [
  | inl same ↦
      rw (same, find-insert i c (rows_for id cs))
        (ap (λ t. if c.idx == i then some c.bytes else t) (chunk-find id i cs))
  | inr other ↦ rw other (chunk-find id i cs)
]

pub insert-Strict :
    (k : ℕ) (c : ChunkRow) (rs : List ChunkRow)
    → Strict k rs
    → k ≤ c.idx
    → find c.idx rs ≡ none
    → Strict k (insert_by_idx c rs)
unfolding insert_by_idx
insert-Strict k c [] s low absent = (low, tt)
insert-Strict k c (r ∷ rs) s low absent = elim (Bool-cases (leb c.idx r.idx)) [
  | inl before ↦ rw before (low, (ground (arith, before, absent), s.1))
  | inr behind ↦ rw behind (
    s.0,
    insert-Strict (suc r.idx) c rs s.1 (ground (arith, behind)) (ground (arith, absent, behind)),
  )
]

-- Below the first index there is nothing.
find-below : (k i : ℕ) (rs : List ChunkRow) → Strict k rs → i < k → find i rs ≡ none
find-below k i [] s h = refl
find-below k i (r ∷ rs) s h =
    let apart : (r.idx == i) ≡ false = ground (arith, s.0, h) in
    rw apart (find-below (suc r.idx) i rs s.1 (omega (arith, s.0, h)))

tail_found :
    (k : ℕ) (r : ChunkRow) (rs : List ChunkRow) (p : List ℕ) (ps : List (List ℕ))
    → r.idx ≡ k
    → (j : ℕ) → find (k + suc j) (r ∷ rs) ≡ get_elem? (p ∷ ps) (suc j)
    → find (suc k + j) rs ≡ get_elem? ps j
tail_found k r rs p ps e j h =
    let past : (r.idx == k + suc j) ≡ false = ground (arith, e) in
    let same : suc k + j ≡ k + suc j = omega arith in ap (λ t. find t rs) same ∙ (rw past at h)

-- Where every index has its piece, the pieces are those of the list.
pub data_of-pieces :
    (k : ℕ) (rs : List ChunkRow) (ps : List (List ℕ))
    → Strict k rs
    → ((j : ℕ) → find (k + j) rs ≡ get_elem? ps j)
    → data_of rs ≡ ps
data_of-pieces k [] [] s h = refl
data_of-pieces k [] (p ∷ ps) s h = absurd (ground (arith, h 0))
data_of-pieces k (r ∷ rs) [] s h = absurd (ground (arith, h (r.idx - k), s.0))
data_of-pieces k (r ∷ rs) (p ∷ ps) s h = elim (Bool-cases (r.idx == k)) [
  | inl here ↦
      let e : r.idx ≡ k = ground (arith, here) in
      let first : r.bytes ≡ p = ground (arith, h 0, e) in
      let rest =
        data_of-pieces (suc k) rs ps (rw e at s.1) (λ j. tail_found k r rs p ps e j (h (suc j))) in
      ap (λ t. t ∷ data_of rs) first ∙ ap (λ t. p ∷ t) rest
  | inr later ↦
      let above : k < r.idx = ground (arith, later, s.0) in
      absurd (ground (arith, h 0, find-below r.idx k (r ∷ rs) (omega arith, s.1) above))
]
