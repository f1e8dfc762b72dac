-- ===== src/Sync/View/Horizon.antt =====
-- The walk along the contiguous seqs.
use s_chat6_core.Common.{
  elem, ℕ, ◌+◌, ◌≤◌, ◌<◌, ◌≡◌, refl, arith, List, [], ◌∷◌, leb, ◌==◌, false, ◌||◌, Bool-cases, inl,
  inr,
}
use s_chat6_core.Sync.View.{walk}

-- Strictly ascending, and every number above `low`.
abbrev pub Ascending : ℕ → List ℕ → Type 0
Ascending low [] = Unit {0}
Ascending low (x ∷ xs) = (low < x) × Ascending x xs

pub Ascending-weaken :
    (low low' : ℕ) (xs : List ℕ) → low' ≤ low → Ascending low xs → Ascending low' xs
Ascending-weaken low low' [] h a = tt
Ascending-weaken low low' (x ∷ xs) h a = (omega (arith, a.0), a.1)

-- What an ascending list holds is above its bound.
pub elem-below : (s low : ℕ) (xs : List ℕ) → Ascending low xs → s ≤ low → elem s xs ≡ false
elem-below s low [] a h = refl
elem-below s low (x ∷ xs) a h = ground (arith, elem-below s x xs a.1 (omega (arith, a.0)))

-- The walk stops before the first gap: what it has passed is received, it never goes back, and the
-- seqs that are left stand above the gap.
pub walk_lem :
    (max : ℕ) (xs : List ℕ)
    → Ascending max xs
    → (max ≤ (walk max xs).0)
      × Ascending ((walk max xs).0 + 1) (walk max xs).1
      × ((s : ℕ) → max < s → elem s xs ≡ (leb s (walk max xs).0 || elem s (walk max xs).1))
unfolding walk
walk_lem max [] a = (omega arith, tt, λ s h. ground arith)
walk_lem max (x ∷ xs) a = elim (Bool-cases (x == max + 1)) [
  | inl next ↦
      let (up, above, held) =
        walk_lem (max + 1) xs (Ascending-weaken x (max + 1) xs (ground arith) a.1) in
      rw next (omega arith, above, λ s h. ground (arith, held s))
  | inr gap ↦ rw gap (omega arith, (ground arith, a.1), λ s h. ground arith)
]
