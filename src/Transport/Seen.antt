-- ===== src/Transport/Seen.antt =====
-- The ring of recent fingerprints: crates/core/src/transport/seen.rs. The digest of a frame is an
-- argument: SHA3-256 is not code of the repository.
pub mod Lru
use s_chat6_core.Common.{
  ℕ, ◌+◌, List, [], ◌∷◌, ◌++◌, length, take, ltb, Bool, true, false, ◌||◌, not, if◌then◌else◌,
}
use s_chat6_core.Common.{bytes_eq}

abbrev fp_bytes : ℕ
fp_bytes = 16

unfoldable pub fingerprint : (List ℕ → List ℕ) → List ℕ → List ℕ
fingerprint digest frame = take fp_bytes (digest frame)

-- The hash set is the list of its members.
pub record SeenRing : Type 0 where
  pub capacity : ℕ
  pub order : List (List ℕ)
  pub set : List (List ℕ)

unfoldable new_ring : ℕ → SeenRing
new_ring capacity = record { capacity = capacity; order = []; set = [] }

unfoldable pub contains : List ℕ → List (List ℕ) → Bool
contains fp [] = false
contains fp (x ∷ xs) = bytes_eq x fp || contains fp xs

-- `retain(|f| f != &fp)` on the queue, and `remove` on the set.
unfoldable pub retain_other : List ℕ → List (List ℕ) → List (List ℕ)
retain_other fp [] = []
retain_other fp (x ∷ xs) = if bytes_eq x fp then retain_other fp xs else x ∷ retain_other fp xs

unfoldable pub insert : List ℕ → List (List ℕ) → List (List ℕ)
unfolding contains
insert fp set = if contains fp set then set else fp ∷ set

-- The `while` loop: the oldest fingerprints go, from the queue and from the set.
unfoldable pub evict : ℕ → List (List ℕ) → List (List ℕ) → List (List ℕ) × List (List ℕ)
unfolding retain_other
evict capacity [] set = ([], set)
evict capacity (old ∷ order) set =
    let rest = evict capacity order (retain_other old set) in
    if ltb capacity (length (old ∷ order)) then rest else (old ∷ order, set)

unfoldable pub mark : List ℕ → SeenRing → SeenRing × Bool
unfolding contains retain_other insert evict
mark fp ring =
    if contains fp ring.set
    then (record ring { order = retain_other fp ring.order ++ (fp ∷ []) }, true)
    else let (order, set) = evict ring.capacity (ring.order ++ (fp ∷ [])) (insert fp ring.set) in
      (record ring { order = order; set = set }, false)

unfoldable seen_or_mark : (List ℕ → List ℕ) → List ℕ → SeenRing → SeenRing × Bool
unfolding fingerprint mark
seen_or_mark digest frame ring = mark (fingerprint digest frame) ring
