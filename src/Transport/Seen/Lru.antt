-- ===== src/Transport/Seen/Lru.antt =====
-- The ring against a least-recently-used list of fingerprints.
use s_chat6_core.Common.{
  suc, ℕ, ◌-◌, ◌≤◌, ◌<◌, ◌≡◌, refl, ap, sym, ◌∙◌, arith, List, [], ◌∷◌, ◌++◌, length, drop, ltb,
  true, false, ◌||◌, ◌&&◌, not, bytes_eq, bytes_eq_sound, bytes_eq_refl, bytes_eq-sym, Bool-cases,
  inl, inr, length-append,
}
use s_chat6_core.Transport.Seen.{SeenRing, contains, retain_other, evict, mark}

-- No fingerprint stands twice in the queue.
abbrev pub Distinct : List (List ℕ) → Type 0
Distinct [] = Unit {0}
Distinct (x ∷ xs) = (contains x xs ≡ false) × Distinct xs

-- The queue has no repetition and fits, and the set holds what the queue holds.
pub record IsRing (ring : SeenRing) : Type 0 where
  pub distinct : Distinct ring.order
  pub fits : length ring.order ≤ ring.capacity
  pub same : (fp : List ℕ) → contains fp ring.set ≡ contains fp ring.order

-- The abstract view: a fingerprint that comes goes to the end, and of the others the last `capacity` stay.
unfoldable pub touch : ℕ → List ℕ → List (List ℕ) → List (List ℕ)
touch capacity fp order =
    let all = retain_other fp order ++ (fp ∷ []) in drop (length all - capacity) all

contains-append :
    (fp : List ℕ) (xs ys : List (List ℕ))
    → contains fp (xs ++ ys) ≡ (contains fp xs || contains fp ys)
unfolding contains
contains-append fp [] ys = refl
contains-append fp (x ∷ xs) ys = ground (arith, contains-append fp xs ys)

bytes_eq-cong : (a b c : List ℕ) → bytes_eq a b ≡ true → bytes_eq a c ≡ bytes_eq b c
bytes_eq-cong a b c h = ap (λ t. bytes_eq t c) (bytes_eq_sound a b h)

bytes_eq-join : (a b c : List ℕ) → bytes_eq a c ≡ true → bytes_eq b c ≡ true → bytes_eq a b ≡ true
bytes_eq-join a b c h k =
    ap (λ t. bytes_eq t b) (bytes_eq_sound a c h ∙ sym (bytes_eq_sound b c k)) ∙ bytes_eq_refl b

contains-retain_other :
    (fp other : List ℕ) (xs : List (List ℕ))
    → contains fp (retain_other other xs) ≡ (contains fp xs && not (bytes_eq other fp))
unfolding contains retain_other
contains-retain_other fp other [] = refl
contains-retain_other fp other (x ∷ xs) =
    ground
      (arith, contains-retain_other fp other xs, bytes_eq-cong x other fp, bytes_eq-join x other fp)

retain_other-absent :
    (fp : List ℕ) (xs : List (List ℕ)) → contains fp xs ≡ false → retain_other fp xs ≡ xs
unfolding contains retain_other
retain_other-absent fp [] h = refl
retain_other-absent fp (x ∷ xs) h = ground (arith, retain_other-absent fp xs)

Distinct-retain_other :
    (fp : List ℕ) (xs : List (List ℕ)) → Distinct xs → Distinct (retain_other fp xs)
unfolding retain_other
Distinct-retain_other fp [] d = tt
Distinct-retain_other fp (x ∷ xs) d = elim (Bool-cases (bytes_eq x fp)) [
  | inl hit ↦ rw hit (Distinct-retain_other fp xs d.1)
  | inr miss ↦
      rw miss (ground (arith, contains-retain_other x fp xs, d.0), Distinct-retain_other fp xs d.1)
]

Distinct-snoc :
    (fp : List ℕ) (xs : List (List ℕ))
    → Distinct xs
    → contains fp xs ≡ false
    → Distinct (xs ++ (fp ∷ []))
unfolding contains
Distinct-snoc fp [] d h = (refl, tt)
Distinct-snoc fp (x ∷ xs) d h = (
  ground (arith, d.0, contains-append x xs (fp ∷ []), bytes_eq-sym x fp),
  Distinct-snoc fp xs d.1 (ground arith),
)

contains-cong :
    (a b : List ℕ) (xs : List (List ℕ)) → bytes_eq a b ≡ true → contains a xs ≡ contains b xs
contains-cong a b xs h = ap (λ t. contains t xs) (bytes_eq_sound a b h)

removed :
    (fp x : List ℕ) (xs set : List (List ℕ))
    → contains fp set ≡ contains fp (x ∷ xs)
    → contains x xs ≡ false
    → contains fp (retain_other x set) ≡ contains fp xs
unfolding contains
removed fp x xs set s d = ground (arith, s, contains-retain_other fp x set, contains-cong x fp xs)

-- The loop takes the oldest ones off the queue, and what it takes off it takes out of the set.
evict_lem :
    (capacity : ℕ) (order set : List (List ℕ))
    → Distinct order
    → ((fp : List ℕ) → contains fp set ≡ contains fp order)
    → let r = evict capacity order set in
      (r.0 ≡ drop (length order - capacity) order)
      × Distinct r.0
      × (length r.0 ≤ capacity)
      × ((fp : List ℕ) → contains fp r.1 ≡ contains fp r.0)
unfolding evict
evict_lem capacity [] set d s =
    let none_over : 0 - capacity ≡ 0 = omega arith in (rw none_over refl, tt, omega arith, s)
evict_lem capacity (x ∷ xs) set d s = elim (Bool-cases (ltb capacity (length (x ∷ xs)))) [
  | inl over ↦
      let one_more : suc (length xs) - capacity ≡ suc (length xs - capacity) = ground arith in
      let (e, dist, fits, same) =
        evict_lem capacity xs (retain_other x set) d.1 (λ fp. removed fp x xs set (s fp) d.0) in
      rw (over, one_more) (e, dist, fits, same)
  | inr fits ↦
      let enough : suc (length xs) - capacity ≡ 0 = ground arith in
      rw (fits, enough) (refl, d, ground arith, s)
]

insert_lem :
    (fp other : List ℕ) (set order : List (List ℕ))
    → contains other set ≡ contains other order
    → contains other (fp ∷ set) ≡ contains other (order ++ (fp ∷ []))
unfolding contains
insert_lem fp other set order s = ground (arith, s, contains-append other order (fp ∷ []))

refreshed :
    (fp other : List ℕ) (set order : List (List ℕ))
    → contains other set ≡ contains other order
    → contains fp set ≡ true
    → contains fp order ≡ true
    → contains other set ≡ contains other (retain_other fp order ++ (fp ∷ []))
unfolding contains
refreshed fp other set order s h k = ground (
  arith,
  s,
  contains-append other (retain_other fp order) (fp ∷ []),
  contains-retain_other other fp order,
  contains-cong fp other order,
)

length-retain_other : (fp : List ℕ) (xs : List (List ℕ)) → length (retain_other fp xs) ≤ length xs
unfolding retain_other
length-retain_other fp [] = omega arith
length-retain_other fp (x ∷ xs) = ground (arith, length-retain_other fp xs)

length-retain_other-present :
    (fp : List ℕ) (xs : List (List ℕ))
    → contains fp xs ≡ true
    → length (retain_other fp xs) < length xs
unfolding retain_other contains
length-retain_other-present fp [] h = cc
length-retain_other-present fp (x ∷ xs) h =
    ground (arith, length-retain_other fp xs, length-retain_other-present fp xs)

drop-none {ℓ} : {A : Type ℓ} (n : ℕ) (xs : List A) → n ≡ 0 → drop n xs ≡ xs
drop-none n xs h = rw h refl

-- In every state that the ring can have, a frame is reported as seen exactly when its fingerprint is in
-- the queue; the queue is then that of the abstract list, the fingerprint at its end and the oldest ones
-- beyond the capacity gone; and queue and set still agree, without repetition, within the capacity.
pub mark-touch :
    (fp : List ℕ) (ring : SeenRing)
    → IsRing ring
    → let r = mark fp ring in
      (r.1 ≡ contains fp ring.order) × (r.0.order ≡ touch ring.capacity fp ring.order) × IsRing r.0
unfolding mark touch
mark-touch fp ring i = elim (Bool-cases (contains fp ring.set)) [
  | inl hit ↦
      let present : contains fp ring.order ≡ true = sym (i.same fp) ∙ hit in
      let all = retain_other fp ring.order ++ (fp ∷ []) in
      let fits : length all ≤ ring.capacity = omega (
        arith,
        length-append {0} (retain_other fp ring.order) (fp ∷ []),
        length-retain_other-present fp ring.order present,
        i.fits,
      ) in
      let gone : contains fp (retain_other fp ring.order) ≡ false =
        ground (arith, contains-retain_other fp fp ring.order, bytes_eq_refl fp) in
      rw (hit, present)
        (
          refl,
          sym (drop-none (length all - ring.capacity) all (omega arith)),
          record {
            distinct =
                Distinct-snoc fp (retain_other fp ring.order)
                  (Distinct-retain_other fp ring.order i.distinct) gone;
            fits = fits;
            same = λ o. refreshed fp o ring.set ring.order (i.same o) hit present;
          },
        )
  | inr miss ↦
      let absent : contains fp ring.order ≡ false = sym (i.same fp) ∙ miss in
      let (e, dist, fits, same) =
        evict_lem ring.capacity (ring.order ++ (fp ∷ [])) (fp ∷ ring.set)
          (Distinct-snoc fp ring.order i.distinct absent)
          (λ o. insert_lem fp o ring.set ring.order (i.same o)) in
      rw (miss, absent, retain_other-absent fp ring.order absent)
        (refl, e, record { distinct = dist; fits = fits; same = same })
]
