-- ===== src/Sync/View/Order.antt =====
-- The rows of `inbound_seqs` in the order of the query.
use s_chat6_core.Common.{
  ℕ, zero, suc, ◌+◌, ◌^◌, ◌≤◌, ◌<◌, ◌≡◌, refl, ap, ◌∙◌, arith, List, [], ◌∷◌, length, take, ◌==◌,
  Bool, true, false, ◌||◌, All,
}
use s_chat6_core.Sync.View.{insert_seq, order_by_seq, walk}
use s_chat6_core.Sync.View.Horizon.{Ascending}
use s_chat6_core.Common.{elem}

-- (rel_id, app_seq) is the primary key: no seq stands in the table twice.
abbrev pub Distinct : List ℕ → Type 0
Distinct [] = Unit {0}
Distinct (x ∷ xs) = (elem x xs ≡ false) × Distinct xs

-- A seq of an honest peer: at least 1, and not negative as an `i64`.
abbrev pub IsSeq : ℕ → Type 0
IsSeq s = (0 < s) × (s < 2 ^ 63)

elem-insert_seq : (s t : ℕ) (xs : List ℕ) → elem t (insert_seq s xs) ≡ (s == t || elem t xs)
unfolding insert_seq
elem-insert_seq s t [] = refl
elem-insert_seq s t (x ∷ xs) = ground (arith, elem-insert_seq s t xs)

pub elem-order_by_seq : (s : ℕ) (xs : List ℕ) → elem s (order_by_seq xs) ≡ elem s xs
unfolding order_by_seq
elem-order_by_seq s [] = refl
elem-order_by_seq s (x ∷ xs) =
    ground (arith, elem-insert_seq x s (order_by_seq xs), elem-order_by_seq s xs)

length-insert_seq : (s : ℕ) (xs : List ℕ) → length (insert_seq s xs) ≡ suc (length xs)
unfolding insert_seq
length-insert_seq s [] = refl
length-insert_seq s (x ∷ xs) = ground (arith, length-insert_seq s xs)

pub length-order_by_seq : (xs : List ℕ) → length (order_by_seq xs) ≡ length xs
unfolding order_by_seq
length-order_by_seq [] = refl
length-order_by_seq (x ∷ xs) =
    omega (arith, length-insert_seq x (order_by_seq xs), length-order_by_seq xs)

abbrev Below63 : List ℕ → Type 0
Below63 = All (λ s. s < 2 ^ 63)

insert_seq-Below63 : (s : ℕ) (xs : List ℕ) → s < 2 ^ 63 → Below63 xs → Below63 (insert_seq s xs)
unfolding insert_seq
insert_seq-Below63 s [] h a = omega arith
insert_seq-Below63 s (x ∷ xs) h a = ground (arith, insert_seq-Below63 s xs h a.1)

-- Below 2 ^ 63 the order of `i64` is that of the numbers.
insert_seq-Ascending :
    (s low : ℕ) (xs : List ℕ)
    → low < s
    → s < 2 ^ 63
    → Below63 xs
    → elem s xs ≡ false
    → Ascending low xs
    → Ascending low (insert_seq s xs)
unfolding insert_seq
insert_seq-Ascending s low [] h k b e a = omega arith
insert_seq-Ascending s low (x ∷ xs) h k b e a = ground (arith, insert_seq-Ascending s x xs)

order_by_seq-Below63 : (xs : List ℕ) → Below63 xs → Below63 (order_by_seq xs)
unfolding order_by_seq
order_by_seq-Below63 [] a = tt
order_by_seq-Below63 (x ∷ xs) a =
    insert_seq-Below63 x (order_by_seq xs) a.0 (order_by_seq-Below63 xs a.1)

IsSeq-Below63 : (xs : List ℕ) → All IsSeq xs → Below63 xs
IsSeq-Below63 [] a = tt
IsSeq-Below63 (x ∷ xs) a = (a.0.1, IsSeq-Below63 xs a.1)

pub order_by_seq-Ascending :
    (xs : List ℕ) → All IsSeq xs → Distinct xs → Ascending 0 (order_by_seq xs)
unfolding order_by_seq
order_by_seq-Ascending [] a d = tt
order_by_seq-Ascending (x ∷ xs) a d =
    insert_seq-Ascending x 0 (order_by_seq xs) a.0.0 a.0.1
      (order_by_seq-Below63 xs (IsSeq-Below63 xs a.1)) (elem-order_by_seq x xs ∙ d.0)
      (order_by_seq-Ascending xs a.1 d.1)

pub take_all {ℓ} : {A : Type ℓ} (n : ℕ) (xs : List A) → length xs ≤ n → take n xs ≡ xs
take_all zero [] h = refl
take_all zero (x ∷ xs) h = absurd (omega arith)
take_all (suc n) [] h = refl
take_all (suc n) (x ∷ xs) h = ap (λ t. x ∷ t) (take_all n xs (omega arith))

pub walk-le : (max : ℕ) (xs : List ℕ) → (walk max xs).0 ≤ max + length xs
unfolding walk
walk-le max [] = omega arith
walk-le max (x ∷ xs) = ground (arith, walk-le (max + 1) xs)

abbrev starts_zero : List ℕ → Bool
starts_zero [] = false
starts_zero (x ∷ xs) = x == 0

starts_zero-insert_seq :
    (s : ℕ) (xs : List ℕ)
    → s < 2 ^ 63
    → Below63 xs
    → starts_zero (insert_seq s xs) ≡ (s == 0 || starts_zero xs)
unfolding insert_seq
starts_zero-insert_seq s [] h b = ground arith
starts_zero-insert_seq s (x ∷ xs) h b = ground (arith, b.0)

-- The seq 0, if it is received, comes first.
pub starts_zero-order_by_seq :
    (xs : List ℕ) → All (λ s. s < 2 ^ 63) xs → starts_zero (order_by_seq xs) ≡ elem 0 xs
unfolding order_by_seq
starts_zero-order_by_seq [] a = refl
starts_zero-order_by_seq (x ∷ xs) a =
    starts_zero-insert_seq x (order_by_seq xs) a.0 (order_by_seq-Below63 xs a.1)
    ∙ ap (λ t. x == 0 || t) (starts_zero-order_by_seq xs a.1)

pub walk-starts_zero : (n : ℕ) (xs : List ℕ) → starts_zero xs ≡ true → (walk 0 (take n xs)).0 ≡ 0
unfolding walk
walk-starts_zero zero xs e = refl
walk-starts_zero (suc n) [] e = refl
walk-starts_zero (suc n) (x ∷ xs) e = ground arith

pub length-take-le {ℓ} : {A : Type ℓ} (n : ℕ) (xs : List A) → length (take n xs) ≤ n
length-take-le zero xs = omega arith
length-take-le (suc n) [] = omega arith
length-take-le (suc n) (x ∷ xs) = omega (arith, length-take-le n xs)
