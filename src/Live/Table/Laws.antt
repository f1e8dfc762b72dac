-- ===== src/Live/Table/Laws.antt =====
-- What the operations of a table do to the entry of a key.
use s_chat6_core.Common.{
  ℕ, ◌≡◌, refl, sym, ◌∙◌, ap, List, [], ◌∷◌, bytes_eq, bytes_eq_refl, bytes_eq_sound, Bool, true,
  false, if◌then◌else◌, Option, none, some, Bool-cases, inl, inr, subst,
}
use s_chat6_core.Live.Table.{Table, get, remove, insert, retain, keys_where, is_in, get-remove}

-- One entry for a key.
abbrev pub IsMap {ℓ} : {A : Type ℓ} → Table A → Type ℓ
IsMap [] = Unit
IsMap ((k, v) ∷ t) = (get k t ≡ none) × IsMap t

abbrev pub kept {ℓ} : {A : Type ℓ} → (A → Bool) → Option A → Option A
kept keep none = none
kept keep (some v) = if keep v then some v else none

abbrev pub passes {ℓ} : {A : Type ℓ} → (A → Bool) → Option A → Bool
passes test none = false
passes test (some v) = test v

pub get-remove_other {ℓ} :
    {A : Type ℓ}
    → (k k' : List ℕ) (t : Table A) → bytes_eq k k' ≡ false
    → get k' (remove k t) ≡ get k' t
get-remove_other k k' [] apart = refl
get-remove_other k k' ((x, v) ∷ t) apart = elim (Bool-cases (bytes_eq x k)) [
  | inl same ↦
      let e : bytes_eq x k' ≡ false =
        subst (λ y. bytes_eq y k' ≡ false) (sym (bytes_eq_sound x k same)) apart in
      rw (same, e) (get-remove_other k k' t apart)
  | inr other ↦ rw (other, get-remove_other k k' t apart) refl
]

pub get-insert {ℓ} :
    {A : Type ℓ} → (k : List ℕ) (v : A) (t : Table A) → get k (insert k v t) ≡ some v
get-insert k v t = rw (bytes_eq_refl k) refl

pub get-insert_other {ℓ} :
    {A : Type ℓ}
    → (k k' : List ℕ) (v : A) (t : Table A) → bytes_eq k k' ≡ false
    → get k' (insert k v t) ≡ get k' t
get-insert_other k k' v t apart = rw apart (get-remove_other k k' t apart)

-- The first entry is that of its key.
at_key {ℓ} :
    {A : Type ℓ}
    → (x k : List ℕ) (t : Table A) → bytes_eq x k ≡ true
    → get x t ≡ none
    → get k t ≡ none
at_key x k t same h = subst (λ y. get y t ≡ none) (bytes_eq_sound x k same) h

pub get-retain {ℓ} :
    {A : Type ℓ}
    → (keep : A → Bool) (k : List ℕ) (t : Table A) → IsMap t
    → get k (retain keep t) ≡ kept keep (get k t)
get-retain keep k [] m = refl
get-retain keep k ((x, v) ∷ t) (fresh, m) = elim (Bool-cases (bytes_eq x k)) [
  | inl same ↦ elim (Bool-cases (keep v)) [
    | inl stays ↦ rw (same, stays, same) refl
    | inr goes ↦ rw (same, goes) (get-retain keep k t m ∙ ap (kept keep) (at_key x k t same fresh))
  ]
  | inr other ↦ elim (Bool-cases (keep v)) [
    | inl stays ↦ rw (other, stays, other) (get-retain keep k t m)
    | inr goes ↦ rw (other, goes) (get-retain keep k t m)
  ]
]

pub keys_where-passes {ℓ} :
    {A : Type ℓ}
    → (test : A → Bool) (k : List ℕ) (t : Table A) → IsMap t
    → is_in k (keys_where test t) ≡ passes test (get k t)
keys_where-passes test k [] m = refl
keys_where-passes test k ((x, v) ∷ t) (fresh, m) = elim (Bool-cases (bytes_eq x k)) [
  | inl same ↦ elim (Bool-cases (test v)) [
    | inl told ↦ rw (same, told, same) refl
    | inr silent ↦
        rw (same, silent)
          (keys_where-passes test k t m ∙ ap (passes test) (at_key x k t same fresh))
  ]
  | inr other ↦ elim (Bool-cases (test v)) [
    | inl told ↦ rw (other, told, other) (keys_where-passes test k t m)
    | inr silent ↦ rw (other, silent) (keys_where-passes test k t m)
  ]
]

-- The removal of a key keeps a map a map.
get-remove-none {ℓ} :
    {A : Type ℓ} → (k k' : List ℕ) (t : Table A) → get k' t ≡ none → get k' (remove k t) ≡ none
get-remove-none k k' t h = elim (Bool-cases (bytes_eq k k')) [
  | inl same ↦ subst (λ y. get y (remove k t) ≡ none) (bytes_eq_sound k k' same) (get-remove k t)
  | inr other ↦ get-remove_other k k' t other ∙ h
]

pub remove-IsMap {ℓ} : {A : Type ℓ} → (k : List ℕ) (t : Table A) → IsMap t → IsMap (remove k t)
remove-IsMap k [] m = tt
remove-IsMap k ((x, v) ∷ t) (fresh, m) = elim (Bool-cases (bytes_eq x k)) [
  | inl same ↦ rw same (remove-IsMap k t m)
  | inr other ↦ rw other (get-remove-none k x t fresh, remove-IsMap k t m)
]

insert-IsMap {ℓ} :
    {A : Type ℓ} → (k : List ℕ) (v : A) (t : Table A) → IsMap t → IsMap (insert k v t)
insert-IsMap k v t m = (get-remove k t, remove-IsMap k t m)

retain-IsMap {ℓ} : {A : Type ℓ} → (keep : A → Bool) (t : Table A) → IsMap t → IsMap (retain keep t)
retain-IsMap keep [] m = tt
retain-IsMap keep ((x, v) ∷ t) (fresh, m) = elim (Bool-cases (keep v)) [
  | inl stays ↦ rw stays (get-retain keep x t m ∙ ap (kept keep) fresh, retain-IsMap keep t m)
  | inr goes ↦ rw goes (retain-IsMap keep t m)
]
