-- ===== src/Live/Table.antt =====
-- A HashMap from relationships as the list of its entries. An insertion replaces the entry of its key.
pub mod Laws
use s_chat6_core.Common.{
  ℕ, ◌≡◌, ◌⊎◌, refl, sym, ◌∙◌, ap, arith, List, [], ◌∷◌, bytes_eq, bytes_eq_refl, bytes_eq_sound,
  Bool, true, false, not, ◌||◌, if◌then◌else◌, Option, none, some, Bool-cases, inl, inr,
}

abbrev pub Table {ℓ} : Type ℓ → Type ℓ
Table A = List (List ℕ × A)

abbrev pub get {ℓ} : {A : Type ℓ} → List ℕ → Table A → Option A
get k [] = none
get k ((k', v) ∷ t) = if bytes_eq k' k then some v else get k t

abbrev pub remove {ℓ} : {A : Type ℓ} → List ℕ → Table A → Table A
remove k [] = []
remove k ((k', v) ∷ t) = let rest = remove k t in if bytes_eq k' k then rest else (k', v) ∷ rest

abbrev pub insert {ℓ} : {A : Type ℓ} → List ℕ → A → Table A → Table A
insert k v t = (k, v) ∷ remove k t

-- `retain` with its test on the value.
abbrev pub retain {ℓ} : {A : Type ℓ} → (A → Bool) → Table A → Table A
retain keep [] = []
retain keep ((k, v) ∷ t) = let rest = retain keep t in if keep v then (k, v) ∷ rest else rest

-- The keys of the values that pass a test.
abbrev pub keys_where {ℓ} : {A : Type ℓ} → (A → Bool) → Table A → List (List ℕ)
keys_where test [] = []
keys_where test ((k, v) ∷ t) = let rest = keys_where test t in if test v then k ∷ rest else rest

abbrev pub is_in : List ℕ → List (List ℕ) → Bool
is_in k [] = false
is_in k (x ∷ xs) = bytes_eq x k || is_in k xs

pub get-remove {ℓ} : {A : Type ℓ} → (k : List ℕ) (t : Table A) → get k (remove k t) ≡ none
get-remove k [] = refl
get-remove k ((k', v) ∷ t) = elim (Bool-cases (bytes_eq k' k)) [
  | inl same ↦ rw same (get-remove k t)
  | inr other ↦ rw (other, other) (get-remove k t)
]
