-- ===== src/Common/Results.antt =====
-- Rust's `Result<T, E>` with its `?` as the bind of a `do` block.
use mathlib.Core.Path.{◌≡◌, refl, ap, ◌∙◌, subst}
use mathlib.Core.Bool.{Bool, true, false}
use mathlib.Core.Option.{Option, none, some}

pub data Result {ℓ κ} (E : Type ℓ) (A : Type κ) : Type (ℓ ⊔ κ) where
  ok : A → Result E A
  err : E → Result E A

-- `if !test { return Err(e) }`.
abbrev pub guard {ℓ} : {E : Type ℓ} → Bool → E → Result E (Unit {0})
guard false failure = err failure
guard true failure = ok tt

infixl 5 ◌>>=◌ ◌>>◌
abbrev pub ◌>>=◌ {ℓ κ μ} :
    {E : Type ℓ} {A : Type κ} {B : Type μ} → Result E A → (A → Result E B) → Result E B
err failure >>= next = err failure
ok value >>= next = next value

-- `Option::ok_or`.
abbrev pub ok_or {ℓ κ} : {E : Type ℓ} {A : Type κ} → Option A → E → Result E A
ok_or (some value) failure = ok value
ok_or none failure = err failure

abbrev pub ◌>>◌ {ℓ κ} : {E : Type ℓ} {B : Type κ} → Result E (Unit {0}) → Result E B → Result E B
first >> second = first >>= λ done. second

-- What a chain that succeeds went through.
module _ {ℓ κ μ} {E : Type ℓ} {A : Type κ} {B : Type μ} {result : B} where
  pub >>=-eq-ok :
      (first : Result E A) (next : A → Result E B)
      → (first >>= next) ≡ ok result
      → (value : A) × (first ≡ ok value) × (next value ≡ ok result)
  >>=-eq-ok (err failure) next both = cc
  >>=-eq-ok (ok value) next both = (value, refl, both)

guard-eq-ok {ℓ} : {E : Type ℓ} (b : Bool) (e : E) → guard b e ≡ ok tt → b ≡ true
guard-eq-ok true e h = refl
guard-eq-ok false e h = cc

pub then_ok {ℓ κ μ} :
    {E : Type ℓ} {A : Type κ} {B : Type μ} (m : Result E A) (next : A → Result E B) (value : A)
    {result : Result E B}
    → m ≡ ok value
    → next value ≡ result
    → (m >>= next) ≡ result
then_ok m next value e go = ap (λ t. t >>= next) e ∙ go

pub guard_inv {ℓ κ} :
    {E : Type ℓ} {A : Type κ} (b : Bool) (e : E) (m : Result E A) {value : A}
    → (guard b e >> m) ≡ ok value
    → (b ≡ true) × (m ≡ ok value)
guard_inv true e m h = (refl, h)
guard_inv false e m h = cc

pub ok_inj {ℓ κ} : {E : Type ℓ} {A : Type κ} (a b : A) → ◌≡◌ {A = Result E A} (ok a) (ok b) → a ≡ b
ok_inj a b h = cc

-- `P` holds of what `m` gives, where it gives anything.
pub data Ensures {ℓ κ} {E : Type ℓ} {A : Type κ} (P : A → Type 0) : Result E A → Type (ℓ ⊔ κ) where
  gives : (a : A) → P a → Ensures P (ok a)
  fails : (e : E) → Ensures P (err e)

module _ {ℓ κ μ} {E : Type ℓ} {A : Type κ} {B : Type μ} {P : B → Type 0} where
  pub Ensures-bind :
      (m : Result E A) (next : A → Result E B)
      → ((a : A) → m ≡ ok a → Ensures P (next a))
      → Ensures P (m >>= next)
  Ensures-bind (ok a) next h = h a refl
  Ensures-bind (err e) next h = fails e

module _ {ℓ κ} {E : Type ℓ} {A : Type κ} {P : A → Type 0} where
  pub Ensures-guard :
      (b : Bool) (e : E) (m : Result E A) → (b ≡ true → Ensures P m) → Ensures P (guard b e >> m)
  Ensures-guard true e m h = h refl
  Ensures-guard false e m h = fails e

  -- What is known of a result that has come.
  pub Ensures-ok : {m : Result E A} → Ensures P m → (a : A) → m ≡ ok a → P a
  Ensures-ok (gives b p) a e = subst P (ok_inj b a e) p
  Ensures-ok (fails f) a e = cc

pub Ensures-weaken {ℓ κ} :
    {E : Type ℓ} {A : Type κ} {P Q : A → Type 0} (m : Result E A)
    → ((a : A) → P a → Q a)
    → Ensures P m
    → Ensures Q m
Ensures-weaken (ok a) h p = gives a (h a (Ensures-ok p a refl))
Ensures-weaken (err e) h p = fails e
