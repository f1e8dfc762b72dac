-- ===== src/Wire/Bin/Laws.antt =====
-- The reader as a view of the bytes still to come, and each read as a step of that view.
use s_chat6_core.Common.{
  ℕ, ◌+◌, ◌-◌, ◌^◌, ◌≤◌, ◌<◌, ◌≡◌, refl, sym, ap, ◌∙◌, arith, String, List, [], ◌∷◌, ◌++◌, length,
  length-append, length-take, length-drop, take, drop, drop-add, take-append, drop-append,
  take-append-drop, ltb, Bool-cases, inl, inr, Result, ok, err, false, >>=-eq-ok, ltb→lt, lt→ltb,
  le→ltb,
}
use s_chat6_core.Common.Bytes.{to_be_bytes, length-to_be_bytes, from_be-to_be}
use s_chat6_core.Wire.Error.{truncated}
use s_chat6_core.Wire.Bin.{
  Reader, new_reader, remaining, take_bytes, u8, u16be, u32be, u64be, lp, expect_end,
}

abbrev pub advance : ℕ → Reader → Reader
advance n r = record r { pos = r.pos + n }

-- The cursor stands within the buffer, and `bs` is what it has not read.
pub record Sees (r : Reader) (bs : List ℕ) : Type 0 where
  pub inside : r.pos ≤ length r.buf
  pub ahead : drop r.pos r.buf ≡ bs

pub Sees-new : (bs : List ℕ) → Sees (new_reader bs) bs
unfolding new_reader
Sees-new bs = record { inside = omega arith; ahead = refl }

pub remaining_lem : (r : Reader) (bs : List ℕ) → Sees r bs → remaining r ≡ length bs
unfolding remaining
remaining_lem r bs s =
    omega (arith, length-drop {0} r.pos r.buf, ap (λ (t : List ℕ). length t) s.ahead)

-- Moving on by `n` bytes that are there.
Sees-advance :
    (n : ℕ) (r : Reader) (bs : List ℕ) → Sees r bs → n ≤ length bs → Sees (advance n r) (drop n bs)
Sees-advance n r bs s h = record {
  inside = omega (arith, room);
  ahead = drop-add r.pos n (r.pos + n) r.buf refl ∙ ap (λ t. drop n t) s.ahead;
}
  where
    room : length r.buf - r.pos ≡ length bs
    room = omega (arith, length-drop {0} r.pos r.buf, ap (λ (t : List ℕ). length t) s.ahead)

-- A read of `n` bytes that are there.
take_bytes-ok :
    (n : ℕ) (at : String) (r : Reader) (bs : List ℕ)
    → Sees r bs
    → n ≤ length bs
    → take_bytes n at r ≡ ok (take n bs, advance n r)
unfolding take_bytes
take_bytes-ok n at r bs s h = rw (remaining_lem r bs s, le→ltb (length bs) n h, s.ahead)

take_bytes-err :
    (n : ℕ) (at : String) (r : Reader) (bs : List ℕ)
    → Sees r bs
    → length bs < n
    → take_bytes n at r ≡ err (truncated at)
unfolding take_bytes
take_bytes-err n at r bs s h = rw (remaining_lem r bs s, lt→ltb (length bs) n h)

-- A read of exactly the bytes in front.
pub take_bytes-append :
    (n : ℕ) (at : String) (r : Reader) (xs ys : List ℕ)
    → Sees r (xs ++ ys)
    → length xs ≡ n
    → (take_bytes n at r ≡ ok (xs, advance n r)) × Sees (advance n r) ys
take_bytes-append n at r xs ys s e = (
  take_bytes-ok n at r (xs ++ ys) s room ∙ rw (take-append n xs ys e),
  rw (drop-append n xs ys e) at (Sees-advance n r (xs ++ ys) s room),
)
  where
    room : n ≤ length (xs ++ ys)
    room = omega (arith, length-append {0} xs ys)

ok_pair {ℓ κ μ} :
    {E : Type ℓ} {A : Type κ} {B : Type μ} {a c : A} {b d : B}
    → ◌≡◌ {A = Result E (A × B)} (ok (a, b)) (ok (c, d))
    → (a ≡ c) × (b ≡ d)
ok_pair e = ground (arith, e)

leb_of_ltb : (a b : ℕ) → ltb a b ≡ false → b ≤ a
leb_of_ltb a b h = ground arith

take_bytes-room :
    (n : ℕ) (at : String) (r : Reader) (bs : List ℕ) {p : List ℕ × Reader}
    → Sees r bs
    → take_bytes n at r ≡ ok p
    → n ≤ length bs
take_bytes-room n at r bs s e = elim (Bool-cases (ltb (length bs) n)) [
  | inl short ↦ cc (take_bytes-err n at r bs s (ltb→lt (length bs) n short))
  | inr long ↦ leb_of_ltb (length bs) n long
]

-- What a successful read has taken.
take_bytes_inv :
    (n : ℕ) (at : String) (r : Reader) (bs xs : List ℕ) (r' : Reader)
    → Sees r bs
    → take_bytes n at r ≡ ok (xs, r')
    → (bs ≡ xs ++ drop n bs) × (length xs ≡ n) × Sees r' (drop n bs)
take_bytes_inv n at r bs xs r' s e = (
  rw (← same.0) (sym (take-append-drop n bs)),
  rw (← same.0) (omega (arith, length-take {0} n bs, room)),
  rw (← same.1) (Sees-advance n r bs s room),
)
  where
    room : n ≤ length bs
    room = take_bytes-room n at r bs s e

    same : (take n bs ≡ xs) × (advance n r ≡ r')
    same = ok_pair (sym (take_bytes-ok n at r bs s room) ∙ e)

-- A read of an integer that was written in front.
module _ (at : String) (r : Reader) (v : ℕ) (ys : List ℕ) where
  pub u8-Sees : Sees r (v ∷ ys) → (u8 at r ≡ ok (v, advance 1 r)) × Sees (advance 1 r) ys
  unfolding u8
  u8-Sees s = let (e, t) = take_bytes-append 1 at r (v ∷ []) ys s refl in (rw e, t)

  pub u16be-Sees :
      Sees r (to_be_bytes 2 v ++ ys)
      → v < 2 ^ 16
      → (u16be at r ≡ ok (v, advance 2 r)) × Sees (advance 2 r) ys
  unfolding u16be
  u16be-Sees s h =
      let (e, t) = take_bytes-append 2 at r (to_be_bytes 2 v) ys s (length-to_be_bytes 2 v) in
      (rw (e, from_be-to_be 2 v h), t)

  pub u32be-Sees :
      Sees r (to_be_bytes 4 v ++ ys)
      → v < 2 ^ 32
      → (u32be at r ≡ ok (v, advance 4 r)) × Sees (advance 4 r) ys
  unfolding u32be
  u32be-Sees s h =
      let (e, t) = take_bytes-append 4 at r (to_be_bytes 4 v) ys s (length-to_be_bytes 4 v) in
      (rw (e, from_be-to_be 4 v h), t)

  pub u64be-Sees :
      Sees r (to_be_bytes 8 v ++ ys)
      → v < 2 ^ 64
      → (u64be at r ≡ ok (v, advance 8 r)) × Sees (advance 8 r) ys
  unfolding u64be
  u64be-Sees s h =
      let (e, t) = take_bytes-append 8 at r (to_be_bytes 8 v) ys s (length-to_be_bytes 8 v) in
      (rw (e, from_be-to_be 8 v h), t)

-- A read of a length-prefixed string within the ceiling.
pub lp-Sees :
    (max : ℕ) (at : String) (r : Reader) (p ys : List ℕ)
    → Sees r (to_be_bytes 4 (length p) ++ (p ++ ys))
    → length p ≤ max
    → length p < 2 ^ 32
    → (lp max at r ≡ ok (p, advance (length p) (advance 4 r)))
      × Sees (advance (length p) (advance 4 r)) ys
unfolding lp
lp-Sees max at r p ys s h small =
    let (e, t) = u32be-Sees at r (length p) (p ++ ys) s small in
    let (e', t') = take_bytes-append (length p) at (advance 4 r) p ys t refl in
    (rw (e, le→ltb max (length p) h, e'), t')

pub expect_end-Sees : (at : String) (r : Reader) → Sees r [] → expect_end at r ≡ ok tt
unfolding expect_end
expect_end-Sees at r s = rw (remaining_lem r [] s)

-- The last check passes only at the end.
expect_end_inv :
    (at : String) (r : Reader) (bs : List ℕ) → Sees r bs → expect_end at r ≡ ok tt → bs ≡ []
unfolding expect_end
expect_end_inv at r [] s e = refl
expect_end_inv at r (b ∷ bs) s e = ground (arith, remaining_lem r (b ∷ bs) s)

-- What a read gives is as long as was asked, or as short as was allowed.
pub take_bytes-length :
    (n : ℕ) (at : String) (r : Reader) (xs : List ℕ) (r' : Reader)
    → take_bytes n at r ≡ ok (xs, r')
    → length xs ≡ n
unfolding take_bytes remaining
take_bytes-length n at r xs r' e = elim (Bool-cases (ltb (length r.buf - r.pos) n)) [
  | inl short ↦ absurd (ground (arith, e))
  | inr long ↦
      let same : take n (drop r.pos r.buf) ≡ xs = ground (arith, e) in
      rw (← same) (
        omega (
          arith,
          length-take {0} n (drop r.pos r.buf),
          length-drop {0} r.pos r.buf,
          leb_of_ltb (length r.buf - r.pos) n long,
        ))
]

pub lp-length :
    (max : ℕ) (at : String) (r : Reader) (xs : List ℕ) (r' : Reader)
    → lp max at r ≡ ok (xs, r')
    → length xs ≤ max
unfolding lp
lp-length max at r xs r' e =
    let (p, _, e1) = >>=-eq-ok (u32be at r) _ e in
    elim (Bool-cases (ltb max p.0)) [
      | inl long ↦ absurd (ground (arith, e1))
      | inr short ↦
          let e2 : take_bytes p.0 at p.1 ≡ ok (xs, r') = ground (arith, e1) in
          omega (arith, take_bytes-length p.0 at p.1 xs r' e2, leb_of_ltb max p.0 short)
    ]
