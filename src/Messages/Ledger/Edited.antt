-- ===== src/Messages/Ledger/Edited.antt =====
-- What the edits of a peer may do to one row of the ledger, and row by row to all of it.
use s_chat6_core.Common.{
  sym, ◌≤◌, max, ◌⊎◌, ◌≡◌, refl, ap, ◌∙◌, arith, List, [], ◌∷◌, Bool, true, false, inl, inr,
}
use s_chat6_core.Messages.{MessageRow, edit_max_edits, is_in}

-- How edits may change a row: the number of edits grows, up to the cap, the seq of the last one grows,
-- and a row that we sent or that is deleted stays as it is.
pub record Edited (old new : MessageRow) : Type 0 where
  pub id : new.msg_id ≡ old.msg_id
  pub count : old.edit_count ≤ new.edit_count
  pub seq : old.last_edit_seq ≤ new.last_edit_seq
  pub cap : new.edit_count ≤ max old.edit_count edit_max_edits
  pub ours : (is_in old.direction ≡ true) ⊎ (new ≡ old)
  pub deleted : (old.tombstone ≡ false) ⊎ (new ≡ old)

pub Edited-refl : (x : MessageRow) → Edited x x
Edited-refl x = record {
  id = refl;
  count = omega arith;
  seq = omega arith;
  cap = omega arith;
  ours = inr refl;
  deleted = inr refl;
}

either :
    (test : MessageRow → Bool) (v : Bool) (x y z : MessageRow)
    → (test x ≡ v) ⊎ (y ≡ x)
    → (test y ≡ v) ⊎ (z ≡ y)
    → (test x ≡ v) ⊎ (z ≡ x)
either test v x y z (inl p) q = inl p
either test v x y z (inr p) (inl q) = inl (sym (ap test p) ∙ q)
either test v x y z (inr p) (inr q) = inr (q ∙ p)

Edited-trans : (x y z : MessageRow) → Edited x y → Edited y z → Edited x z
Edited-trans x y z a b = record {
  id = b.id ∙ a.id;
  count = omega (arith, a.count, b.count);
  seq = omega (arith, a.seq, b.seq);
  cap = omega (arith, a.cap, b.cap);
  ours = either (λ (r : MessageRow). is_in r.direction) true x y z a.ours b.ours;
  deleted = either (λ (r : MessageRow). r.tombstone) false x y z a.deleted b.deleted;
}

abbrev pub Related : List MessageRow → List MessageRow → Type 0
Related [] [] = Unit {0}
Related (x ∷ xs) (y ∷ ys) = Edited x y × Related xs ys
Related xs ys = ⊥

pub Related-refl : (xs : List MessageRow) → Related xs xs
Related-refl [] = tt
Related-refl (x ∷ xs) = (Edited-refl x, Related-refl xs)

pub Related-trans : (xs ys zs : List MessageRow) → Related xs ys → Related ys zs → Related xs zs
Related-trans [] [] zs r q = q
Related-trans [] (y ∷ ys) zs r q = absurd r
Related-trans (x ∷ xs) [] zs r q = absurd r
Related-trans (x ∷ xs) (y ∷ ys) [] r q = absurd q
Related-trans (x ∷ xs) (y ∷ ys) (z ∷ zs) r q =
    (Edited-trans x y z r.0 q.0, Related-trans xs ys zs r.1 q.1)
