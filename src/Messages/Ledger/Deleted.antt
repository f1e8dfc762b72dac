-- ===== src/Messages/Ledger/Deleted.antt =====
-- What is left after a deletion.
use s_chat6_core.Common.{
  ℕ, ◌+◌, ◌<◌, ◌≡◌, refl, ap, ◌∙◌, arith, List, [], ◌∷◌, bytes_eq, bytes_eq_refl, true, false, none,
  some, Bool-cases, inl, inr,
}
use s_chat6_core.Wire.Envelope.{EnvelopeType}
use s_chat6_core.Messages.{MessageRow, mark_tombstoned, is_history_type, should_drop_inbound}
use s_chat6_core.Messages.Ledger.{
  message, update, EditIn, Tombstone, add_tombstone, is_tombstoned, apply_delete, tombstone_ttl_sec,
}
use s_chat6_core.Messages.Ledger.Stones.{
  StoneOp, deletion, stone_step, run_stones, IsRoomy, run_stones-keeps,
}
use s_chat6_core.Messages.Ledger.Edited.{Related}
use s_chat6_core.Messages.Ledger.Run.{run, IdsUnique, run-Related}

message-found-tombstoned :
    (id : List ℕ) (xs : List MessageRow) (row : MessageRow)
    → message id xs ≡ some row
    → message id (update id mark_tombstoned xs) ≡ some (mark_tombstoned row)
unfolding message update mark_tombstoned
message-found-tombstoned id [] row h = cc
message-found-tombstoned id (x ∷ xs) row h = elim (Bool-cases (bytes_eq x.msg_id id)) [
  | inl hit ↦
      let same : x ≡ row = ground (arith, h) in
      rw (hit, hit) (ap (λ r. some (mark_tombstoned r)) same)
  | inr miss ↦
      let there : message id xs ≡ some row = ground (arith, h) in
      rw (miss, miss) (message-found-tombstoned id xs row there)
]

message-tombstoned-none :
    (id id' : List ℕ) (xs : List MessageRow)
    → message id xs ≡ none
    → message id (update id' mark_tombstoned xs) ≡ none
unfolding message update mark_tombstoned
message-tombstoned-none id id' [] h = refl
message-tombstoned-none id id' (x ∷ xs) h = ground (arith, message-tombstoned-none id id' xs)

tombstoned-IdsUnique :
    (id : List ℕ) (xs : List MessageRow) → IdsUnique xs → IdsUnique (update id mark_tombstoned xs)
unfolding update mark_tombstoned
tombstoned-IdsUnique id [] u = tt
tombstoned-IdsUnique id (x ∷ xs) u =
    let rest = tombstoned-IdsUnique id xs u.1 in
    let fresh = message-tombstoned-none x.msg_id id xs u.0 in
    elim (Bool-cases (bytes_eq x.msg_id id)) [
      | inl hit ↦ rw hit (fresh, rest)
      | inr miss ↦ rw miss (fresh, rest)
    ]

-- A deleted row is found again, as it was, after any run of edits.
Related-deleted :
    (id : List ℕ) (xs ys : List MessageRow) (row : MessageRow)
    → Related xs ys
    → message id xs ≡ some row
    → row.tombstone ≡ true
    → message id ys ≡ some row
unfolding message
Related-deleted id [] ys row r h t = cc
Related-deleted id (x ∷ xs) [] row r h t = absurd r
Related-deleted id (x ∷ xs) (y ∷ ys) row r h t = elim (Bool-cases (bytes_eq x.msg_id id)) [
  | inl hit ↦
      let same : x ≡ row = ground (arith, h) in
      let kept : y ≡ row = ground (arith, r.0.deleted, same, t) in
      let hit' : bytes_eq y.msg_id id ≡ true = ap (λ i. bytes_eq i id) r.0.id ∙ hit in
      rw hit' (ap some kept)
  | inr miss ↦
      let there : message id xs ≡ some row = ground (arith, h) in
      let miss' : bytes_eq y.msg_id id ≡ false = ap (λ i. bytes_eq i id) r.0.id ∙ miss in
      rw miss' (Related-deleted id xs ys row r.1 there t)
]

-- In a ledger without two rows of one id, after a DELETE of a message that the ledger holds, the
-- body is gone and it stays gone: whatever edits arrive later, the message is found with the empty
-- body and the mark of the deletion.
pub deleted-stays :
    (rel id : List ℕ) (now : ℕ) (stones : List Tombstone) (rows : List MessageRow)
    (row : MessageRow) (edits : List (EditIn × ℕ))
    → IdsUnique rows
    → message id rows ≡ some row
    → message id (run edits (let (s, r, e) = apply_delete rel (some id) now stones rows in r))
      ≡ some (mark_tombstoned row)
unfolding apply_delete
deleted-stays rel id now stones rows row edits u h =
    let next = update id mark_tombstoned rows in
    Related-deleted id next (run edits next) (mark_tombstoned row)
      (run-Related edits next (tombstoned-IdsUnique id rows u))
      (message-found-tombstoned id rows row h) (unfold mark_tombstoned in refl)

added-is_tombstoned :
    (rel id : List ℕ) (now later : ℕ) (stones : List Tombstone)
    → later < now + tombstone_ttl_sec
    → is_tombstoned rel id later (add_tombstone rel id now stones) ≡ true
unfolding add_tombstone is_tombstoned
added-is_tombstoned rel id now later [] h = ground (arith, bytes_eq_refl rel, bytes_eq_refl id)
added-is_tombstoned rel id now later (t ∷ ts) h =
    ground (arith, added-is_tombstoned rel id now later ts)

-- An envelope of a history type with the id of a DELETE's target, whether the target was in the ledger or not,
-- that arrives from the same relationship within a day of the DELETE is dropped, whatever other DELETEs and
-- prunings of tombstones came in between: the other DELETEs are no earlier than this one, the prunings no later than
-- the arrival, and none of the prunings finds more than 4096 tombstones of its relationship that are alive.
pub late_copy-dropped :
    (rel id : List ℕ) (now later : ℕ) (stones : List Tombstone) (rows : List MessageRow)
    (ops : List StoneOp) (t : EnvelopeType) (seq cut : ℕ)
    → later < now + tombstone_ttl_sec
    → IsRoomy now later ops (stone_step (deletion rel (some id) now) (stones, rows))
    → is_history_type t ≡ true
    → should_drop_inbound t seq cut (
        is_tombstoned rel id later (run_stones (deletion rel (some id) now ∷ ops) (stones, rows)).0)
      ≡ true
unfolding apply_delete should_drop_inbound
late_copy-dropped rel id now later stones rows ops t seq cut h room k =
    let there =
      run_stones-keeps rel id now later ops (stone_step (deletion rel (some id) now) (stones, rows))
        h room (added-is_tombstoned rel id now later stones h) in
    rw (k, there) refl
