-- ===== src/Messages/Ledger/Stones.antt =====
-- What happens to the tombstones after a DELETE: more of them, and the pruning that runs now and then.
use s_chat6_core.Common.{ℕ, ◌+◌, ◌≤◌, ◌<◌, ◌≡◌, ◌∙◌, arith, List, [], ◌∷◌, true, Option, none, some}
use s_chat6_core.Messages.{MessageRow}
use s_chat6_core.Messages.Ledger.{
  Tombstone, add_tombstone, is_tombstoned, apply_delete, tombstone_ttl_sec,
}
use s_chat6_core.Messages.Ledger.Prune.{
  delete_expired, prune_tombstones, tombstone_count, tombstone_cap, prune-forgets_nothing,
}

-- A DELETE with its relationship, its target and its time; a pruning of a relationship and its time.
pub data StoneOp : Type 0 where
  deletion : List ℕ → Option (List ℕ) → ℕ → StoneOp
  pruning : List ℕ → ℕ → StoneOp

abbrev pub StoneDb : Type 0
StoneDb = List Tombstone × List MessageRow

abbrev pub stone_step : StoneOp → StoneDb → StoneDb
stone_step (deletion rel target at) (stones, rows) =
    let (stones', rows', told) = apply_delete rel target at stones rows in (stones', rows')
stone_step (pruning rel at) (stones, rows) = ((prune_tombstones rel at stones).0, rows)

abbrev pub run_stones : List StoneOp → StoneDb → StoneDb
run_stones [] db = db
run_stones (op ∷ ops) db = run_stones ops (stone_step op db)

-- Every operation is at a time between two, and no pruning finds more tombstones that are alive than it may keep.
abbrev pub IsRoomy : ℕ → ℕ → List StoneOp → StoneDb → Type 0
IsRoomy now later [] db = Unit
IsRoomy now later (deletion rel target at ∷ ops) db =
    (now ≤ at) × IsRoomy now later ops (stone_step (deletion rel target at) db)
IsRoomy now later (pruning rel at ∷ ops) db =
    (at ≤ later)
    × (tombstone_count rel (delete_expired rel at db.0).0 ≤ tombstone_cap)
    × IsRoomy now later ops (stone_step (pruning rel at) db)

-- A new tombstone forgets none that is alive at a later time.
added-keeps :
    (rel id rel' id' : List ℕ) (at later : ℕ) (stones : List Tombstone)
    → later < at + tombstone_ttl_sec
    → is_tombstoned rel id later stones ≡ true
    → is_tombstoned rel id later (add_tombstone rel' id' at stones) ≡ true
unfolding add_tombstone is_tombstoned
added-keeps rel id rel' id' at later [] h k = absurd (ground (arith, k))
added-keeps rel id rel' id' at later (t ∷ ts) h k =
    ground (arith, added-keeps rel id rel' id' at later ts h)

deletion-keeps :
    (rel id rel' : List ℕ) (target : Option (List ℕ)) (at later : ℕ) (db : StoneDb)
    → later < at + tombstone_ttl_sec
    → is_tombstoned rel id later db.0 ≡ true
    → is_tombstoned rel id later (stone_step (deletion rel' target at) db).0 ≡ true
unfolding apply_delete
deletion-keeps rel id rel' none at later db h k = k
deletion-keeps rel id rel' (some id') at later db h k =
    added-keeps rel id rel' id' at later db.0 h k

pub run_stones-keeps :
    (rel id : List ℕ) (now later : ℕ) (ops : List StoneOp) (db : StoneDb)
    → later < now + tombstone_ttl_sec
    → IsRoomy now later ops db
    → is_tombstoned rel id later db.0 ≡ true
    → is_tombstoned rel id later (run_stones ops db).0 ≡ true
run_stones-keeps rel id now later [] db h r k = k
run_stones-keeps rel id now later (deletion rel' target at ∷ ops) db h r k =
    run_stones-keeps rel id now later ops (stone_step (deletion rel' target at) db) h r.1
      (deletion-keeps rel id rel' target at later db (omega (arith, h, r.0)) k)
run_stones-keeps rel id now later (pruning rel' at ∷ ops) db h (before, few, r) k =
    run_stones-keeps rel id now later ops (stone_step (pruning rel' at) db) h r
      (prune-forgets_nothing rel' rel id at later db.0 before few ∙ k)
