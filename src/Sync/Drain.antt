-- ===== src/Sync/Drain.antt =====
-- One pass over the queue: `Engine::drain_outbox` of crates/core/src/engine/drain.rs. The relationships and
-- the transport are arguments: the onion of the peer of a relationship that is still there, and whether a
-- send succeeds. The log is the sends that were tried.
pub mod FailFast
pub mod Acked
use s_chat6_core.Common.{
  ℕ, ◌+◌, List, [], ◌∷◌, bytes_eq, Bool, true, false, ◌||◌, if◌then◌else◌, Option, none, some,
  Result, ok, err, ◌>>=◌,
}
use s_chat6_core.Messages.{MessageRow, DeliveryState, failed}
use s_chat6_core.Sync.Delivery.{backoff_secs}
use s_chat6_core.Sync.Outbox.{
  OutboxRow, SyncError, due, dequeue, note_attempt, fail_expired, set_delivery, mark_transmitted,
}

pub record Db : Type 0 where
  pub outbox : List OutboxRow
  pub messages : List MessageRow

-- A send that was tried, to an onion, and how it went.
pub record Sent : Type 0 where
  pub onion : List ℕ
  pub success : Bool

unfoldable pub contains : List ℕ → List (List ℕ) → Bool
contains onion [] = false
contains onion (o ∷ os) = bytes_eq o onion || contains onion os

abbrev pub drain_batch : ℕ
drain_batch = 64

-- The expired rows fail, whatever state their messages are in.
unfoldable pub fail_all : List OutboxRow → List MessageRow → List MessageRow
unfolding set_delivery
fail_all [] messages = messages
fail_all (row ∷ rows) messages = fail_all rows (set_delivery row.msg_id failed messages)

module _ (peer_onion : List ℕ → Option (List ℕ)) (send_record : OutboxRow → Bool) (now : ℕ) where
  abbrev back_off : OutboxRow → Db → Db
  back_off row db = record db {
    outbox = note_attempt row.msg_id (backoff_secs row.attempts) now db.outbox;
  }

  abbrev take_out : OutboxRow → Db → Db
  take_out row db = let (rows, gone) = dequeue row.msg_id db.outbox in record db { outbox = rows }

  -- The `for` loop over the rows that are due.
  unfoldable pub drain_rows :
      List OutboxRow → List (List ℕ) → Db → Result SyncError (Db × List Sent)
  unfolding contains
  drain_rows [] failed_onions db = ok (db, [])
  drain_rows (row ∷ rows) failed_onions db = elim (peer_onion row.rel_id) [
    | none ↦ drain_rows rows failed_onions (take_out row db)
    | some onion ↦
        let skipped = drain_rows rows failed_onions (back_off row db) in
        let sent = do
          messages ← mark_transmitted row.msg_id db.messages
          (db', log) ←
              drain_rows rows failed_onions (record (take_out row db) { messages = messages })
          ok (db', record { onion = onion; success = true } ∷ log)
        in let not_sent = do
          (db', log) ← drain_rows rows (onion ∷ failed_onions) (back_off row db)
          ok (db', record { onion = onion; success = false } ∷ log)
          in if contains onion failed_onions
            then skipped
            else if send_record row
            then sent
            else not_sent
  ]

  -- An error ends the pass: what it has written until then stays in the store, and the rest of the
  -- queue and the expiry wait for the next pass.
  unfoldable pub drain_outbox : Db → Result SyncError (Db × List Sent)
  unfolding drain_rows fail_all
  drain_outbox db = do
    (db', log) ← drain_rows (due drain_batch now db.outbox) [] db
    let (expired, kept) = fail_expired now db'.outbox in
        ok (record { outbox = kept; messages = fail_all expired db'.messages }, log)
