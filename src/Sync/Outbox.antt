-- ===== src/Sync/Outbox.antt =====
-- The delivery queue and the delivery states: crates/core/src/store/outbox.rs, `set_delivery` of
-- crates/core/src/store/messages.rs and `transition` of crates/core/src/sync/outbox.rs. A table is the
-- list of its rows; times are far below 2 ^ 63, where the casts to `i64` change nothing.
pub mod Laws
use s_chat6_core.Common.{
  ℕ, ◌+◌, List, [], ◌∷◌, length, take, bytes_eq, leb, ltb, ◌==◌, Bool, true, false, not,
  if◌then◌else◌, Option, none, some, Result, ok, err,
}
use s_chat6_core.Messages.{
  MessageRow, DeliveryState, received, queued, transmitted, acknowledged, failed,
}
use s_chat6_core.Messages.Ledger.{message, update}

pub record OutboxRow : Type 0 where
  pub msg_id : List ℕ
  pub rel_id : List ℕ
  pub wire : List ℕ
  pub attempts : ℕ
  pub next_attempt_at : ℕ
  pub expires_at : ℕ
  pub created_at : ℕ

pub data SyncError : Type 0 where
  corrupt : SyncError
  constraint : SyncError
  session_broken : SyncError
  bad_transition : DeliveryState → DeliveryState → SyncError

abbrev fresh_row : List ℕ → List ℕ → List ℕ → ℕ → ℕ → OutboxRow
fresh_row id rel bytes ttl now = record {
  msg_id = id;
  rel_id = rel;
  wire = bytes;
  attempts = 0;
  next_attempt_at = now;
  expires_at = now + ttl;
  created_at = now;
}

unfoldable pub find_row : List ℕ → List OutboxRow → Option OutboxRow
find_row id [] = none
find_row id (row ∷ rows) = if bytes_eq row.msg_id id then some row else find_row id rows

-- `DELETE … WHERE msg_id = ?1`.
unfoldable delete_row : List ℕ → List OutboxRow → List OutboxRow
delete_row id [] = []
delete_row id (row ∷ rows) =
    if bytes_eq row.msg_id id then delete_row id rows else row ∷ delete_row id rows

-- `INSERT`: the id is the primary key.
unfoldable enqueue :
    List ℕ → List ℕ → List ℕ → ℕ → ℕ → List OutboxRow → Result SyncError (List OutboxRow)
unfolding find_row
enqueue id rel bytes ttl now rows = elim (find_row id rows) [
  | none ↦ ok (fresh_row id rel bytes ttl now ∷ rows)
  | some row ↦ err constraint
]

-- `INSERT OR REPLACE`.
unfoldable requeue : List ℕ → List ℕ → List ℕ → ℕ → ℕ → List OutboxRow → List OutboxRow
unfolding delete_row
requeue id rel bytes ttl now rows = fresh_row id rel bytes ttl now ∷ delete_row id rows

unfoldable insert_by_next : OutboxRow → List OutboxRow → List OutboxRow
insert_by_next r [] = r ∷ []
insert_by_next r (x ∷ xs) =
    if leb r.next_attempt_at x.next_attempt_at then r ∷ x ∷ xs else x ∷ insert_by_next r xs

-- `WHERE next_attempt_at <= now ORDER BY next_attempt_at ASC`.
unfoldable due_rows : ℕ → List OutboxRow → List OutboxRow
unfolding insert_by_next
due_rows now [] = []
due_rows now (r ∷ rs) =
    if leb r.next_attempt_at now then insert_by_next r (due_rows now rs) else due_rows now rs

unfoldable pub due : ℕ → ℕ → List OutboxRow → List OutboxRow
unfolding due_rows
due limit now rows = take limit (due_rows now rows)

unfoldable pub note_attempt : List ℕ → ℕ → ℕ → List OutboxRow → List OutboxRow
note_attempt id backoff_secs now [] = []
note_attempt id backoff_secs now (r ∷ rs) =
    (if bytes_eq r.msg_id id
      then record r { attempts = r.attempts + 1; next_attempt_at = now + backoff_secs }
      else r)
    ∷ note_attempt id backoff_secs now rs

-- `SELECT`, and `DELETE` when there is a row.
unfoldable pub dequeue : List ℕ → List OutboxRow → List OutboxRow × Option OutboxRow
unfolding find_row delete_row
dequeue id rows = (delete_row id rows, find_row id rows)

-- `SELECT … WHERE expires_at <= now`, and the `DELETE` of the same rows.
unfoldable pub fail_expired : ℕ → List OutboxRow → List OutboxRow × List OutboxRow
fail_expired now [] = ([], [])
fail_expired now (r ∷ rs) =
    let (expired, kept) = fail_expired now rs in
    if leb r.expires_at now then (r ∷ expired, kept) else (expired, r ∷ kept)

unfoldable pub set_delivery : List ℕ → DeliveryState → List MessageRow → List MessageRow
unfolding update
set_delivery id to rows = update id (λ row. record row { state = to }) rows

-- The `matches!` of `transition`.
unfoldable pub legal : DeliveryState → DeliveryState → Bool
legal queued transmitted = true
legal queued acknowledged = true
legal transmitted acknowledged = true
legal transmitted transmitted = true
legal queued failed = true
legal transmitted failed = true
legal from to = false

unfoldable pub transition_row :
    Option MessageRow
    → List ℕ
    → DeliveryState
    → List MessageRow
    → Result SyncError (List MessageRow)
unfolding set_delivery legal
transition_row none id to rows = err corrupt
transition_row (some row) id to rows =
    if not (legal row.state to)
    then err (bad_transition row.state to)
    else ok (set_delivery id to rows)

unfoldable pub transition :
    List ℕ → DeliveryState → List MessageRow → Result SyncError (List MessageRow)
unfolding message transition_row
transition id to rows = transition_row (message id rows) id to rows

unfoldable pub mark_transmitted : List ℕ → List MessageRow → Result SyncError (List MessageRow)
unfolding transition
mark_transmitted id rows = transition id transmitted rows

unfoldable pub mark_acknowledged : List ℕ → List MessageRow → Result SyncError (List MessageRow)
unfolding transition
mark_acknowledged id rows = transition id acknowledged rows
