-- ===== src/Messages/Ledger.antt =====
-- The `messages` table as a list of rows, and the handlers of an inbound EDIT and DELETE, `apply_edit` and
-- `apply_delete` of crates/core/src/engine/inbound.rs, with the `tombstones` table of
-- crates/core/src/store/tombstones.rs. A body is a valid string: the bytes that the codec has accepted.
pub mod Edited
pub mod Run
pub mod Deleted
pub mod Prune
pub mod Stones
use s_chat6_core.Common.{
  ℕ, ◌*◌, ◌+◌, List, [], ◌∷◌, length, bytes_eq, Bool, true, false, if◌then◌else◌, Option, none,
  some, ◌&&◌, ◌||◌, ltb,
}
use s_chat6_core.Messages.{MessageRow, EditDecision, edit_decision, mark_edited, mark_tombstoned}
use s_chat6_core.Messages.EditDecision.{apply}
use s_chat6_core.Wire.Text.{max_body_bytes}

-- `SELECT … WHERE msg_id = ?1`.
unfoldable pub message : List ℕ → List MessageRow → Option MessageRow
message id [] = none
message id (row ∷ rows) = if bytes_eq row.msg_id id then some row else message id rows

-- `UPDATE … WHERE msg_id = ?1`.
unfoldable pub update : List ℕ → (MessageRow → MessageRow) → List MessageRow → List MessageRow
update id f [] = []
update id f (row ∷ rows) = (if bytes_eq row.msg_id id then f row else row) ∷ update id f rows

-- An inbound EDIT: the envelope's reference and seq, the body, and what the store answers about the
-- relationship: whether the envelope's id is tombstoned, and the history cut.
pub record EditIn : Type 0 where
  pub ref_id : Option (List ℕ)
  pub app_seq : ℕ
  pub body : List ℕ
  pub tombstoned : Bool
  pub history_cut_seq : ℕ

-- The `match decision`; the flag is the event `Edited`.
unfoldable pub apply_decision :
    EditDecision → List ℕ → EditIn → List MessageRow → List MessageRow × Bool
apply_decision apply id env rows =
    (update id (λ row. mark_edited row env.body env.app_seq) rows, true)
apply_decision other id env rows = (rows, false)

unfoldable pub edit_target : Option (List ℕ) → EditIn → ℕ → List MessageRow → List MessageRow × Bool
unfolding apply_decision message
edit_target none env now rows = (rows, false)
edit_target (some id) env now rows =
    apply_decision
      (edit_decision (message id rows) now env.app_seq (length env.body) max_body_bytes
        env.tombstoned env.history_cut_seq)
      id env rows

unfoldable pub apply_edit : EditIn → ℕ → List MessageRow → List MessageRow × Bool
unfolding edit_target
apply_edit env now rows = edit_target env.ref_id env now rows

pub record Tombstone : Type 0 where
  pub rel_id : List ℕ
  pub ref_id : List ℕ
  pub expiry : ℕ

abbrev pub tombstone_ttl_sec : ℕ
tombstone_ttl_sec = 86_400

-- `INSERT … ON CONFLICT (rel_id, ref_id) DO UPDATE SET expiry`.
unfoldable pub add_tombstone : List ℕ → List ℕ → ℕ → List Tombstone → List Tombstone
add_tombstone rel id now [] =
    record { rel_id = rel; ref_id = id; expiry = now + tombstone_ttl_sec } ∷ []
add_tombstone rel id now (t ∷ ts) =
    let rest = add_tombstone rel id now ts in
    if bytes_eq t.rel_id rel && bytes_eq t.ref_id id
    then record t { expiry = now + tombstone_ttl_sec } ∷ ts
    else t ∷ rest

unfoldable pub is_tombstoned : List ℕ → List ℕ → ℕ → List Tombstone → Bool
is_tombstoned rel id now [] = false
is_tombstoned rel id now (t ∷ ts) =
    bytes_eq t.rel_id rel && bytes_eq t.ref_id id && ltb now t.expiry || is_tombstoned rel id now ts

abbrev is_some : Option MessageRow → Bool
is_some none = false
is_some (some row) = true

-- The attachments of the target, which die with it, stand in another table. The flag is the event
-- `Deleted`.
unfoldable pub apply_delete :
    List ℕ
    → Option (List ℕ)
    → ℕ
    → List Tombstone
    → List MessageRow
    → List Tombstone × List MessageRow × Bool
unfolding message update add_tombstone
apply_delete rel none now stones rows = (stones, rows, false)
apply_delete rel (some id) now stones rows =
    (add_tombstone rel id now stones, update id mark_tombstoned rows, is_some (message id rows))
