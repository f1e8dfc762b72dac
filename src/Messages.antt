-- ===== src/Messages.antt =====
-- Edits and deletions of messages: crates/core/src/messages/{mod,edit,delete}.rs, with the row of the
-- ledger that they look at, of crates/core/src/store/messages.rs.
pub mod Edits
pub mod Ledger
mod Tests
use s_chat6_core.Common.{
  ℕ, ◌+◌, ◌%◌, ◌^◌, List, [], ◌∷◌, ltb, leb, ◌==◌, Bool, true, false, ◌||◌, ◌&&◌, not,
  if◌then◌else◌, Option, none, some, suc,
}
use s_chat6_core.Wire.Envelope.{
  EnvelopeType, code, from_code, msg, edit, attach_head, attach_chunk, sticker,
}

pub data Direction : Type 0 where
  in_ : Direction
  out : Direction

pub data DeliveryState : Type 0 where
  received : DeliveryState
  queued : DeliveryState
  transmitted : DeliveryState
  acknowledged : DeliveryState
  failed : DeliveryState

-- `rel_id` is the bytes of the string.
pub record MessageRow : Type 0 where
  pub msg_id : List ℕ
  pub rel_id : List ℕ
  pub direction : Direction
  pub app_seq : ℕ
  pub sent_at : ℕ
  pub received_at : Option ℕ
  pub env_type : ℕ
  pub ref_id : Option (List ℕ)
  pub payload : List ℕ
  pub state : DeliveryState
  pub expires_at : Option ℕ
  pub created_at : ℕ
  pub edited : Bool
  pub tombstone : Bool
  pub read_at : Option ℕ
  pub edit_count : ℕ
  pub last_edit_seq : ℕ

abbrev pub edit_window_sec : ℕ
edit_window_sec = 3_600

abbrev pub edit_max_edits : ℕ
edit_max_edits = 30

pub data EditDecision : Type 0 where
  apply : EditDecision
  drop_tombstone : EditDecision
  drop_history_cut : EditDecision
  drop_missing : EditDecision
  drop_authorship : EditDecision
  drop_kind : EditDecision
  drop_expired : EditDecision
  drop_window : EditDecision
  drop_cap : EditDecision
  drop_stale_seq : EditDecision
  drop_too_large : EditDecision

abbrev pub is_in : Direction → Bool
is_in in_ = true
is_in out = false

-- `u64` addition, which wraps in a release build.
abbrev pub add_u64 : ℕ → ℕ → ℕ
add_u64 a b = (a + b) % 2 ^ 64

unfoldable pub can_offer_edit : MessageRow → ℕ → Bool
can_offer_edit row now =
    if is_in row.direction
    then false
    else if not (row.env_type == code msg)
    then false
    else if row.tombstone || leb edit_max_edits row.edit_count
    then false
    else ltb now (add_u64 row.sent_at edit_window_sec)

-- The test on `target.expires_at`.
abbrev pub is_past : Option ℕ → ℕ → Bool
is_past none now = false
is_past (some exp) now = leb exp now

-- `unwrap_or`.
abbrev pub unwrap_or : Option ℕ → ℕ → ℕ
unwrap_or none d = d
unwrap_or (some x) d = x

-- What `edit_decision` asks of the target.
unfoldable pub target_decision : Option MessageRow → ℕ → ℕ → ℕ → ℕ → EditDecision
target_decision none now incoming_app_seq body_bytes max_body_bytes = drop_missing
target_decision (some target) now incoming_app_seq body_bytes max_body_bytes =
    if not (is_in target.direction)
    then drop_authorship
    else if not (target.env_type == code msg)
    then drop_kind
    else if is_past target.expires_at now
    then drop_expired
    else if leb (add_u64 (unwrap_or target.received_at target.created_at) edit_window_sec) now
    then drop_window
    else if leb edit_max_edits target.edit_count
    then drop_cap
    else if leb incoming_app_seq target.last_edit_seq
    then drop_stale_seq
    else if ltb max_body_bytes body_bytes
    then drop_too_large
    else apply

unfoldable pub edit_decision : Option MessageRow → ℕ → ℕ → ℕ → ℕ → Bool → ℕ → EditDecision
unfolding target_decision
edit_decision target now incoming_app_seq body_bytes max_body_bytes tombstoned history_cut_seq =
    if ltb 0 history_cut_seq && ltb incoming_app_seq history_cut_seq
    then drop_history_cut
    else if tombstoned
    then drop_tombstone
    else target_decision target now incoming_app_seq body_bytes max_body_bytes

unfoldable pub is_history_type : EnvelopeType → Bool
is_history_type msg = true
is_history_type edit = true
is_history_type attach_head = true
is_history_type attach_chunk = true
is_history_type sticker = true
is_history_type t = false

unfoldable pub should_drop_inbound : EnvelopeType → ℕ → ℕ → Bool → Bool
unfolding is_history_type
should_drop_inbound t app_seq history_cut_seq tombstoned =
    if not (is_history_type t)
    then false
    else if tombstoned
    then true
    else ltb 0 history_cut_seq && ltb app_seq history_cut_seq

-- The effect of the `UPDATE` of `mark_edited` on the row with the id, when the row is not a tombstone.
unfoldable pub mark_edited : MessageRow → List ℕ → ℕ → MessageRow
mark_edited row payload edit_seq = if row.tombstone then row else record row {
  payload = payload;
  edited = true;
  edit_count = row.edit_count + 1;
  last_edit_seq = edit_seq;
}

-- The effect of the `UPDATE` of `mark_tombstoned`.
unfoldable pub mark_tombstoned : MessageRow → MessageRow
mark_tombstoned row = record row { payload = []; tombstone = true }
