-- ===== src/Policy/Store.antt =====
-- crates/core/src/policy/store.rs: the policy columns of the `relationships` row. A SQLite INTEGER
-- is its 64-bit pattern, on which `as i64` and `as u64` do nothing; the table is a list of rows.
pub mod RoundTrip
use text.Mathlib.Text.{◌==◌ as str_eq}
use s_chat6_core.Common.{
  ℕ, ◌+◌, ◌*◌, ◌%◌, ◌/◌, ◌^◌, ◌≡◌, String, List, [], ◌∷◌, ◌++◌, length, take, drop, get_elem?, ltb,
  ◌==◌, Bool, true, false, not, ◌&&◌, if◌then◌else◌, Option, none, some, Result, ok, err, ◌>>=◌,
  ◌>>◌, guard, bit_and, bit_or,
}
use mathlib.Core.Option
use s_chat6_core.Common.Bytes.{to_be_bytes, from_be_bytes}
use s_chat6_core.Wire.Policy.{bool_byte, has_flag}
use s_chat6_core.Wire.Bin.{first_byte}
use s_chat6_core.Policy.{PendingProposal, PolicyState, expiry_at, attachments}

-- The `StoreError::Corrupt` texts of this file.
pub data StoreError : Type 0 where
  -- format!("policy_pending: {} bytes, want {PENDING_LEN}", len)
  pending_length : ℕ → StoreError
  -- format!("policy for unknown rel {rel_id}")
  unknown_rel : String → StoreError

abbrev pub Store : Type 0 → Type 0
Store A = Result StoreError A

abbrev pub pending_len : ℕ
pending_len = 4 + 1 + 16

unfoldable pub encode_pending : PendingProposal → List ℕ
encode_pending p =
    to_be_bytes 4 p.ttl_sec
    ++ (bit_or (bit_or (bool_byte p.screenshot) (bool_byte p.attach_download * 2))
          (bool_byte p.inbound * 4)
        ∷ p.propose_id)

unfoldable pub decode_pending : List ℕ → Store PendingProposal
unfolding first_byte
decode_pending bytes = do
  guard (length bytes == pending_len) (pending_length (length bytes))
  let flags = first_byte (drop 4 bytes)
  ok (record {
    ttl_sec = from_be_bytes (take 4 bytes);
    screenshot = has_flag flags 1;
    attach_download = has_flag flags 2;
    inbound = has_flag flags 4;
    propose_id = take 16 (drop 5 bytes);
  })

-- The columns that the policy state lives in.
pub record PolicyColumns : Type 0 where
  pub policy_ttl_sec : ℕ
  pub policy_flags : ℕ
  pub policy_wants : ℕ
  pub policy_pending : Option (List ℕ)
  pub policy_last_sync_at : ℕ

abbrev pub Relationships : Type 0
Relationships = List (String × PolicyColumns)

unfoldable pub columns_of : PolicyState → PolicyColumns
unfolding encode_pending
columns_of s = record {
  policy_ttl_sec = s.ttl_sec;
  policy_flags = bit_or (bool_byte s.screenshot) (bool_byte s.attach_download * 2);
  policy_wants = bit_or (bit_and s.peer_want 0xff * 2 ^ 8 % 2 ^ 32) (bit_and s.local_want 0xff);
  policy_pending = Option.map encode_pending s.pending;
  policy_last_sync_at = s.last_sync_at;
}

-- `pending.map(|b| decode_pending(&b)).transpose()`.
unfoldable pub decode_pending_column : Option (List ℕ) → Store (Option PendingProposal)
unfolding decode_pending
decode_pending_column none = ok none
decode_pending_column (some bytes) = do p ← decode_pending bytes; ok (some p)

unfoldable pub state_of : PolicyColumns → Store PolicyState
unfolding decode_pending_column
state_of c = do
  pending ← decode_pending_column c.policy_pending
  ok (record {
    ttl_sec = c.policy_ttl_sec % 2 ^ 32;
    screenshot = has_flag c.policy_flags 1;
    attach_download = has_flag c.policy_flags 2;
    local_want = bit_and (c.policy_wants % 2 ^ 32) 0xff;
    peer_want = bit_and (c.policy_wants % 2 ^ 32 / 2 ^ 8) 0xff;
    pending = pending;
    last_sync_at = c.policy_last_sync_at;
  })

-- SELECT … WHERE rel_id = ?1.
unfoldable pub load_policy : Relationships → String → Store PolicyState
unfolding state_of
load_policy [] rel_id = err (unknown_rel rel_id)
load_policy ((id, c) ∷ rows) rel_id =
    if str_eq id rel_id then state_of c else load_policy rows rel_id

-- UPDATE … WHERE rel_id = ?1: a relationship that is not there leaves the table as it is.
unfoldable pub save_policy : Relationships → String → PolicyState → Relationships
unfolding columns_of
save_policy [] rel_id s = []
save_policy ((id, c) ∷ rows) rel_id s =
    (id, if str_eq id rel_id then columns_of s else c) ∷ save_policy rows rel_id s

unfoldable pub message_expiry : Relationships → String → ℕ → Store (Option ℕ)
unfolding load_policy expiry_at
message_expiry db rel_id floor = do s ← load_policy db rel_id; ok (expiry_at s floor)

unfoldable pub attachments_allowed : Relationships → String → Store Bool
unfolding load_policy attachments
attachments_allowed db rel_id = do s ← load_policy db rel_id; ok (attachments s)

-- The part of the message ledger that a clamp reads and writes.
pub record ExpiryRow : Type 0 where
  pub rel_id : String
  pub expires_at : Option ℕ

-- `expires_at IS NULL OR expires_at > ?2`.
abbrev pub past_horizon : Option ℕ → ℕ → Bool
past_horizon none before = true
past_horizon (some e) before = ltb before e

-- UPDATE messages SET expires_at = ?2 WHERE rel_id = ?1 AND (…), with the count of changed rows.
unfoldable pub clamp_message_expiry : List ExpiryRow → String → ℕ → List ExpiryRow × ℕ
clamp_message_expiry [] rel_id before = ([], 0)
clamp_message_expiry (m ∷ ms) rel_id before =
    let (rest, n) = clamp_message_expiry ms rel_id before in
    if str_eq m.rel_id rel_id && past_horizon m.expires_at before
    then (record m { expires_at = some before } ∷ rest, n + 1)
    else (m ∷ rest, n)
