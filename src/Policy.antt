-- ===== src/Policy.antt =====
-- crates/core/src/policy: per-chat rules and capability wants. This file is mod.rs.
pub mod Machine
pub mod Wants
pub mod Invariant
pub mod Consent
pub mod Store
pub mod Protocol
mod Tests
use s_chat6_core.Common.{
  ℕ, ◌+◌, ◌%◌, ◌^◌, List, Bool, true, false, ◌==◌, not, if◌then◌else◌, Option, none, some, bit_and,
  bit_or,
}
use s_chat6_core.Common.Words.{add64}
use s_chat6_core.Wire.Policy.{
  ttl_never, ttl_24h, flag_want_attach, flag_want_emoji, flag_want_presence, flag_want_typing,
  flag_want_receipts,
}

abbrev want_all : ℕ
want_all =
    bit_or
      (bit_or (bit_or (bit_or flag_want_attach flag_want_emoji) flag_want_presence)
        flag_want_typing)
      flag_want_receipts

pub record PendingProposal : Type 0 where
  pub ttl_sec : ℕ  -- u32
  pub screenshot : Bool
  pub attach_download : Bool
  -- true: they proposed, and we may accept
  pub inbound : Bool
  pub propose_id : List ℕ  -- [u8; 16]

pub record PolicyState : Type 0 where
  pub ttl_sec : ℕ  -- u32
  pub screenshot : Bool
  pub attach_download : Bool
  pub local_want : ℕ  -- u32
  pub peer_want : ℕ  -- u32
  pub pending : Option PendingProposal
  pub last_sync_at : ℕ  -- u64

unfoldable pub default_state : PolicyState
default_state = record {
  ttl_sec = ttl_24h;
  screenshot = true;
  attach_download = true;
  local_want = want_all;
  peer_want = want_all;
  pending = none;
  last_sync_at = 0;
}

-- On only if both sides want it.
unfoldable pub enforced : PolicyState → ℕ → Bool
enforced s bit = not (bit_and (bit_and s.local_want s.peer_want) bit == 0)

unfoldable pub attachments : PolicyState → Bool
unfolding enforced
attachments s = enforced s flag_want_attach

unfoldable pub emoji : PolicyState → Bool
unfolding enforced
emoji s = enforced s flag_want_emoji

unfoldable pub presence : PolicyState → Bool
unfolding enforced
presence s = enforced s flag_want_presence

unfoldable pub typing : PolicyState → Bool
unfolding enforced
typing s = enforced s flag_want_typing

unfoldable pub receipts : PolicyState → Bool
unfolding enforced
receipts s = enforced s flag_want_receipts

-- `none` is "never expires".
unfoldable pub expiry_at : PolicyState → ℕ → Option ℕ
expiry_at s floor = if s.ttl_sec == ttl_never then none else some (add64 floor s.ttl_sec)
