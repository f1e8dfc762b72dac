-- ===== src/Live/Typing.antt =====
-- crates/core/src/typing/mod.rs: the typing indicators.
pub mod Laws
use s_chat6_core.Common.{
  ℕ, ◌+◌, ◌-◌, ◌%◌, ◌^◌, List, [], ◌∷◌, ltb, leb, ◌==◌, Bool, true, false, not, if◌then◌else◌,
  Option, none, some,
}
use s_chat6_core.Live.Table.{Table, get, remove, insert, retain, keys_where}

abbrev pub typing_ttl_secs : ℕ
typing_ttl_secs = 5

abbrev typing_send_interval_secs : ℕ
typing_send_interval_secs = 3

pub record TypingTable : Type 0 where
  pub inbound : Table ℕ
  pub last_sent : Table ℕ

abbrev pub same_flag : Bool → Bool → Bool
same_flag true b = b
same_flag false b = not b

abbrev pub is_lit : ℕ → Option ℕ → Bool
is_lit now none = false
is_lit now (some exp) = ltb now exp

unfoldable pub is_typing : List ℕ → ℕ → TypingTable → Bool
is_typing rel_id now t = is_lit now (get rel_id t.inbound)

-- An event only for a change.
unfoldable pub note : List ℕ → Bool → ℕ → TypingTable → TypingTable × Option Bool
unfolding is_typing
note rel_id typing now t = (
  record t {
    inbound =
        if typing
        then insert rel_id ((now + typing_ttl_secs) % 2 ^ 64) t.inbound
        else remove rel_id t.inbound;
  },
  if same_flag (is_typing rel_id now t) typing then none else some typing,
)

-- The relationships whose indicator went off.
unfoldable pub sweep : ℕ → TypingTable → TypingTable × List (List ℕ)
sweep now t = (
  record t { inbound = retain (λ exp. not (leb exp now)) t.inbound },
  keys_where (λ exp. leb exp now) t.inbound,
)

abbrev may_send : ℕ → Option ℕ → Bool
may_send now none = true
may_send now (some at) = leb typing_send_interval_secs (now - at)

unfoldable should_send : List ℕ → ℕ → TypingTable → Bool
should_send rel_id now t = may_send now (get rel_id t.last_sent)

unfoldable note_sent : List ℕ → ℕ → TypingTable → TypingTable
note_sent rel_id now t = record t { last_sent = insert rel_id now t.last_sent }

unfoldable pub forget : List ℕ → TypingTable → TypingTable
forget rel_id t = record {
  inbound = remove rel_id t.inbound;
  last_sent = remove rel_id t.last_sent;
}
