-- ===== src/Caps.antt =====
-- crates/wire-types/src/caps.rs and crates/core/src/caps/mod.rs: the capabilities that a peer advertises and the
-- types that need one. The column peer_caps is a table from relationships.
pub mod Gate
mod Tests
use s_chat6_core.Common.{
  ℕ, ◌+◌, ◌%◌, ◌^◌, List, [], ◌∷◌, bytes_eq, ◌==◌, Bool, true, false, not, if◌then◌else◌, Option,
  none, some, bit_and,
}
use s_chat6_core.Wire.Envelope.{
  EnvelopeType, msg, edit, delete, delete_all, resync_req, attach_head, attach_chunk, contact_close,
  profile, pref, profile_req, sticker, sticker_ctrl, presence, chat_policy, typing, read,
}
use s_chat6_core.Live.Table.{Table, get}

abbrev cap_v15 : ℕ
cap_v15 = 1

abbrev cap_v19 : ℕ
cap_v19 = 2

abbrev cap_sticker : ℕ
cap_sticker = 4

abbrev cap_presence : ℕ
cap_presence = 8

abbrev cap_policy : ℕ
cap_policy = 16

abbrev cap_typing : ℕ
cap_typing = 32

abbrev cap_read : ℕ
cap_read = 64

abbrev pub local : ℕ
local = 127

unfoldable pub has : ℕ → ℕ → Bool
has peer_caps bit = not (bit_and peer_caps bit == 0)

unfoldable required_cap : EnvelopeType → Option ℕ
required_cap msg = none
required_cap edit = none
required_cap delete = none
required_cap delete_all = none
required_cap resync_req = none
required_cap attach_head = none
required_cap attach_chunk = none
required_cap contact_close = none
required_cap profile = none
required_cap pref = none
required_cap profile_req = none
required_cap sticker = some cap_sticker
required_cap sticker_ctrl = some cap_sticker
required_cap presence = some cap_presence
required_cap chat_policy = some cap_policy
required_cap typing = some cap_typing
required_cap read = some cap_read

-- UPDATE relationships SET peer_caps = ?2 WHERE rel_id = ?1.
unfoldable pub note_peer_caps : List ℕ → ℕ → Table ℕ → Table ℕ
note_peer_caps rel_id caps [] = []
note_peer_caps rel_id caps ((k, v) ∷ rows) =
    (k, if bytes_eq k rel_id then caps else v) ∷ note_peer_caps rel_id caps rows

abbrev pub or_none : Option ℕ → ℕ
or_none none = 0
or_none (some caps) = caps

-- Nothing advertised is 0.
unfoldable pub peer_caps : List ℕ → Table ℕ → ℕ
peer_caps rel_id rows = or_none (get rel_id rows)

abbrev allows_cap : ℕ → Option ℕ → Bool
allows_cap caps none = true
allows_cap caps (some bit) = has caps bit

unfoldable pub allows : ℕ → EnvelopeType → Bool
unfolding has required_cap
allows caps t = allows_cap caps (required_cap t)

-- The counter of the process comes back with the answer.
unfoldable pub check_inbound : List ℕ → EnvelopeType → Table ℕ → ℕ → ℕ × Bool
unfolding peer_caps allows
check_inbound rel_id t rows gated_drops =
    if allows (peer_caps rel_id rows) t
    then (gated_drops, true)
    else ((gated_drops + 1) % 2 ^ 64, false)

unfoldable pub check_outbound : ℕ → EnvelopeType → Bool
unfolding allows
check_outbound caps t = allows caps t
