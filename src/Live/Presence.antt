-- ===== src/Live/Presence.antt =====
-- crates/core/src/presence/mod.rs: the presence dots.
pub mod Laws
use s_chat6_core.Common.{
  ℕ, ◌-◌, List, [], ◌∷◌, ltb, Bool, true, false, not, ◌&&◌, if◌then◌else◌, Option, none, some,
}
use s_chat6_core.Wire.Payload.{Presence}
use s_chat6_core.Live.Table.{Table, get, remove, insert, retain, keys_where}
use s_chat6_core.Live.Typing.{same_flag}

abbrev pub presence_ttl_secs : ℕ
presence_ttl_secs = 45

pub record PeerPresence : Type 0 where
  pub in_app : Bool
  pub do_not_disturb : Bool

-- The flags, and when they were last refreshed.
abbrev pub PresenceTable : Type 0
PresenceTable = Table (Presence × ℕ)

abbrev pub peer_of : Presence → PeerPresence
peer_of p = record { in_app = p.in_app; do_not_disturb = p.do_not_disturb }

abbrev pub offline : PeerPresence
offline = record { in_app = false; do_not_disturb = false }

-- `prev == Some(p)`.
abbrev pub is_repeat : Option (Presence × ℕ) → Presence → Bool
is_repeat none p = false
is_repeat (some (old, at)) p =
    same_flag old.in_app p.in_app && same_flag old.do_not_disturb p.do_not_disturb

unfoldable pub note : List ℕ → Presence → ℕ → PresenceTable → PresenceTable × Option PeerPresence
note rel_id p now t =
    (insert rel_id (p, now) t, if is_repeat (get rel_id t) p then none else some (peer_of p))

abbrev pub is_fresh : ℕ → Presence × ℕ → Bool
is_fresh now (p, at) = ltb (now - at) presence_ttl_secs

abbrev pub shown : ℕ → Option (Presence × ℕ) → PeerPresence
shown now none = offline
shown now (some (p, at)) = if is_fresh now (p, at) then peer_of p else offline

unfoldable pub state : List ℕ → ℕ → PresenceTable → PeerPresence
state rel_id now t = shown now (get rel_id t)

-- The peers that went offline.
unfoldable pub sweep : ℕ → PresenceTable → PresenceTable × List (List ℕ)
sweep now t = (retain (is_fresh now) t, keys_where (λ e. not (is_fresh now e) && e.0.in_app) t)

unfoldable pub forget : List ℕ → PresenceTable → PresenceTable
forget rel_id t = remove rel_id t
