-- ===== src/Caps/Tests.antt =====
-- The gate at work: a peer that speaks stickers and typing, and a RESYNC_REQ that says so.
use s_chat6_core.Common.{
  ℕ, ◌+◌, ◌%◌, ◌^◌, ◌≡◌, ◌⊎◌, refl, [], ◌∷◌, bytes_eq, ltb, ◌==◌, not, ◌||◌, true, false,
  if◌then◌else◌, bit_and,
}
use s_chat6_core.Wire.Envelope.{code, read}
use s_chat6_core.Live.Table.{Table}
use s_chat6_core.Caps.{note_peer_caps, check_inbound, check_outbound}
use s_chat6_core.Caps.Gate.{bit_of, check_inbound-gated}

abbrev some_rows : Table ℕ
some_rows = (1 ∷ [], 127) ∷ (2 ∷ [], 0) ∷ []

check_inbound-gated_example :
    (check_inbound (2 ∷ []) read (note_peer_caps (2 ∷ []) 36 some_rows) 7 ≡ (
      if ltb (code read) 12 || not (bit_and 36 (bit_of (code read)) == 0)
      then (7, true)
      else ((7 + 1) % 2 ^ 64, false)))
    × (check_outbound 36 read
        ≡ (check_inbound (2 ∷ []) read (note_peer_caps (2 ∷ []) 36 some_rows) 7).1)
    × ((bytes_eq (2 ∷ []) (1 ∷ []) ≡ true)
        ⊎ (check_inbound (1 ∷ []) read (note_peer_caps (2 ∷ []) 36 some_rows) 7
            ≡ check_inbound (1 ∷ []) read some_rows 7))
check_inbound-gated_example = check_inbound-gated (2 ∷ []) (1 ∷ []) 36 0 read some_rows 7 refl
