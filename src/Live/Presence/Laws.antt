-- ===== src/Live/Presence/Laws.antt =====
-- The dots and the events that report them.
use s_chat6_core.Common.{
  ℕ, ◌-◌, ◌≤◌, ◌≡◌, refl, ◌∙◌, ap, arith, List, ltb, false, not, ◌&&◌, Option, none, some,
  Bool-cases, inl, inr,
}
use s_chat6_core.Wire.Payload.{Presence}
use s_chat6_core.Live.Table.{get, is_in}
use s_chat6_core.Live.Table.Laws.{IsMap, kept, passes, get-retain, keys_where-passes}
use s_chat6_core.Live.Presence.{PresenceTable, is_fresh, shown, state, sweep}

shown_later :
    (now later : ℕ) (o : Option (Presence × ℕ))
    → now ≤ later
    → shown later (kept (is_fresh now) o) ≡ shown later o
shown_later now later none le = refl
shown_later now later (some (p, at)) le = elim (Bool-cases (ltb (now - at) 45)) [
  | inl fresh ↦ rw fresh refl
  | inr stale ↦
      let still : ltb (later - at) 45 ≡ false = ground (arith, stale, le) in rw (stale, still) refl
]

-- A sweep, of a table with one entry for a peer, changes nothing that is shown at that time or later, and reports
-- exactly the peers that were last in the app and have not been heard of for 45 seconds.
pub decay-reports :
    (rel : List ℕ) (now later : ℕ) (t : PresenceTable)
    → IsMap t
    → now ≤ later
    → (state rel later (sweep now t).0 ≡ state rel later t)
      × (is_in rel (sweep now t).1 ≡ passes (λ e. not (is_fresh now e) && e.0.in_app) (get rel t))
unfolding sweep state
decay-reports rel now later t m le = (
  ap (shown later) (get-retain (is_fresh now) rel t m) ∙ shown_later now later (get rel t) le,
  keys_where-passes _ rel t m,
)
