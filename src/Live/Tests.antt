-- ===== src/Live/Tests.antt =====
-- The tables at concrete entries.
use s_chat6_core.Common.{
  ◌≡◌, ◌⊎◌, refl, arith, [], ◌∷◌, bytes_eq, leb, true, false, not, ◌&&◌, if◌then◌else◌, none, some,
}
use s_chat6_core.Live.Table.{get, is_in}
use s_chat6_core.Live.Table.Laws.{passes}
use s_chat6_core.Live.Typing.{TypingTable, same_flag, is_typing}
use s_chat6_core.Live.Typing.Laws.{note-changes, sweep-reports, late_stop-silent}
use s_chat6_core.Live.Presence.{PresenceTable, is_fresh, state}
use s_chat6_core.Live.Presence.Laws.{decay-reports}

-- Two peers type; the indicator of the first is over at 105.
abbrev two_type : TypingTable
two_type = record { inbound = (1 ∷ [], 105) ∷ (2 ∷ [], 109) ∷ []; last_sent = [] }

note-changes_example :
    (is_typing (1 ∷ []) 106 (s_chat6_core.Live.Typing.note (1 ∷ []) true 106 two_type).0 ≡ true)
    × ((s_chat6_core.Live.Typing.note (1 ∷ []) true 106 two_type).1 ≡ (
        if same_flag
          (is_typing (1 ∷ []) 106 two_type)
          (is_typing (1 ∷ []) 106 (s_chat6_core.Live.Typing.note (1 ∷ []) true 106 two_type).0)
        then none
        else some
            (is_typing (1 ∷ []) 106 (s_chat6_core.Live.Typing.note (1 ∷ []) true 106 two_type).0)))
    × ((bytes_eq (1 ∷ []) (2 ∷ []) ≡ true)
        ⊎ (is_typing (2 ∷ []) 107 (s_chat6_core.Live.Typing.note (1 ∷ []) true 106 two_type).0
            ≡ is_typing (2 ∷ []) 107 two_type))
note-changes_example = note-changes (1 ∷ []) (2 ∷ []) true 106 107 two_type (omega arith)

sweep-reports_example :
    (is_typing (1 ∷ []) 107 (s_chat6_core.Live.Typing.sweep 106 two_type).0
      ≡ is_typing (1 ∷ []) 107 two_type)
    × (is_in (1 ∷ []) (s_chat6_core.Live.Typing.sweep 106 two_type).1
        ≡ passes (λ exp. leb exp 106) (get (1 ∷ []) two_type.inbound))
sweep-reports_example = sweep-reports (1 ∷ []) 106 107 two_type (refl, (refl, tt)) (omega arith)

late_stop-silent_example :
    ((s_chat6_core.Live.Typing.note (1 ∷ []) false 106 two_type).1 ≡ none)
    × (is_in
          (1 ∷ [])
          (s_chat6_core.Live.Typing.sweep 110
            (s_chat6_core.Live.Typing.note (1 ∷ []) false 106 two_type).0).1
        ≡ false)
late_stop-silent_example =
    late_stop-silent (1 ∷ []) 106 110 105 two_type (refl, (refl, tt)) refl (omega arith)

abbrev two_peers : PresenceTable
two_peers =
    (1 ∷ [], (record { in_app = true; do_not_disturb = false }, 100))
    ∷ (2 ∷ [], (record { in_app = true; do_not_disturb = true }, 140))
    ∷ []

decay-reports_example :
    (state (1 ∷ []) 151 (s_chat6_core.Live.Presence.sweep 150 two_peers).0
      ≡ state (1 ∷ []) 151 two_peers)
    × (is_in (1 ∷ []) (s_chat6_core.Live.Presence.sweep 150 two_peers).1
        ≡ passes (λ e. not (is_fresh 150 e) && e.0.in_app) (get (1 ∷ []) two_peers))
decay-reports_example = decay-reports (1 ∷ []) 150 151 two_peers (refl, (refl, tt)) (omega arith)
