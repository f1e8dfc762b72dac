-- ===== src/Transport/Tests.antt =====
-- The ring of fingerprints at work.
use s_chat6_core.Common.{ℕ, List, ◌≤◌, ◌≡◌, refl, arith, [], ◌∷◌}
use s_chat6_core.Transport.Seen.{SeenRing, mark, contains}
use s_chat6_core.Transport.Seen.Lru.{IsRing, touch, mark-touch}
use s_chat6_core.Transport.Heal.{max_restarts, record_restart}
use s_chat6_core.Transport.Heal.Budget.{let_through, count_from, record_restart-bounded}

-- A full ring, in which the first fingerprint is seen again.
abbrev full : SeenRing
full = record { capacity = 2; order = (1 ∷ []) ∷ (2 ∷ []) ∷ []; set = (1 ∷ []) ∷ (2 ∷ []) ∷ [] }

mark-touch_example :
    ((mark (3 ∷ []) full).1 ≡ contains (3 ∷ []) full.order)
    × ((mark (3 ∷ []) full).0.order ≡ touch full.capacity (3 ∷ []) full.order)
    × IsRing (mark (3 ∷ []) full).0
unfolding contains
mark-touch_example =
    mark-touch (3 ∷ []) full
      (record { distinct = (refl, (refl, tt)); fits = omega arith; same = λ fp. refl })

-- The fourth call is refused; the fifth comes when the first restart is out of the window.
abbrev some_calls : List ℕ
some_calls = 0 ∷ 1 ∷ 2 ∷ 600_000 ∷ 600_001 ∷ []

let_through_lem : let_through some_calls [] ≡ 0 ∷ 1 ∷ 2 ∷ 600_001 ∷ []
unfolding record_restart
let_through_lem = refl

record_restart-bounded_example : count_from 1 (let_through some_calls []) ≤ max_restarts
record_restart-bounded_example =
    record_restart-bounded 1 0 some_calls
      (omega arith, (omega arith, (omega arith, (omega arith, (omega arith, tt)))))
