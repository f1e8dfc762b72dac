-- ===== src/Transport/Heal.antt =====
-- crates/core/src/transport/heal.rs: the ladder of repairs, the budget of restarts and the health of the
-- descriptor uploads. The clock's answer is an argument; a subtraction on numbers stops at 0 as saturating_sub does.
pub mod Budget
use s_chat6_core.Common.{
  ℕ, zero, suc, ◌+◌, ◌-◌, ◌*◌, ◌%◌, ◌^◌, List, [], ◌∷◌, ◌++◌, length, ltb, leb, ◌==◌, Bool, true,
  false, ◌&&◌, if◌then◌else◌, Option, none, some,
}

abbrev heal_reload_cooldown_ms : ℕ
heal_reload_cooldown_ms = 60_000

abbrev heal_newnym_cooldown_ms : ℕ
heal_newnym_cooldown_ms = 120_000

abbrev heal_restart_cooldown_ms : ℕ
heal_restart_cooldown_ms = 300_000

abbrev pub max_restarts : ℕ
max_restarts = 3

abbrev pub restart_window_ms : ℕ
restart_window_ms = 10 * 60_000

abbrev hs_fail_min : ℕ
hs_fail_min = 3

data HealAction : Type 0 where
  reload : HealAction
  newnym : HealAction
  restart : HealAction

record HealLadder : Type 0 where
  level : ℕ
  last_heal_ms : Option ℕ

abbrev cooldown : ℕ → ℕ
cooldown zero = 0
cooldown (suc zero) = heal_reload_cooldown_ms
cooldown (suc (suc zero)) = heal_newnym_cooldown_ms
cooldown (suc (suc (suc level))) = heal_restart_cooldown_ms

abbrev action_at : ℕ → HealAction
action_at zero = reload
action_at (suc zero) = newnym
action_at (suc (suc level)) = restart

abbrev is_cooling : Option ℕ → ℕ → ℕ → Bool
is_cooling none now wait = false
is_cooling (some last) now wait = ltb (now - last) wait

unfoldable escalate : ℕ → HealLadder → HealLadder × Option HealAction
escalate now ladder =
    if is_cooling ladder.last_heal_ms now (cooldown ladder.level) then (ladder, none) else (
      record { level = (ladder.level + 1) % 2 ^ 32; last_heal_ms = some now },
      some (action_at ladder.level),
    )

unfoldable reset : HealLadder → HealLadder
reset ladder = record ladder { level = 0 }

-- The `while` at the front of the queue.
unfoldable pub pop_old : ℕ → List ℕ → List ℕ
pop_old now [] = []
pop_old now (t ∷ ts) =
    let rest = pop_old now ts in if ltb restart_window_ms (now - t) then rest else t ∷ ts

unfoldable pub record_restart : ℕ → List ℕ → List ℕ × Bool
unfolding pop_old
record_restart now restarts =
    if leb max_restarts (length (pop_old now restarts))
    then (pop_old now restarts, false)
    else (pop_old now restarts ++ (now ∷ []), true)

record HsHealth : Type 0 where
  failures : ℕ
  uploads : ℕ

unfoldable record_failed : HsHealth → HsHealth
record_failed h = record h { failures = (h.failures + 1) % 2 ^ 32 }

unfoldable record_uploaded : HsHealth → HsHealth
record_uploaded h = record h { uploads = (h.uploads + 1) % 2 ^ 32 }

-- Whether to escalate, and whether the window was healthy.
unfoldable evaluate : HsHealth → Bool × Bool
evaluate h =
    (leb hs_fail_min h.failures && ltb h.uploads h.failures, h.failures == 0 && ltb 0 h.uploads)

unfoldable clear : HsHealth → HsHealth
clear h = record { failures = 0; uploads = 0 }
