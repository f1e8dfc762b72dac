-- ===== src/Transport/Heal/Budget.antt =====
-- The restarts of a run of `record_restart`, counted in a window.
use s_chat6_core.Common.{
  ℕ, suc, ◌+◌, ◌≤◌, ◌<◌, ◌≡◌, refl, arith, List, [], ◌∷◌, ◌++◌, length, length-append, ltb, leb,
  false, ◌&&◌, if◌then◌else◌, Bool-cases, inl, inr,
}
use s_chat6_core.Transport.Heal.{max_restarts, restart_window_ms, pop_old, record_restart}

-- The times at which a restart was let through, the calls in order.
abbrev pub let_through : List ℕ → List ℕ → List ℕ
let_through [] restarts = []
let_through (now ∷ calls) restarts =
    let rest = let_through calls (record_restart now restarts).0 in
    if (record_restart now restarts).1 then now ∷ rest else rest

-- How many of the times lie between `from` and `from` + the window, both included.
abbrev pub count_from : ℕ → List ℕ → ℕ
count_from from [] = 0
count_from from (t ∷ ts) =
    let rest = count_from from ts in
    if leb from t && leb t (from + restart_window_ms) then suc rest else rest

-- The clock does not go back.
abbrev IsForward : ℕ → List ℕ → Type 0
IsForward last [] = Unit
IsForward last (now ∷ calls) = (last ≤ now) × IsForward now calls

count_from-append :
    (from : ℕ) (ts us : List ℕ)
    → count_from from (ts ++ us) ≡ count_from from ts + count_from from us
count_from-append from [] us = omega arith
count_from-append from (t ∷ ts) us = ground (arith, count_from-append from ts us)

count_from-le : (from : ℕ) (ts : List ℕ) → count_from from ts ≤ length ts
count_from-le from [] = omega arith
count_from-le from (t ∷ ts) = ground (arith, count_from-le from ts)

-- What is popped cannot be in a window that holds the present.
popped :
    (from now : ℕ) (ts : List ℕ)
    → now ≤ from + restart_window_ms
    → count_from from (pop_old now ts) ≡ count_from from ts
unfolding pop_old
popped from now [] h = refl
popped from now (t ∷ ts) h = ground (arith, popped from now ts h)

-- Nothing that comes behind the window counts.
past :
    (from last : ℕ) (calls restarts : List ℕ)
    → from + restart_window_ms < last
    → IsForward last calls
    → count_from from (let_through calls restarts) ≡ 0
past from last [] restarts h f = refl
past from last (now ∷ calls) restarts h (le, f) =
    ground (arith, past from now calls (record_restart now restarts).0 (omega (arith, h, le)) f, le)

shorter :
    (now : ℕ) (restarts : List ℕ)
    → length restarts ≤ max_restarts
    → length (pop_old now restarts) ≤ max_restarts
unfolding pop_old
shorter now [] h = h
shorter now (t ∷ ts) h = ground (arith, shorter now ts (omega (arith, h)), h)

less :
    (now : ℕ) (restarts : List ℕ)
    → leb max_restarts (length (pop_old now restarts)) ≡ false
    → length (pop_old now restarts) < max_restarts
less now restarts h = ground (arith, h)

bounded :
    (from last : ℕ) (calls restarts : List ℕ)
    → length restarts ≤ max_restarts
    → IsForward last calls
    → count_from from restarts + count_from from (let_through calls restarts) ≤ max_restarts
unfolding record_restart
bounded from last [] restarts small f = omega (arith, count_from-le from restarts, small)
bounded from last (now ∷ calls) restarts small (le, f) =
    elim (Bool-cases (ltb (from + restart_window_ms) now)) [
      | inl behind ↦ omega (
        arith,
        count_from-le from restarts,
        small,
        past from now (now ∷ calls) restarts (ground (arith, behind)) (omega arith, f),
      )
      | inr within ↦
          let same = popped from now restarts (ground (arith, within)) in
          elim (Bool-cases (leb max_restarts (length (pop_old now restarts)))) [
            | inl full ↦
                let kept = shorter now restarts small in
                rw full (omega (arith, same, bounded from now calls (pop_old now restarts) kept f))
            | inr free ↦
                let added = pop_old now restarts ++ (now ∷ []) in
                let room : length added ≤ max_restarts = omega (
                  arith,
                  length-append {0} (pop_old now restarts) (now ∷ []),
                  less now restarts free,
                ) in
                let ih = bounded from now calls added room f in
                rw free (
                  omega (
                    arith,
                    same,
                    ih,
                    count_from-append from (pop_old now restarts) (now ∷ []),
                    count_from-append from (now ∷ []) (let_through calls added),
                  ))
          ]
    ]

-- However often repairs are asked for, starting with no restart remembered and while the clock does not go
-- back, at most three restarts are let through in any ten minutes.
pub record_restart-bounded :
    (from start : ℕ) (calls : List ℕ)
    → IsForward start calls
    → count_from from (let_through calls []) ≤ max_restarts
record_restart-bounded from start calls f =
    omega (arith, bounded from start calls [] (omega arith) f)
