-- ===== src/Sync/OutSeq.antt =====
-- The numbering of what we send: `next_out_seq` of crates/core/src/store/messages.rs. The floor is the
-- persisted setting of the relationship. The rows are the outbound ones of the relationship; a seq is below
-- 2 ^ 63, where the cast to `i64` changes nothing.
use s_chat6_core.Common.{
  ℕ, ◌+◌, ◌-◌, ◌^◌, ◌≤◌, ◌<◌, arith, List, [], ◌∷◌, ltb, if◌then◌else◌, max, All,
}

-- `MAX(app_seq)`, plus 1, or 1 when there is no row.
unfoldable from_ledger : List ℕ → ℕ
from_ledger [] = 1
from_ledger (s ∷ ss) = max (s + 1) (from_ledger ss)

-- `saturating_add(1)`.
unfoldable sat_suc64 : ℕ → ℕ
sat_suc64 n = if ltb (n + 1) (2 ^ 64) then n + 1 else 2 ^ 64 - 1

-- The seq, and the floor that is written.
unfoldable next_out_seq : List ℕ → ℕ → ℕ × ℕ
unfolding from_ledger sat_suc64
next_out_seq seqs floor = let next = max (from_ledger seqs) floor in (next, sat_suc64 next)

above-ledger : (seqs : List ℕ) (n : ℕ) → from_ledger seqs ≤ n → All (λ s. s < n) seqs
unfolding from_ledger
above-ledger [] n h = tt
above-ledger (s ∷ ss) n h = (omega (arith, h), above-ledger ss n (omega (arith, h)))

-- The seqs that are given out grow strictly, whatever the retention deletes from the ledger in between,
-- and each is above every seq of the ledger, as long as they stay below 2 ^ 64 - 1.
next_out_seq-grows :
    (before after : List ℕ) (floor : ℕ)
    → (next_out_seq before floor).0 + 1 < 2 ^ 64
    → All (λ s. s < (next_out_seq before floor).0) before
      × ((next_out_seq before floor).0 < (next_out_seq after (next_out_seq before floor).1).0)
unfolding next_out_seq
next_out_seq-grows before after floor h = (
  above-ledger before (max (from_ledger before) floor) (omega arith),
  unfold sat_suc64 in ground arith,
)
