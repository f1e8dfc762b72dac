-- ===== src/Policy/Invariant.antt =====
-- The inbound and outbound operations as steps, and what holds in the states that they reach.
use s_chat6_core.Common.{ℕ, ◌^◌, ◌<◌, ◌≡◌, arith, List, Bool, true, Option, none, some, ok}
use s_chat6_core.Common.Bits.{bit_or-lt, bit_and-le}
use s_chat6_core.Common.Words.{not32}
use s_chat6_core.Wire.Policy.{ChatPolicy, validate, is_allowed_ttl, cap_bit, op_rule_propose}
use s_chat6_core.Policy.{PolicyState, PendingProposal, default_state}
use s_chat6_core.Policy.Machine.{
  ApplyOutcome, apply_rules, apply_propose, apply_accept, accept_pending, apply_cap_set, apply_sync,
  build_propose, build_accept, build_accept_pending, build_cap_set, build_sync, wants,
}

-- One operation on the state of a relationship. A payload from the peer has passed the codec.
pub data Step (s s' : PolicyState) : Type 0 where
  propose_in :
      (p : ChatPolicy) (msg_id : List ℕ)
      → validate p ≡ ok tt
      → p.op ≡ op_rule_propose
      → s' ≡ apply_propose s p msg_id
      → Step s s'
  accept_in :
      (p : ChatPolicy) (now : ℕ) (o : ApplyOutcome)
      → apply_accept s p now ≡ some (s', o)
      → Step s s'
  cap_set_in : (id : ℕ) (on : Bool) → s' ≡ (apply_cap_set s id on).0 → Step s s'
  sync_in : (p : ChatPolicy) → s' ≡ (apply_sync s p).0 → Step s s'
  propose_out :
      (ttl : ℕ) (screenshot download : Bool) (id : List ℕ) (p : ChatPolicy)
      → build_propose s ttl screenshot download id ≡ some (s', p)
      → Step s s'
  accept_out :
      (now : ℕ) (p : ChatPolicy) (o : ApplyOutcome)
      → build_accept s now ≡ some (s', p, o)
      → Step s s'
  decline : s' ≡ record s { pending = none } → Step s s'
  cap_set_out :
      (id : ℕ) (on : Bool) (p : ChatPolicy) (o : ApplyOutcome)
      → build_cap_set s id on ≡ some (s', p, o)
      → Step s s'
  sync_out : (now : ℕ) → s' ≡ (build_sync s now).0 → Step s s'

pub data Reach (s : PolicyState) : PolicyState → Type 0 where
  here : Reach s s
  next : {t u : PolicyState} → Reach s t → Step t u → Reach s u

-- The TTL of a proposal that is waiting, if there is one, is one of the options.
abbrev PendingAllowed : Option PendingProposal → Type 0
PendingAllowed none = Unit {0}
PendingAllowed (some q) = is_allowed_ttl q.ttl_sec ≡ true

pub record Inv (s : PolicyState) : Type 0 where
  ttl_allowed : is_allowed_ttl s.ttl_sec ≡ true
  pending_allowed : PendingAllowed s.pending
  -- The wants fit the byte that the store keeps of each.
  pub local_byte : s.local_want < 2 ^ 8
  pub peer_byte : s.peer_want < 2 ^ 8

cap_bit-lt : (id : ℕ) → cap_bit id < 2 ^ 8
unfolding cap_bit
cap_bit-lt id = ground arith

wants-lt : (p : ChatPolicy) → wants p < 2 ^ 8
unfolding wants
wants-lt p = ground arith

validated_ttl :
    (p : ChatPolicy) → validate p ≡ ok tt → p.op ≡ op_rule_propose → is_allowed_ttl p.ttl_sec ≡ true
unfolding validate
validated_ttl p v e = ground arith

module _ (s : PolicyState) (inv : Inv s) where
  propose_in-Inv :
      (p : ChatPolicy) (msg_id : List ℕ)
      → validate p ≡ ok tt
      → p.op ≡ op_rule_propose
      → Inv (apply_propose s p msg_id)
  unfolding apply_propose
  propose_in-Inv p msg_id v e = ground (arith, validated_ttl p v e)

  apply_rules-Inv :
      (q : PendingProposal) (now : ℕ)
      → is_allowed_ttl q.ttl_sec ≡ true
      → Inv (apply_rules s q.ttl_sec q.screenshot q.attach_download now).0
  unfolding apply_rules
  apply_rules-Inv q now h = ground arith

  accept_pending-Inv :
      (m : Option PendingProposal) (p : ChatPolicy) (now : ℕ) {s' : PolicyState} {o : ApplyOutcome}
      → PendingAllowed m
      → accept_pending m s p now ≡ some (s', o)
      → Inv s'
  unfolding accept_pending
  accept_pending-Inv none p now h e = cc
  accept_pending-Inv (some q) p now h e = ground (arith, apply_rules-Inv q now h)

  build_accept_pending-Inv :
      (m : Option PendingProposal) (now : ℕ) {s' : PolicyState} {p : ChatPolicy} {o : ApplyOutcome}
      → PendingAllowed m
      → build_accept_pending m s now ≡ some (s', p, o)
      → Inv s'
  unfolding build_accept_pending
  build_accept_pending-Inv none now h e = cc
  build_accept_pending-Inv (some q) now h e = ground (arith, apply_rules-Inv q now h)

  cap_set_in-Inv : (id : ℕ) (on : Bool) → Inv (apply_cap_set s id on).0
  unfolding apply_cap_set
  cap_set_in-Inv id on = ground (
    arith,
    bit_or-lt 8 s.peer_want (cap_bit id) inv.peer_byte (cap_bit-lt id),
    bit_and-le s.local_want (not32 (cap_bit id)),
    bit_and-le s.peer_want (not32 (cap_bit id)),
  )

  sync_in-Inv : (p : ChatPolicy) → Inv (apply_sync s p).0
  unfolding apply_sync
  sync_in-Inv p = ground (arith, wants-lt p)

  propose_out-Inv :
      (ttl : ℕ) (screenshot download : Bool) (id : List ℕ) {s' : PolicyState} {p : ChatPolicy}
      → build_propose s ttl screenshot download id ≡ some (s', p)
      → Inv s'
  unfolding build_propose
  propose_out-Inv ttl screenshot download id e = ground arith

  cap_set_out-Inv :
      (id : ℕ) (on : Bool) {s' : PolicyState} {p : ChatPolicy} {o : ApplyOutcome}
      → build_cap_set s id on ≡ some (s', p, o)
      → Inv s'
  unfolding build_cap_set
  cap_set_out-Inv id on e = ground (
    arith,
    bit_or-lt 8 s.local_want (cap_bit id) inv.local_byte (cap_bit-lt id),
    bit_and-le s.local_want (not32 (cap_bit id)),
    bit_and-le s.peer_want (not32 (cap_bit id)),
  )

-- Every operation keeps the invariant.
Step-Inv : {s s' : PolicyState} → Step s s' → Inv s → Inv s'
unfolding apply_accept build_accept build_sync
Step-Inv {s} (propose_in p msg_id v o e) inv = rw e (propose_in-Inv s inv p msg_id v o)
Step-Inv {s} (accept_in p now o e) inv =
    accept_pending-Inv s inv s.pending p now inv.pending_allowed e
Step-Inv {s} (cap_set_in id on e) inv = rw e (cap_set_in-Inv s inv id on)
Step-Inv {s} (sync_in p e) inv = rw e (sync_in-Inv s inv p)
Step-Inv {s} (propose_out ttl sc dl id p e) inv = propose_out-Inv s inv ttl sc dl id e
Step-Inv {s} (accept_out now p o e) inv =
    build_accept_pending-Inv s inv s.pending now inv.pending_allowed e
Step-Inv {s} (decline e) inv = rw e (ground arith)
Step-Inv {s} (cap_set_out id on p o e) inv = cap_set_out-Inv s inv id on e
Step-Inv {s} (sync_out now e) inv = rw e (ground arith)

default-Inv : Inv default_state
unfolding default_state is_allowed_ttl
default-Inv = ground arith

-- In every state that can be reached from a new relationship, the agreed TTL and that of a waiting
-- proposal are among the allowed options, and the wants of each side fit a byte.
pub Reach-Inv : {s : PolicyState} → Reach default_state s → Inv s
Reach-Inv here = default-Inv
Reach-Inv (next r st) = Step-Inv st (Reach-Inv r)
