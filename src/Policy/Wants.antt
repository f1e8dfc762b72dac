-- ===== src/Policy/Wants.antt =====
-- The wants of both sides as sets of capabilities, and what each operation does to those sets.
use s_chat6_core.Common.{
  ℕ, zero, suc, ◌+◌, ◌^◌, ◌≤◌, ◌≡◌, refl, arith, List, Bool, false, ◌&&◌, ◌||◌, not, ◌==◌, some,
  bit_or, if◌then◌else◌, ==_iff,
}
use s_chat6_core.Common.Words.{clear_bits}
use s_chat6_core.Wire.Policy.{ChatPolicy, has_flag, cap_bit, cap_id_max}
use s_chat6_core.Wire.Flags.{has_flag-bit_and, has_flag-set, has_flag-clear}
use s_chat6_core.Policy.{PolicyState, enforced}
use s_chat6_core.Policy.Machine.{
  ApplyOutcome, apply_cap_set, apply_sync, build_cap_set, payload, wants,
}

-- What each side wants, and what is on: the abstract state of a capability.
unfoldable pub local_on : PolicyState → ℕ → Bool
local_on s id = has_flag s.local_want (cap_bit id)

unfoldable pub peer_on : PolicyState → ℕ → Bool
peer_on s id = has_flag s.peer_want (cap_bit id)

unfoldable pub is_on : PolicyState → ℕ → Bool
is_on s id = enforced s (cap_bit id)

cap_bit-two_pow : (id : ℕ) → id ≤ cap_id_max → cap_bit id ≡ 2 ^ (id + 2)
unfolding cap_bit
cap_bit-two_pow zero h = refl
cap_bit-two_pow (suc zero) h = refl
cap_bit-two_pow (suc (suc zero)) h = refl
cap_bit-two_pow (suc (suc (suc zero))) h = refl
cap_bit-two_pow (suc (suc (suc (suc zero)))) h = refl
cap_bit-two_pow (suc (suc (suc (suc (suc id))))) h = absurd (omega arith)

cap_bit-ne_zero : (id : ℕ) → id ≤ cap_id_max → (cap_bit id == 0) ≡ false
unfolding cap_bit
cap_bit-ne_zero id h = ground arith

shift_eq : (j k : ℕ) → (j + 2 == k + 2) ≡ (j == k)
shift_eq j k = ground arith

module _ (n id k : ℕ) (hid : id ≤ cap_id_max) (hk : k ≤ cap_id_max) where
  set_cap : has_flag (bit_or n (cap_bit id)) (cap_bit k) ≡ (id == k || has_flag n (cap_bit k))
  set_cap = rw (cap_bit-two_pow id hid, cap_bit-two_pow k hk, has_flag-set, shift_eq)

  clear_cap :
      has_flag (clear_bits n (cap_bit id)) (cap_bit k) ≡ (not (id == k) && has_flag n (cap_bit k))
  clear_cap = rw (
    cap_bit-two_pow id hid,
    cap_bit-two_pow k hk,
    has_flag-clear n (id + 2) (k + 2) (omega arith) (omega arith),
    shift_eq,
  )

-- A capability is on exactly when both sides want it.
pub is_on_lem :
    (s : PolicyState) (id : ℕ) → id ≤ cap_id_max → is_on s id ≡ (local_on s id && peer_on s id)
unfolding is_on local_on peer_on enforced
is_on_lem s id h = rw (cap_bit-two_pow id h) (has_flag-bit_and s.local_want s.peer_want (id + 2))

-- The whole effect of an inbound CAP_SET on the wants.
pub apply_cap_set_wants :
    (s : PolicyState) (id k : ℕ) (on : Bool)
    → id ≤ cap_id_max
    → k ≤ cap_id_max
    → (local_on (apply_cap_set s id on).0 k ≡ (local_on s k && (on || not (id == k))))
      × (peer_on (apply_cap_set s id on).0 k ≡ (if id == k then on else peer_on s k))
unfolding apply_cap_set local_on peer_on
apply_cap_set_wants s id k on hid hk = ground (
  arith,
  cap_bit-ne_zero id hid,
  set_cap s.peer_want id k hid hk,
  clear_cap s.local_want id k hid hk,
  clear_cap s.peer_want id k hid hk,
)

-- The whole effect of an outbound CAP_SET on the wants, where it is not a no-op.
pub build_cap_set_wants :
    (s : PolicyState) (id k : ℕ) (on : Bool) {s' : PolicyState} {p : ChatPolicy} {o : ApplyOutcome}
    → id ≤ cap_id_max
    → k ≤ cap_id_max
    → build_cap_set s id on ≡ some (s', p, o)
    → (local_on s' k ≡ (if id == k then on else local_on s k))
      × (peer_on s' k ≡ (peer_on s k && (on || not (id == k))))
      × (p.cap_id ≡ id)
      × (p.cap_on ≡ on)
unfolding build_cap_set local_on peer_on payload
build_cap_set_wants s id k on hid hk e = ground (
  arith,
  cap_bit-ne_zero id hid,
  set_cap s.local_want id k hid hk,
  clear_cap s.local_want id k hid hk,
  clear_cap s.peer_want id k hid hk,
)

-- The wants that a payload carries, capability by capability.
abbrev carried : ChatPolicy → ℕ → Bool
carried p zero = p.want_attach
carried p (suc zero) = p.want_emoji
carried p (suc (suc zero)) = p.want_presence
carried p (suc (suc (suc zero))) = p.want_typing
carried p (suc (suc (suc (suc id)))) = p.want_receipts

wants_lem :
    (p : ChatPolicy) (id : ℕ) → id ≤ cap_id_max → has_flag (wants p) (cap_bit id) ≡ carried p id
unfolding wants cap_bit
wants_lem p zero h = ground arith
wants_lem p (suc zero) h = ground arith
wants_lem p (suc (suc zero)) h = ground arith
wants_lem p (suc (suc (suc zero))) h = ground arith
wants_lem p (suc (suc (suc (suc zero)))) h = ground arith
wants_lem p (suc (suc (suc (suc (suc id))))) h = absurd (omega arith)

-- Every payload carries the sender's own wants.
pub payload_wants :
    (op : ℕ) (s : PolicyState) (cap_id : ℕ) (cap_on : Bool) (propose_id : List ℕ) (id : ℕ)
    → id ≤ cap_id_max
    → carried (payload op s cap_id cap_on propose_id) id ≡ local_on s id
unfolding payload local_on cap_bit
payload_wants op s c n i zero h = refl
payload_wants op s c n i (suc zero) h = refl
payload_wants op s c n i (suc (suc zero)) h = refl
payload_wants op s c n i (suc (suc (suc zero))) h = refl
payload_wants op s c n i (suc (suc (suc (suc zero)))) h = refl
payload_wants op s c n i (suc (suc (suc (suc (suc id))))) h = absurd (omega arith)

-- An inbound SYNC replaces the peer's wants by those that it carries, and leaves ours.
pub apply_sync_wants :
    (s : PolicyState) (p : ChatPolicy) (k : ℕ)
    → k ≤ cap_id_max
    → (local_on (apply_sync s p).0 k ≡ local_on s k) × (peer_on (apply_sync s p).0 k ≡ carried p k)
unfolding apply_sync local_on peer_on
apply_sync_wants s p k hk = ground (arith, wants_lem p k hk, ==_iff (wants p) s.peer_want)
