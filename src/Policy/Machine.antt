-- ===== src/Policy/Machine.antt =====
-- crates/core/src/policy/machine.rs: the pure transitions. A `None` of the source is `none`.
use s_chat6_core.Common.{
  ℕ, List, Bool, true, false, ◌&&◌, ◌||◌, not, xor, ltb, ◌==◌, bytes_eq, replicate, if◌then◌else◌,
  Option, none, some, bit_or,
}
use s_chat6_core.Common.Words.{add64, clear_bits}
use s_chat6_core.Wire.Policy.{
  ChatPolicy, set_if, has_flag, cap_bit, is_allowed_ttl, ttl_never, op_rule_propose, op_rule_accept,
  op_cap_set, op_sync, flag_want_attach, flag_want_emoji, flag_want_presence, flag_want_typing,
  flag_want_receipts,
}
use s_chat6_core.Policy.{PendingProposal, PolicyState, enforced, attachments}

pub record ApplyOutcome : Type 0 where
  pub changed : Bool
  pub clamp_expiry_to : Option ℕ
  erase_attachments : Bool

abbrev default_outcome : ApplyOutcome
default_outcome = record { changed = false; clamp_expiry_to = none; erase_attachments = false }

abbrev pub zero_id : List ℕ
zero_id = replicate 16 0

unfoldable pub wants : ChatPolicy → ℕ
wants p = set_if p.want_receipts flag_want_receipts (
    set_if p.want_typing flag_want_typing (
      set_if p.want_presence flag_want_presence
        (set_if p.want_emoji flag_want_emoji (set_if p.want_attach flag_want_attach 0))))

unfoldable pub payload : ℕ → PolicyState → ℕ → Bool → List ℕ → ChatPolicy
payload op s cap_id cap_on propose_id = record {
  op = op;
  ttl_sec = s.ttl_sec;
  screenshot = s.screenshot;
  attach_download = s.attach_download;
  want_attach = has_flag s.local_want flag_want_attach;
  want_emoji = has_flag s.local_want flag_want_emoji;
  want_presence = has_flag s.local_want flag_want_presence;
  want_typing = has_flag s.local_want flag_want_typing;
  want_receipts = has_flag s.local_want flag_want_receipts;
  cap_id = cap_id;
  cap_on = cap_on;
  propose_id = propose_id;
}

-- The horizon for existing messages when the TTL shrinks.
unfoldable clamp_for : ℕ → ℕ → ℕ → Option ℕ
clamp_for prev_ttl ttl_sec now =
    if not (ttl_sec == ttl_never) && (prev_ttl == ttl_never || ltb ttl_sec prev_ttl)
    then some (add64 now ttl_sec)
    else none

unfoldable pub apply_rules : PolicyState → ℕ → Bool → Bool → ℕ → PolicyState × ApplyOutcome
unfolding clamp_for
apply_rules s ttl_sec screenshot attach_download now = (
  record s {
    ttl_sec = ttl_sec;
    screenshot = screenshot;
    attach_download = attach_download;
    pending = none;
  },
  record {
    changed = true;
    clamp_expiry_to = clamp_for s.ttl_sec ttl_sec now;
    erase_attachments = false;
  },
)

unfoldable pub apply_propose : PolicyState → ChatPolicy → List ℕ → PolicyState
apply_propose s parsed msg_id = record s {
  pending = some (record {
    ttl_sec = parsed.ttl_sec;
    screenshot = parsed.screenshot;
    attach_download = parsed.attach_download;
    inbound = true;
    propose_id = if bytes_eq parsed.propose_id zero_id then msg_id else parsed.propose_id;
  });
}

-- The body of `apply_accept` behind `let pending = state.pending?`.
unfoldable pub accept_pending :
    Option PendingProposal → PolicyState → ChatPolicy → ℕ → Option (PolicyState × ApplyOutcome)
unfolding apply_rules
accept_pending none s parsed now = none
accept_pending (some p) s parsed now =
    if p.inbound || not (bytes_eq p.propose_id parsed.propose_id)
    then none
    else some (apply_rules s p.ttl_sec p.screenshot p.attach_download now)

unfoldable pub apply_accept : PolicyState → ChatPolicy → ℕ → Option (PolicyState × ApplyOutcome)
unfolding accept_pending
apply_accept s parsed now = accept_pending s.pending s parsed now

unfoldable pub apply_cap_set : PolicyState → ℕ → Bool → PolicyState × ApplyOutcome
unfolding enforced
apply_cap_set s cap_id on =
    let bit = cap_bit cap_id in
    let before = enforced s bit in
    let next : PolicyState =
      if on then record s { peer_want = bit_or s.peer_want bit } else record s {
        local_want = clear_bits s.local_want bit;
        peer_want = clear_bits s.peer_want bit;
      } in
    let after = enforced next bit in
    if bit == 0 then (s, default_outcome) else (
      next,
      record {
        changed = xor before after || not on;
        clamp_expiry_to = none;
        erase_attachments = not on && bit == flag_want_attach && before;
      },
    )

unfoldable pub apply_sync : PolicyState → ChatPolicy → PolicyState × ApplyOutcome
unfolding wants attachments
apply_sync s parsed =
    let peer = wants parsed in
    let next : PolicyState = record s { peer_want = peer } in
    if peer == s.peer_want then (s, default_outcome) else (
      next,
      record {
        changed = true;
        clamp_expiry_to = none;
        erase_attachments = attachments s && not (attachments next);
      },
    )

-- The outbound half.
unfoldable pub build_propose :
    PolicyState → ℕ → Bool → Bool → List ℕ → Option (PolicyState × ChatPolicy)
unfolding payload is_allowed_ttl
build_propose s ttl_sec screenshot attach_download propose_id =
    let next : PolicyState = record s {
      pending = some (record {
        ttl_sec = ttl_sec;
        screenshot = screenshot;
        attach_download = attach_download;
        inbound = false;
        propose_id = propose_id;
      });
    } in
    if not (is_allowed_ttl ttl_sec)
    then none
    else some (
      next,
      record (payload op_rule_propose next 0 false propose_id) {
        ttl_sec = ttl_sec;
        screenshot = screenshot;
        attach_download = attach_download;
      },
    )

unfoldable pub build_accept_pending :
    Option PendingProposal → PolicyState → ℕ → Option (PolicyState × ChatPolicy × ApplyOutcome)
unfolding apply_rules payload
build_accept_pending none s now = none
build_accept_pending (some p) s now =
    let (next, outcome) = apply_rules s p.ttl_sec p.screenshot p.attach_download now in
    if not p.inbound
    then none
    else some (
      next,
      record (payload op_rule_accept next 0 false p.propose_id) {
        ttl_sec = p.ttl_sec;
        screenshot = p.screenshot;
        attach_download = p.attach_download;
      },
      outcome,
    )

unfoldable pub build_accept : PolicyState → ℕ → Option (PolicyState × ChatPolicy × ApplyOutcome)
unfolding build_accept_pending
build_accept s now = build_accept_pending s.pending s now

unfoldable pub build_cap_set :
    PolicyState → ℕ → Bool → Option (PolicyState × ChatPolicy × ApplyOutcome)
unfolding enforced payload
build_cap_set s cap_id on =
    let bit = cap_bit cap_id in
    let have = has_flag s.local_want bit in
    let before = enforced s bit in
    let next : PolicyState =
      if on then record s { local_want = bit_or s.local_want bit } else record s {
        local_want = clear_bits s.local_want bit;
        peer_want = clear_bits s.peer_want bit;
      } in
    let after = enforced next bit in
    if bit == 0
    then none
    else if not (xor on have)
    then none
    else some (
      next,
      payload op_cap_set next cap_id on zero_id,
      record {
        changed = xor before after || not on;
        clamp_expiry_to = none;
        erase_attachments = not on && bit == flag_want_attach && before;
      },
    )

unfoldable pub build_sync : PolicyState → ℕ → PolicyState × ChatPolicy
unfolding payload
build_sync s now =
    let next : PolicyState = record s { last_sync_at = now } in
    (next, payload op_sync next 0 false zero_id)
