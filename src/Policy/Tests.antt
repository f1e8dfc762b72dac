-- ===== src/Policy/Tests.antt =====
-- The policy theorems at concrete states.
use s_chat6_core.Common.{
  ℕ, ◌≡◌, ◌≤◌, refl, arith, List, [], ◌∷◌, Bool, true, false, not, ◌&&◌, ◌==◌, Option, none, some,
  replicate, length, ok, ◌⊎◌, if◌then◌else◌, map, ◌≢◌,
}
use text.Mathlib.Text.{◌==◌ as str_eq}
use s_chat6_core.Wire.Policy.{
  ChatPolicy, is_allowed_ttl, validate, encode_payload, decode_payload, size, cap_bit, op_sync,
}
use s_chat6_core.Wire.Policy.RoundTrip.{decode-IsValid, layout}
use s_chat6_core.Policy.{PolicyState, default_state}
use s_chat6_core.Policy.Machine.{
  ApplyOutcome, build_cap_set, apply_cap_set, apply_propose, build_propose, build_accept,
  apply_accept,
}
use s_chat6_core.Policy.Wants.{is_on, peer_on, local_on}
use s_chat6_core.Policy.Protocol.{disable_both, enable_needs_both, propose_round}
use s_chat6_core.Policy.Invariant.{here, next, cap_set_in, Inv, Reach-Inv}
use s_chat6_core.Policy.Consent.{SameRules, Agreed, Step-rules}
use s_chat6_core.Policy.Store.{Relationships, columns_of, load_policy, save_policy, ExpiryRow}
use s_chat6_core.Policy.Store.RoundTrip.{has_row, load-save}

abbrev id_one : List ℕ
id_one = replicate 16 1

abbrev muted : PolicyState
unfolding default_state apply_cap_set
muted = (apply_cap_set default_state 3 false).0

Reach-Inv_example : Inv muted
unfolding muted apply_cap_set
Reach-Inv_example = Reach-Inv (next here (cap_set_in 3 false refl))

Step-rules_example : SameRules default_state muted ⊎ Agreed default_state muted
unfolding default_state muted apply_cap_set
Step-rules_example = Step-rules (cap_set_in 3 false refl)

disable_both_example :
    (is_on muted 2 ≡ (is_on default_state 2 && not (3 == 2)))
    × (is_on (apply_cap_set default_state 3 false).0 2 ≡ (is_on default_state 2 && not (3 == 2)))
unfolding default_state build_cap_set cap_bit mathlib.Core.Bool.xor muted
disable_both_example = disable_both default_state default_state 3 2 (omega arith) (omega arith) refl

-- We want typing no longer, and the peer still does; we turn it on again.
abbrev quiet : PolicyState
quiet = record {
  ttl_sec = 86_400;
  screenshot = true;
  attach_download = true;
  local_want = 0x5c;
  peer_want = 0x7c;
  pending = none;
  last_sync_at = 0;
}

abbrev loud : PolicyState
loud = record quiet { local_want = 0x7c }

enable_needs_both_example :
    (is_on loud 3 ≡ peer_on quiet 3) × (is_on (apply_cap_set quiet 3 true).0 3 ≡ local_on quiet 3)
unfolding build_cap_set cap_bit mathlib.Core.Bool.xor
enable_needs_both_example = enable_needs_both quiet quiet 3 (omega arith) refl

abbrev waiting : Bool → PolicyState
waiting inbound = record quiet {
  pending = some (record {
    ttl_sec = 3_600;
    screenshot = false;
    attach_download = true;
    inbound = inbound;
    propose_id = id_one;
  });
}

abbrev accepted : PolicyState
accepted = record quiet { ttl_sec = 3_600; screenshot = false; pending = none }

abbrev accept_payload : ChatPolicy
accept_payload = record {
  op = 2;
  ttl_sec = 3_600;
  screenshot = false;
  attach_download = true;
  want_attach = true;
  want_emoji = true;
  want_presence = true;
  want_typing = false;
  want_receipts = true;
  cap_id = 0;
  cap_on = false;
  propose_id = id_one;
}

propose_round_example :
    (accept : ChatPolicy) × (ob oa : ApplyOutcome) × (build_accept
        (apply_propose quiet (record accept_payload { op = 1 }) id_one)
        100
      ≡ some (accepted, accept, ob))
    × (apply_accept (waiting false) accept 200 ≡ some (accepted, oa))
unfolding build_propose
propose_round_example = propose_round quiet quiet 3_600 false true id_one 100 200 refl

decode-IsValid_example :
    (length (layout accept_payload) ≡ size)
    × (validate accept_payload ≡ ok tt)
    × (encode_payload accept_payload ≡ ok (layout accept_payload))
unfolding decode_payload s_chat6_core.Common.Bytes.to_be_bytes s_chat6_core.Wire.Bin.u8
    s_chat6_core.Wire.Bin.new_reader s_chat6_core.Wire.Bin.u32be s_chat6_core.Wire.Bin.expect_end
    validate s_chat6_core.Common.Bytes.from_be_bytes s_chat6_core.Wire.Policy.flags
    s_chat6_core.Wire.Policy.flags_of
decode-IsValid_example = decode-IsValid (layout accept_payload) accept_payload refl

abbrev table : Relationships
table = ("rel", columns_of quiet) ∷ []

load-save_example : load_policy (save_policy table "rel" (waiting true)) "rel" ≡ (
    if str_eq "rel" "rel" && has_row table "rel"
    then ok (waiting true)
    else load_policy table "rel")
load-save_example = load-save table "rel" "rel" (waiting true) (record {
  ttl_u32 = omega arith;
  local_byte = omega arith;
  peer_byte = omega arith;
  pending_typed = record { ttl_u32 = omega arith; id_16 = refl };
})

abbrev ledger : List ExpiryRow
ledger =
    record { rel_id = "rel"; expires_at = none }
    ∷ record { rel_id = "rel"; expires_at = some 50 }
    ∷ []
