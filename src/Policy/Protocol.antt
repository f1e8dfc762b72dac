-- ===== src/Policy/Protocol.antt =====
-- Two ends that exchange policy messages: capability changes, syncs, and proposals.
use s_chat6_core.Common.{
  ℕ, ◌≤◌, ◌≡◌, refl, arith, List, Bool, true, false, ◌&&◌, not, ◌==◌, Option, none, some, ==_refl,
  bytes_eq_refl, bytes_eq_sound,
}
use s_chat6_core.Wire.Policy.{ChatPolicy, cap_id_max, op_sync, op_rule_accept}
use s_chat6_core.Policy.{PolicyState, PendingProposal}
use s_chat6_core.Policy.Machine.{
  ApplyOutcome, apply_rules, apply_propose, apply_accept, accept_pending, apply_cap_set, apply_sync,
  build_propose, build_accept, build_accept_pending, build_cap_set, build_sync, payload, zero_id,
}
use s_chat6_core.Policy.Wants.{
  local_on, peer_on, is_on, is_on_lem, apply_cap_set_wants, build_cap_set_wants, apply_sync_wants,
  payload_wants,
}

-- One to disable: when our end turns a capability off and the peer applies the message, it is off at
-- both ends, whatever either wanted before, and every other capability is as it was at both ends.
pub disable_both :
    (a b : PolicyState) (id k : ℕ) {a' : PolicyState} {p : ChatPolicy} {o : ApplyOutcome}
    → id ≤ cap_id_max
    → k ≤ cap_id_max
    → build_cap_set a id false ≡ some (a', p, o)
    → (is_on a' k ≡ (is_on a k && not (id == k)))
      × (is_on (apply_cap_set b p.cap_id p.cap_on).0 k ≡ (is_on b k && not (id == k)))
disable_both a b id k {a'} {p} hid hk e = ground (
  arith,
  build_cap_set_wants a id k false hid hk e,
  is_on_lem a k hk,
  is_on_lem a' k hk,
  is_on_lem b k hk,
  is_on_lem (apply_cap_set b p.cap_id p.cap_on).0 k hk,
  apply_cap_set_wants b id k false hid hk,
)

-- Two to enable: when our end turns a capability on and the peer applies the message, it is on at
-- our end exactly if we knew that the peer wants it, and at the peer's end exactly if the peer wants it.
pub enable_needs_both :
    (a b : PolicyState) (id : ℕ) {a' : PolicyState} {p : ChatPolicy} {o : ApplyOutcome}
    → id ≤ cap_id_max
    → build_cap_set a id true ≡ some (a', p, o)
    → (is_on a' id ≡ peer_on a id)
      × (is_on (apply_cap_set b p.cap_id p.cap_on).0 id ≡ local_on b id)
enable_needs_both a b id {a'} {p} hid e = ground (
  arith,
  build_cap_set_wants a id id true hid hid e,
  ==_refl id,
  is_on_lem a' id hid,
  is_on_lem (apply_cap_set b p.cap_id p.cap_on).0 id hid,
  apply_cap_set_wants b id id true hid hid,
)

-- A SYNC repairs any divergence of the wants: once it is applied the receiver's idea of the sender
-- is what the sender wants, for every capability, and the receiver's own wants stay.
sync_mirrors :
    (a b : PolicyState) (now k : ℕ)
    → k ≤ cap_id_max
    → (peer_on (apply_sync b (build_sync a now).1).0 k ≡ local_on a k)
      × (local_on (apply_sync b (build_sync a now).1).0 k ≡ local_on b k)
unfolding build_sync local_on
sync_mirrors a b now k hk = ground (
  arith,
  apply_sync_wants b (build_sync a now).1 k hk,
  payload_wants op_sync (record a { last_sync_at = now }) 0 false zero_id k hk,
)

accept_pending_inv :
    (m : Option PendingProposal) (s : PolicyState) (p : ChatPolicy) (now : ℕ) {s' : PolicyState}
    {o : ApplyOutcome}
    → accept_pending m s p now ≡ some (s', o)
    → (q : PendingProposal) × (m ≡ some q)
      × (q.inbound ≡ false)
      × (q.propose_id ≡ p.propose_id)
      × (s' ≡ (apply_rules s q.ttl_sec q.screenshot q.attach_download now).0)
unfolding accept_pending
accept_pending_inv none s p now e = cc
accept_pending_inv (some q) s p now e =
    (q, refl, ground arith, ground (arith, bytes_eq_sound q.propose_id p.propose_id), ground arith)

-- The peer's ACCEPT changes the rules only if it names our own unanswered proposal, and then to the
-- rules of that proposal, whatever rules the message itself carries; nothing is pending afterwards,
-- and the wants and the time of the last sync stay.
apply_accept_inv :
    (s : PolicyState) (p : ChatPolicy) (now : ℕ) {s' : PolicyState} {o : ApplyOutcome}
    → apply_accept s p now ≡ some (s', o)
    → (q : PendingProposal) × (s.pending ≡ some q)
      × (q.inbound ≡ false)
      × (q.propose_id ≡ p.propose_id)
      × (s' ≡ record s {
        ttl_sec = q.ttl_sec;
        screenshot = q.screenshot;
        attach_download = q.attach_download;
        pending = none;
      })
unfolding apply_accept apply_rules
apply_accept_inv s p now e = accept_pending_inv s.pending s p now e

abbrev proposal : ℕ → Bool → Bool → Bool → List ℕ → PendingProposal
proposal ttl screenshot download inbound id = record {
  ttl_sec = ttl;
  screenshot = screenshot;
  attach_download = download;
  inbound = inbound;
  propose_id = id;
}

abbrev agreed : PolicyState → ℕ → Bool → Bool → PolicyState
agreed s ttl screenshot download = record s {
  ttl_sec = ttl;
  screenshot = screenshot;
  attach_download = download;
  pending = none;
}

module _ (ttl : ℕ) (screenshot download : Bool) (id : List ℕ) where
  abbrev accept_message : PolicyState → ChatPolicy
  accept_message b = record (payload op_rule_accept (agreed b ttl screenshot download) 0 false id) {
    ttl_sec = ttl;
    screenshot = screenshot;
    attach_download = download;
  }

  build_propose_inv :
      (a : PolicyState) {a1 : PolicyState} {prop : ChatPolicy}
      → build_propose a ttl screenshot download id ≡ some (a1, prop)
      → (a1 ≡ record a { pending = some (proposal ttl screenshot download false id) })
        × (prop.ttl_sec ≡ ttl)
        × (prop.screenshot ≡ screenshot)
        × (prop.attach_download ≡ download)
        × (prop.propose_id ≡ id)
  unfolding build_propose payload
  build_propose_inv a e = ground arith

  apply_propose_lem :
      (b : PolicyState) (prop : ChatPolicy)
      → prop.ttl_sec ≡ ttl
      → prop.screenshot ≡ screenshot
      → prop.attach_download ≡ download
      → prop.propose_id ≡ id
      → apply_propose b prop id
        ≡ record b { pending = some (proposal ttl screenshot download true id) }
  unfolding apply_propose
  apply_propose_lem b prop e1 e2 e3 e4 = ground arith

  build_accept_lem :
      (b : PolicyState) (now : ℕ)
      → build_accept (record b { pending = some (proposal ttl screenshot download true id) }) now
        ≡ some (
          agreed b ttl screenshot download,
          accept_message b,
          (apply_rules b ttl screenshot download now).1,
        )
  unfolding build_accept build_accept_pending apply_rules
  build_accept_lem b now = refl

  apply_accept_lem :
      (a : PolicyState) (p : ChatPolicy) (later : ℕ)
      → p.propose_id ≡ id
      → apply_accept
          (record a { pending = some (proposal ttl screenshot download false id) })
          p
          later
        ≡ some (agreed a ttl screenshot download, (apply_rules a ttl screenshot download later).1)
  unfolding apply_accept accept_pending apply_rules
  apply_accept_lem a p later e = rw (e, bytes_eq_refl)

-- The proposal round: we propose, the peer records the message and accepts, and we apply the ACCEPT.
-- The exchange always goes through, and both ends then have the proposed rules, nothing pending, and
-- all else as before.
pub propose_round :
    (a b : PolicyState) (ttl : ℕ) (screenshot download : Bool) (id : List ℕ) (now later : ℕ)
    {a1 : PolicyState} {prop : ChatPolicy}
    → build_propose a ttl screenshot download id ≡ some (a1, prop)
    → (accept : ChatPolicy) × (ob oa : ApplyOutcome) × (build_accept (apply_propose b prop id) now
        ≡ some (agreed b ttl screenshot download, accept, ob))
      × (apply_accept a1 accept later ≡ some (agreed a ttl screenshot download, oa))
unfolding payload
propose_round a b ttl screenshot download id now later {a1} {prop} e =
    let sent = build_propose_inv ttl screenshot download id a e in
    (
      accept_message ttl screenshot download id b,
      (apply_rules b ttl screenshot download now).1,
      (apply_rules a ttl screenshot download later).1,
      rw (apply_propose_lem ttl screenshot download id b prop sent.1 sent.2 sent.3 sent.4)
          (build_accept_lem ttl screenshot download id b now),
      rw sent.0 (apply_accept_lem ttl screenshot download id a _ later refl),
    )
