-- ===== src/Policy/Consent.antt =====
-- When the rules of a chat change, over the steps of Policy.Invariant, and the clamp that comes with a shorter TTL.
use s_chat6_core.Common.{
  ℕ, ◌<◌, ◌≡◌, ◌≢◌, ◌⊎◌, inl, inr, refl, arith, List, Bool, ◌==◌, ◌&&◌, ◌||◌, not, ltb, Bool-cases,
  Option, none, some,
}
use s_chat6_core.Wire.Policy.{ChatPolicy, ttl_never}
use s_chat6_core.Policy.{PolicyState, PendingProposal, expiry_at}
use s_chat6_core.Policy.Machine.{
  ApplyOutcome, apply_rules, apply_propose, apply_accept, accept_pending, apply_cap_set, apply_sync,
  build_propose, build_accept, build_accept_pending, build_cap_set, build_sync,
}
use s_chat6_core.Policy.Invariant.{
  Step, propose_in, accept_in, cap_set_in, sync_in, propose_out, accept_out, decline, cap_set_out,
  sync_out,
}

abbrev pub SameRules : PolicyState → PolicyState → Type 0
SameRules s s' =
    (s'.ttl_sec ≡ s.ttl_sec)
    × (s'.screenshot ≡ s.screenshot)
    × (s'.attach_download ≡ s.attach_download)

-- `s'` has the rules of the proposal that was waiting in `s`.
abbrev pub Agreed : PolicyState → PolicyState → Type 0
Agreed s s' =
    (q : PendingProposal) × (s.pending ≡ some q)
    × (s'.ttl_sec ≡ q.ttl_sec)
    × (s'.screenshot ≡ q.screenshot)
    × (s'.attach_download ≡ q.attach_download)
    × (s'.pending ≡ none)

accepted_in :
    (m : Option PendingProposal) (s : PolicyState) (p : ChatPolicy) (now : ℕ) {s' : PolicyState}
    {o : ApplyOutcome}
    → s.pending ≡ m
    → accept_pending m s p now ≡ some (s', o)
    → Agreed s s'
unfolding accept_pending apply_rules
accepted_in none s p now h e = cc
accepted_in (some q) s p now h e = (q, h, ground arith, ground arith, ground arith, ground arith)

accepted_out :
    (m : Option PendingProposal) (s : PolicyState) (now : ℕ) {s' : PolicyState} {p : ChatPolicy}
    {o : ApplyOutcome}
    → s.pending ≡ m
    → build_accept_pending m s now ≡ some (s', p, o)
    → Agreed s s'
unfolding build_accept_pending apply_rules
accepted_out none s now h e = cc
accepted_out (some q) s now h e = (q, h, ground arith, ground arith, ground arith, ground arith)

cap_in_rules : (s : PolicyState) (id : ℕ) (on : Bool) → SameRules s (apply_cap_set s id on).0
unfolding apply_cap_set
cap_in_rules s id on = ground arith

sync_in_rules : (s : PolicyState) (p : ChatPolicy) → SameRules s (apply_sync s p).0
unfolding apply_sync
sync_in_rules s p = ground arith

cap_out_rules :
    (s : PolicyState) (id : ℕ) (on : Bool) {s' : PolicyState} {p : ChatPolicy} {o : ApplyOutcome}
    → build_cap_set s id on ≡ some (s', p, o)
    → SameRules s s'
unfolding build_cap_set
cap_out_rules s id on e = ground arith

propose_out_rules :
    (s : PolicyState) (ttl : ℕ) (sc dl : Bool) (id : List ℕ) {s' : PolicyState} {p : ChatPolicy}
    → build_propose s ttl sc dl id ≡ some (s', p)
    → SameRules s s'
unfolding build_propose
propose_out_rules s ttl sc dl id e = ground arith

-- No single operation, inbound or outbound, changes the TTL, the screenshot rule or the download
-- rule, except to those of the proposal that was pending, which is then no longer pending.
pub Step-rules : {s s' : PolicyState} → Step s s' → SameRules s s' ⊎ Agreed s s'
unfolding apply_propose apply_accept build_accept build_sync
Step-rules {s} (propose_in p msg_id v o e) = inl (ground arith)
Step-rules {s} (accept_in p now o e) = inr (accepted_in s.pending s p now refl e)
Step-rules {s} (cap_set_in id on e) = inl (rw e (cap_in_rules s id on))
Step-rules {s} (sync_in p e) = inl (rw e (sync_in_rules s p))
Step-rules {s} (propose_out ttl sc dl id p e) = inl (propose_out_rules s ttl sc dl id e)
Step-rules {s} (accept_out now p o e) = inr (accepted_out s.pending s now refl e)
Step-rules {s} (decline e) = inl (ground arith)
Step-rules {s} (cap_set_out id on p o e) = inl (cap_out_rules s id on e)
Step-rules {s} (sync_out now e) = inl (ground arith)

-- One TTL is shorter than another, where `ttl_never` is longer than all.
abbrev Shorter : ℕ → ℕ → Type 0
Shorter new old = (new ≢ ttl_never) × ((old ≡ ttl_never) ⊎ (new < old))

-- New rules ask for a clamp of the existing messages exactly if their TTL is shorter, and the bound
-- is the expiry that a message created at that moment gets under the new rules.
apply_rules_clamp :
    (s : PolicyState) (ttl : ℕ) (screenshot download : Bool) (now : ℕ)
    → let r = apply_rules s ttl screenshot download now in
      (Shorter ttl s.ttl_sec
        × (r.1.clamp_expiry_to ≡ expiry_at r.0 now)
        × (r.1.clamp_expiry_to ≢ none))
      ⊎ ((¬ Shorter ttl s.ttl_sec) × (r.1.clamp_expiry_to ≡ none))
unfolding apply_rules expiry_at
apply_rules_clamp s ttl screenshot download now =
    elim (Bool-cases (not (ttl == ttl_never) && (s.ttl_sec == ttl_never || ltb ttl s.ttl_sec))) [
      | inl short ↦ inl ((ground arith, ground arith), ground arith, ground arith)
      | inr long ↦ inr (ground arith, ground arith)
    ]
