-- ===== src/Messages/Edits.antt =====
-- Which edits are applied, and what a run of them does to a row.
use s_chat6_core.Common.{
  ℕ, ◌+◌, ◌^◌, ◌≤◌, ◌<◌, ◌≡◌, ◌↔◌, arith, ltb, Bool, true, false, ◌&&◌, if◌then◌else◌, Option, some,
  ◌∙◌,
}
use s_chat6_core.Wire.Envelope.{EnvelopeType, code}
use s_chat6_core.Messages.{
  MessageRow, EditDecision, is_in, add_u64, can_offer_edit, is_past, unwrap_or, target_decision,
  edit_decision, is_history_type, should_drop_inbound, edit_window_sec, edit_max_edits,
}

-- An edit is applied exactly when its seq is not below the history cut, its id is not tombstoned, and
-- its target is a received text message that has not expired, lies within an hour of its arrival, has
-- fewer than 30 edits and none of this seq or a later one, and the new body fits.
pub edit_decision-apply :
    (row : MessageRow) (now seq bytes most : ℕ) (tombstoned : Bool) (cut : ℕ)
    → (edit_decision (some row) now seq bytes most tombstoned cut ≡ EditDecision.apply)
      ↔ (cut ≤ seq)
        × (tombstoned ≡ false)
        × (is_in row.direction ≡ true)
        × (row.env_type ≡ code EnvelopeType.msg)
        × (is_past row.expires_at now ≡ false)
        × (now < add_u64 (unwrap_or row.received_at row.created_at) edit_window_sec)
        × (row.edit_count < edit_max_edits)
        × (row.last_edit_seq < seq)
        × (bytes ≤ most)
unfolding edit_decision target_decision
edit_decision-apply row now seq bytes most tombstoned cut =
    (λ h. ground (arith, h), λ h. ground (arith, h))

-- For an edit, the two checks of the inbound gate are the first two checks of the decision: the
-- decision is the history cut or the tombstone when the gate drops the edit, and that of the target
-- alone when the gate passes it.
gate-agrees :
    (target : Option MessageRow) (now seq bytes most : ℕ) (tombstoned : Bool) (cut : ℕ)
    → edit_decision target now seq bytes most tombstoned cut ≡ (
        if should_drop_inbound EnvelopeType.edit seq cut tombstoned
        then (if ltb 0 cut && ltb seq cut
            then EditDecision.drop_history_cut
            else EditDecision.drop_tombstone)
        else target_decision target now seq bytes most)
unfolding edit_decision should_drop_inbound is_history_type
gate-agrees target now seq bytes most tombstoned cut = ground arith

-- The sender's gate is within the receiver's: a message that the sender still offers for an edit is edited at
-- the receiver's at the same time, when the receiver has the same message with no more edits, arrived not
-- before it was sent and not expired, and the edit is newer, fits, and is not dropped at the gate.
offered-apply :
    (sent held : MessageRow) (now seq bytes max : ℕ) (tombstoned : Bool) (cut : ℕ)
    → can_offer_edit sent now ≡ true
    → is_in held.direction ≡ true
    → held.env_type ≡ sent.env_type
    → held.edit_count ≤ sent.edit_count
    → sent.sent_at ≤ unwrap_or held.received_at held.created_at
    → unwrap_or held.received_at held.created_at + edit_window_sec < 2 ^ 64
    → is_past held.expires_at now ≡ false
    → held.last_edit_seq < seq
    → bytes ≤ max
    → should_drop_inbound EnvelopeType.edit seq cut tombstoned ≡ false
    → edit_decision (some held) now seq bytes max tombstoned cut ≡ EditDecision.apply
unfolding can_offer_edit target_decision
offered-apply sent held now seq bytes max tombstoned cut o d t c a w x s b g =
    gate-agrees (some held) now seq bytes max tombstoned cut ∙ rw g (ground arith)
