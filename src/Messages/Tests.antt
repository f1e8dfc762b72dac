-- ===== src/Messages/Tests.antt =====
-- Edits and deletions of concrete messages.
use s_chat6_core.Common.{ℕ, ◌≡◌, refl, arith, List, [], ◌∷◌, true, false, none, some}
use s_chat6_core.Wire.Envelope.{EnvelopeType}
use s_chat6_core.Messages.{
  MessageRow, Direction, DeliveryState, EditDecision, edit_decision, target_decision, is_in,
  is_past, unwrap_or, add_u64, edit_window_sec, edit_max_edits, should_drop_inbound,
  mark_tombstoned,
}
use s_chat6_core.Messages.Ledger.{EditIn, Tombstone, message, apply_delete, is_tombstoned}
use s_chat6_core.Messages.Ledger.Edited.{Related}
use s_chat6_core.Messages.Ledger.Run.{run, run-Related}
use s_chat6_core.Messages.Ledger.Deleted.{deleted-stays, late_copy-dropped}
use s_chat6_core.Messages.Ledger.Stones.{StoneOp, deletion, pruning, run_stones}
use s_chat6_core.Messages.Ledger.Prune.{
  prune_tombstones, tombstone_count, tombstone_cap, prune-forgets_nothing,
}

abbrev held : MessageRow
held = record {
  msg_id = 1 ∷ [];
  rel_id = 7 ∷ [];
  direction = Direction.in_;
  app_seq = 5;
  sent_at = 100;
  received_at = some 200;
  env_type = 1;
  ref_id = none;
  payload = 104 ∷ [];
  state = DeliveryState.received;
  expires_at = none;
  created_at = 200;
  edited = false;
  tombstone = false;
  read_at = none;
  edit_count = 0;
  last_edit_seq = 0;
}

abbrev sent : MessageRow
sent = record held {
  direction = Direction.out;
  received_at = none;
  created_at = 100;
  state = DeliveryState.transmitted;
}

abbrev edit_it : EditIn
edit_it = record {
  ref_id = some (1 ∷ []);
  app_seq = 6;
  body = 105 ∷ [];
  tombstoned = false;
  history_cut_seq = 0;
}

abbrev edits : List (EditIn × ℕ)
edits =
    (edit_it, 300)
    ∷ (record edit_it { app_seq = 6 }, 301)
    ∷ (record edit_it { app_seq = 8 }, 5_000)
    ∷ []

run-Related_example : Related (held ∷ []) (run edits (held ∷ []))
unfolding message
run-Related_example = run-Related edits (held ∷ []) (refl, tt)

deleted-stays_example :
    message
      (1 ∷ [])
      (run edits (let (s, r, e) = apply_delete (7 ∷ []) (some (1 ∷ [])) 250 [] (held ∷ []) in r))
    ≡ some (mark_tombstoned held)
unfolding message
deleted-stays_example =
    deleted-stays (7 ∷ []) (1 ∷ []) 250 [] (held ∷ []) held edits (refl, tt) refl

-- Another message is deleted, and the tombstones are pruned, before the late copy comes.
abbrev in_between : List StoneOp
in_between = deletion (7 ∷ []) (some (2 ∷ [])) 300 ∷ pruning (7 ∷ []) 350 ∷ []

late_copy-dropped_example :
    should_drop_inbound EnvelopeType.msg 5 0 (
      is_tombstoned
        (7 ∷ [])
        (1 ∷ [])
        400
        (run_stones (deletion (7 ∷ []) (some (1 ∷ [])) 250 ∷ in_between) ([], [])).0)
    ≡ true
unfolding s_chat6_core.Messages.is_history_type apply_delete tombstone_count
    s_chat6_core.Messages.Ledger.Prune.delete_expired
late_copy-dropped_example =
    late_copy-dropped (7 ∷ []) (1 ∷ []) 250 400 [] [] in_between EnvelopeType.msg 5 0 (omega arith)
      (omega arith, (omega arith, omega arith, tt)) refl

abbrev stones : List Tombstone
stones =
    record { rel_id = 7 ∷ []; ref_id = 1 ∷ []; expiry = 500 }
    ∷ record { rel_id = 7 ∷ []; ref_id = 2 ∷ []; expiry = 90 }
    ∷ record { rel_id = 8 ∷ []; ref_id = 2 ∷ []; expiry = 80 }
    ∷ []

-- Only the expired row of the relationship goes.
pruned : (prune_tombstones (7 ∷ []) 100 stones).1 ≡ 1
unfolding prune_tombstones
pruned = refl

prune-forgets_nothing_example :
    is_tombstoned (7 ∷ []) (1 ∷ []) 120 (prune_tombstones (7 ∷ []) 100 stones).0
    ≡ is_tombstoned (7 ∷ []) (1 ∷ []) 120 stones
unfolding tombstone_count s_chat6_core.Messages.Ledger.Prune.delete_expired
prune-forgets_nothing_example =
    prune-forgets_nothing (7 ∷ []) (7 ∷ []) (1 ∷ []) 100 120 stones (omega arith) (omega arith)
