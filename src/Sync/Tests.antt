-- ===== src/Sync/Tests.antt =====
-- The synchronisation of concrete ledgers.
use s_chat6_core.Common.{
  ℕ, ◌≡◌, ◌≤◌, ◌<◌, refl, arith, List, [], ◌∷◌, true, false, not, Option, none, some, ok, err, All,
  ◌≢◌, Memᴰ,
}
use s_chat6_core.Messages.{
  MessageRow, DeliveryState, in_, out, received, queued, transmitted, acknowledged, failed,
}
use s_chat6_core.Messages.Ledger.{message}
use s_chat6_core.Sync.View.{ReceiveView, receive_view, is_missing, bitmap_bits, view_scan_limit}
use s_chat6_core.Common.{elem}
use s_chat6_core.Sync.View.Order.{Distinct}
use s_chat6_core.Sync.View.Exact.{receive_view_exact, horizon-saturates, zero_seq-pins_horizon}
use s_chat6_core.Sync.Delivery.{clamp_sent_at}
use s_chat6_core.Sync.Ingress.{EnvelopeIn, Db, duplicate, inbound_row, ingest_envelope}
use s_chat6_core.Sync.Ingress.Laws.{ingest-twice}
use s_chat6_core.Sync.Outbox.{OutboxRow, SyncError, bad_transition, transition, find_row}
use s_chat6_core.Sync.Outbox.Laws.{rank, in_state, transition-forward}
use s_chat6_core.Sync.Drain
use s_chat6_core.Sync.Drain.{Sent, drain_outbox, fail_all}
use s_chat6_core.Sync.Drain.FailFast.{FailFast, drain_outbox-FailFast}
use s_chat6_core.Sync.Drain.Acked.{acked-stops_drain, fail_all-failed}
use s_chat6_core.Sync.Resync.{
  Retransmit, SessionState, active, broken, is_candidate, handle_request,
}
use s_chat6_core.Sync.Resync.Verdict.{IsDue, Verdict}
use s_chat6_core.Sync.Resync.Answer.{handle_request-IsDue}

abbrev table : List ℕ
table = 3 ∷ 1 ∷ 2 ∷ 5 ∷ []

receive_view_exact_example :
    is_missing
      (receive_view table bitmap_bits).max_contiguous_seq
      (receive_view table bitmap_bits).bitmap
      4
    ≡ not (elem 4 table)
receive_view_exact_example =
    receive_view_exact table 4
      (
        (omega arith, omega arith),
        (
          (omega arith, omega arith),
          ((omega arith, omega arith), ((omega arith, omega arith), tt)),
        ),
      )
      (refl, (refl, (refl, (refl, tt)))) (omega arith) (omega arith) (omega arith)

horizon-saturates_example :
    is_missing (receive_view table bitmap_bits).max_contiguous_seq [] 70_000 ≡ true
horizon-saturates_example = horizon-saturates table [] 70_000 (omega arith)

zero_seq-pins_horizon_example : (receive_view (1 ∷ 0 ∷ 2 ∷ []) bitmap_bits).max_contiguous_seq ≡ 0
zero_seq-pins_horizon_example =
    zero_seq-pins_horizon (1 ∷ 0 ∷ 2 ∷ []) (omega arith, (omega arith, (omega arith, tt))) refl

abbrev env : EnvelopeIn
env = record {
  msg_id = 1 ∷ [];
  app_seq = 1;
  sent_at = 1_100;
  ref_id = none;
  env_type = 1;
  payload = 104 ∷ [];
}

abbrev db_before : Db
db_before = record { inbound_seqs = []; messages = [] }

abbrev db_after : Db
db_after = record {
  inbound_seqs = 1 ∷ [];
  messages =
      record {
        msg_id = 1 ∷ [];
        rel_id = 7 ∷ [];
        direction = in_;
        app_seq = 1;
        sent_at = 1_000;
        received_at = some 1_000;
        env_type = 1;
        ref_id = none;
        payload = 104 ∷ [];
        state = received;
        expires_at = some 87_400;
        created_at = 1_000;
        edited = false;
        tombstone = false;
        read_at = none;
        edit_count = 0;
        last_edit_seq = 0;
      }
      ∷ [];
}

ingest-twice_example :
    (sent_at : ℕ) × (clamp_sent_at env.sent_at 1_000 ≡ ok sent_at)
    × (message env.msg_id db_after.messages ≡ some (inbound_row (7 ∷ []) env sent_at 1_000))
    × (elem env.app_seq db_after.inbound_seqs ≡ true)
    × Distinct db_after.inbound_seqs
    × (ingest_envelope (7 ∷ []) env 1_000 db_after ≡ ok (db_after, duplicate))
unfolding ingest_envelope clamp_sent_at s_chat6_core.Sync.View.opens_gap
ingest-twice_example = ingest-twice (7 ∷ []) env 1_000 db_before db_after false tt refl

abbrev sent_row : DeliveryState → MessageRow
sent_row s = record {
  msg_id = 2 ∷ [];
  rel_id = 7 ∷ [];
  direction = out;
  app_seq = 4;
  sent_at = 900;
  received_at = none;
  env_type = 1;
  ref_id = none;
  payload = 104 ∷ [];
  state = s;
  expires_at = none;
  created_at = 900;
  edited = false;
  tombstone = false;
  read_at = none;
  edit_count = 0;
  last_edit_seq = 0;
}

abbrev row : OutboxRow
row = record {
  msg_id = 2 ∷ [];
  rel_id = 7 ∷ [];
  wire = 2 ∷ [];
  attempts = 1;
  next_attempt_at = 950;
  expires_at = 990;
  created_at = 900;
}

transition-forward_example :
    (r : MessageRow) × (message (2 ∷ []) (sent_row queued ∷ []) ≡ some r)
    × (message (2 ∷ []) (sent_row transmitted ∷ []) ≡ some (in_state transmitted r))
    × (rank r.state ≤ rank transmitted)
    × (rank r.state < 2)
unfolding transition
transition-forward_example =
    transition-forward (2 ∷ []) transmitted (sent_row queued ∷ []) (sent_row transmitted ∷ []) refl

abbrev onion_of : List ℕ → Option (List ℕ)
onion_of rel = some (9 ∷ [])

abbrev queue : DeliveryState → Drain.Db
queue s = record { outbox = row ∷ []; messages = sent_row s ∷ [] }

fail_all-failed_example :
    message (2 ∷ []) (fail_all (row ∷ []) (sent_row acknowledged ∷ []))
    ≡ some (in_state failed (sent_row acknowledged))
unfolding find_row message
fail_all-failed_example =
    fail_all-failed (2 ∷ []) (row ∷ []) (sent_row acknowledged ∷ []) row (sent_row acknowledged)
      refl refl

abbrev two_rows : Drain.Db
two_rows = record {
  outbox = row ∷ record row { msg_id = 3 ∷ [] } ∷ [];
  messages = sent_row queued ∷ record (sent_row queued) { msg_id = 3 ∷ [] } ∷ [];
}

abbrev two_rows_after : Drain.Db
two_rows_after = record {
  outbox =
      record row { attempts = 2; next_attempt_at = 970 }
      ∷ record row { msg_id = 3 ∷ []; attempts = 2; next_attempt_at = 970 }
      ∷ [];
  messages = two_rows.messages;
}

abbrev one_try : List Sent
one_try = record { onion = 9 ∷ []; success = false } ∷ []

drain_outbox-FailFast_example : FailFast one_try
unfolding drain_outbox s_chat6_core.Sync.Outbox.due s_chat6_core.Sync.Outbox.fail_expired
    s_chat6_core.Sync.Outbox.note_attempt s_chat6_core.Sync.Delivery.backoff_secs
drain_outbox-FailFast_example =
    drain_outbox-FailFast onion_of (λ r. false) 960 two_rows two_rows_after one_try refl

abbrev cached : List ℕ → Option (List ℕ)
cached id = some (2 ∷ 2 ∷ [])

abbrev again : List Retransmit
again = record { msg_id = 2 ∷ []; app_seq = 4; frame = 2 ∷ 2 ∷ [] } ∷ []

abbrev all_active : List ℕ → SessionState
all_active rel = active

handle_request-IsDue_example :
    (all_active (7 ∷ []) ≢ broken)
    × All (IsDue cached 960 3 (18 ∷ []) (7 ∷ []) (sent_row transmitted ∷ [])) again
    × All
        (Verdict cached 960 3 (18 ∷ []) (7 ∷ []) (sent_row transmitted ∷ []) again)
        (sent_row transmitted ∷ [])
unfolding handle_request is_missing
handle_request-IsDue_example =
    handle_request-IsDue cached 960 3 (18 ∷ []) (7 ∷ []) (sent_row transmitted ∷ []) all_active
      (sent_row transmitted ∷ []) again refl

-- The peer has the seq 4 of a message whose frame is still queued.
acked-stops_drain_example :
    (e : SyncError) × (drain_outbox onion_of
        (λ r. true)
        960
        (record { outbox = row ∷ []; messages = sent_row acknowledged ∷ [] })
      ≡ err e)
unfolding handle_request is_missing is_candidate s_chat6_core.Sync.Outbox.due
    s_chat6_core.Sync.Outbox.mark_acknowledged
acked-stops_drain_example =
    acked-stops_drain cached 955 4 [] (7 ∷ []) (sent_row queued ∷ []) all_active
      (sent_row acknowledged ∷ []) [] (sent_row queued) onion_of (λ r. true) 960 (row ∷ []) row
      (9 ∷ []) refl (Memᴰ.head refl) refl refl (Memᴰ.head refl) refl refl (λ r. refl)
