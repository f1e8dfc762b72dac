-- ===== src/Sync/Ingress.antt =====
-- The ingress of an envelope: crates/core/src/sync/ingress.rs, with `note_inbound_seq` of
-- crates/core/src/store/inbound_seqs.rs. The tables are those of one relationship, but for `messages`, whose
-- key is the id alone.
pub mod Laws
use s_chat6_core.Common.{
  ℕ, ◌+◌, ◌%◌, ◌^◌, List, [], ◌∷◌, Bool, true, false, ◌==◌, ◌||◌, if◌then◌else◌, Option, none, some,
  Result, ok, err, ◌>>=◌,
}
use s_chat6_core.Messages.{MessageRow, DeliveryState, received, Direction, in_}
use s_chat6_core.Messages.Ledger.{message}
use s_chat6_core.Sync.View.{receive_view, opens_gap, bitmap_bits}
use s_chat6_core.Common.{elem}
use s_chat6_core.Sync.Delivery.{SkewError, clamp_sent_at}

abbrev message_ttl_secs : ℕ
message_ttl_secs = 86_400

-- What the ingress reads of an envelope: the code of its type, and the bytes that its payload encodes to again.
-- An envelope whose payload does not encode is not one of these: `ingest_envelope` would end with that error,
-- its seq noted.
pub record EnvelopeIn : Type 0 where
  pub msg_id : List ℕ
  pub app_seq : ℕ
  pub sent_at : ℕ
  pub ref_id : Option (List ℕ)
  pub env_type : ℕ
  pub payload : List ℕ

pub record Db : Type 0 where
  pub inbound_seqs : List ℕ
  pub messages : List MessageRow

pub data IngestOutcome : Type 0 where
  stored : Bool → IngestOutcome
  duplicate : IngestOutcome

-- `INSERT OR IGNORE`; the flag tells whether the seq is new.
unfoldable pub note_inbound_seq : ℕ → List ℕ → List ℕ × Bool
note_inbound_seq app_seq seqs = if elem app_seq seqs then (seqs, false) else (app_seq ∷ seqs, true)

unfoldable pub inbound_row : List ℕ → EnvelopeIn → ℕ → ℕ → MessageRow
inbound_row rel_id env sent_at now = record {
  msg_id = env.msg_id;
  rel_id = rel_id;
  direction = in_;
  app_seq = env.app_seq;
  sent_at = sent_at;
  received_at = some now;
  env_type = env.env_type;
  ref_id = env.ref_id;
  payload = env.payload;
  state = received;
  expires_at = some ((now + message_ttl_secs) % 2 ^ 64);
  created_at = now;
  edited = false;
  tombstone = false;
  read_at = none;
  edit_count = 0;
  last_edit_seq = 0;
}

-- An ephemeral envelope: the clock rule, and the seq.
unfoldable track_inbound : EnvelopeIn → ℕ → Db → Result SkewError (Db × Bool)
unfolding note_inbound_seq
track_inbound env now db = do
  sent_at ← clamp_sent_at env.sent_at now
  let (seqs, fresh) = note_inbound_seq env.app_seq db.inbound_seqs in
      ok (record db { inbound_seqs = seqs }, fresh)

-- What is done with a message that has come, known or new.
unfoldable pub ingest_row :
    Option MessageRow → List ℕ → EnvelopeIn → ℕ → ℕ → Db → Db × IngestOutcome
unfolding note_inbound_seq inbound_row
ingest_row (some row) rel_id env sent_at now db = (db, duplicate)
ingest_row none rel_id env sent_at now db =
    let gap = opens_gap (receive_view db.inbound_seqs bitmap_bits) env.app_seq in
    let (seqs, fresh) = note_inbound_seq env.app_seq db.inbound_seqs in
    (
      record { inbound_seqs = seqs; messages = inbound_row rel_id env sent_at now ∷ db.messages },
      stored gap,
    )

unfoldable pub ingest_envelope :
    List ℕ → EnvelopeIn → ℕ → Db → Result SkewError (Db × IngestOutcome)
unfolding ingest_row message
ingest_envelope rel_id env now db = do
  sent_at ← clamp_sent_at env.sent_at now
  ok (ingest_row (message env.msg_id db.messages) rel_id env sent_at now db)
