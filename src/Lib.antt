-- ===== src/Lib.antt =====
-- s//chat6 core: the parts of the messenger that decide what is believed, kept, sent and shown.
--
-- The program has two layers here. crates/wire-types encodes and decodes what two peers say to each
-- other inside the encrypted session; crates/core keeps the ledger of each relationship, its rules
-- and its queues, and frames the encrypted records for the transport. An inbound record is read by
-- the framing, checked against the ring of recent fingerprints and the rate limits, decrypted, decoded
-- as an envelope, and then taken into the ledger, or applied as an edit, a deletion, a policy message
-- or a resync request. An outbound envelope gets the next seq, is stored, encrypted, built into a record
-- and queued; the drain sends what is due, and the peer's view acknowledges it.
--
-- Which file models what:
-- Common: the shared names and lemmas. Bytes are numbers below 256 and big-endian integers lists of
--   them (Common.Bytes), bits are tested one by one (Common.Bits), 32-bit and 64-bit words have their
--   wrap or their saturation written out (Common.Words).
-- Wire.Error, Wire.Bin: crates/wire-types/src/error.rs and bin.rs. A reader is its buffer and its
--   position; the relation Sees of Wire.Bin.Laws says what it has still to read.
-- Wire.Policy, Wire.Flags: the CHAT_POLICY payload, crates/wire-types/src/policy.rs.
-- Wire.Payload: typing.rs, presence.rs, pref.rs, resync.rs and decode_empty of delete.rs, same folder.
-- Wire.Text: msg.rs and edit.rs. Wire.Profile: profile.rs. Strings are lists of bytes, and Common.Utf8
--   has what Rust's library does with them.
-- Wire.Attach: attach.rs, with the heads in Head and Decode and the chunks in Chunk.
-- Wire.Sticker: the limits of limits.rs and sticker.rs, with the items in Item, the control messages in
--   Ctrl and PackRef, the signed pack in PackDoc and its preview in Thumbs.
-- Wire.Envelope: envelope.rs, same folder, over the interface PayloadCodec of a payload union; the union
--   is Wire.Envelope.Union, and Wire.Envelope.Payloads fills the interface with it.
-- Wire.Frame: crates/core/src/wire/frame.rs. Wire.Framing: crates/core/src/transport/framing.rs.
-- Policy: crates/core/src/policy, with mod.rs in Policy, machine.rs in Policy.Machine and store.rs in
--   Policy.Store. Policy.Invariant has the operations as a step relation; Policy.Wants the wants as
--   sets of capabilities; Policy.Protocol two ends that exchange messages.
-- RateLimit: crates/core/src/ratelimit.rs with the rates of crates/core/src/limits.rs.
-- Sync.View: receive_view of crates/core/src/store/messages.rs and is_missing and opens_gap of
--   crates/core/src/sync/resync.rs. Sync.Resync: handle_request of the same file.
-- Sync.Delivery: backoff of crates/core/src/sync/outbox.rs, backoff_secs of
--   crates/core/src/engine/drain.rs and crates/core/src/sync/skew.rs.
-- Sync.Outbox: crates/core/src/store/outbox.rs and transition of crates/core/src/sync/outbox.rs.
-- Sync.Drain: drain_outbox of crates/core/src/engine/drain.rs.
-- Sync.Ingress: crates/core/src/sync/ingress.rs and note_inbound_seq of
--   crates/core/src/store/inbound_seqs.rs. Sync.OutSeq: next_out_seq of crates/core/src/store/messages.rs.
-- Messages: crates/core/src/messages. Messages.Ledger: apply_edit and apply_delete of
--   crates/core/src/engine/inbound.rs on the messages table, with crates/core/src/store/tombstones.rs;
--   Messages.Ledger.Stones has deletions and prunings as a run.
-- Attach: crates/core/src/attach/mod.rs, with plan_transfer in Plan and the inbound half in Transfer, on
--   the tables of crates/core/src/store/attachments.rs and chunks.rs in Store. Transfer.Reach has heads, chunks
--   and deletions as a relation on the tables; Delivery puts the pieces of a plan into the table of the other end.
-- Live: crates/core/src/typing/mod.rs in Typing and crates/core/src/presence/mod.rs in Presence, over the
--   maps of Live.Table. Caps: crates/wire-types/src/caps.rs and crates/core/src/caps/mod.rs.
-- Transport.Seen: crates/core/src/transport/seen.rs. Transport.Heal: crates/core/src/transport/heal.rs.
--
-- State is passed explicitly: a method on `&mut self` returns the new value, a SQL table is the list of
-- its rows and a statement a function on that list. Ties of an ORDER BY are broken in one way; no
-- theorem depends on which. Results are values of a result type, with the error constructors of the source.
--
-- Every loop is structural recursion, so no function needs fuel: over the rows of a query, the bytes of
-- a bitmap, the queue of a ring, or the times of a list of requests.
--
-- Parameters stand for what is not code of the repository: the padding bytes of the generator, the
-- digest behind a fingerprint, the hash of an attachment and of a sticker and the verification of a
-- pack's signature, the normal form of a name, whether a send succeeds. The lookup of a peer's onion and
-- the cache of ciphertexts, and the state of a session are arguments too, since they only read tables of
-- other parts, and so are whether attachments are allowed and when a message expires where a head comes in.
--
-- Not modelled: the asynchronous glue of the engine, the SQL schema, sessions and pairing, closing a
-- contact, the sending of attachments and the sniffing of their media, the sticker feature behind its
-- payloads, media, the vault, the process and the sockets of Tor, the bindings and the command line. They
-- are third-party cryptography, I/O, or feature code over the parts that are here. Storage failures
-- other than those that the model names are left out, and so is the error of an inbound payload that
-- does not encode again. Where an operation ends in an error, the model of the engine's drain and of the
-- resync answer returns the error alone, without the writes that were made before it.
pub mod Common
pub mod Wire
pub mod Policy
pub mod RateLimit
pub mod Sync
pub mod Messages
pub mod Attach
pub mod Live
pub mod Caps
pub mod Transport
