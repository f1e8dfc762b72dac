-- ===== src/Wire/Envelope.antt =====
-- The inner envelope: crates/wire-types/src/envelope.rs. The payload union is an interface: its type, its
-- kind, and the codec of each kind.
pub mod RoundTrip
pub mod Union
pub mod Payloads
use s_chat6_core.Common.{
  ℕ, ◌+◌, ◌%◌, ◌^◌, ◌≡◌, List, [], ◌∷◌, ◌++◌, length, ltb, ◌==◌, Bool, true, false, if◌then◌else◌,
  Option, none, some, Result, ok, err, ◌>>=◌, ◌>>◌, not, guard,
}
use s_chat6_core.Wire.Error.{WireError, Wire, too_large, bad_length, unknown_type}
use s_chat6_core.Wire.Bin.{
  Writer, Reader, new_writer, put_u8, put_u64be, put_lp, raw, finish, new_reader, u8, u64be, lp,
  take_bytes, expect_end,
}

abbrev pub max_envelope_bytes : ℕ
max_envelope_bytes = 27_996

abbrev pub msg_id_bytes : ℕ
msg_id_bytes = 16

pub data EnvelopeType : Type 0 where
  msg : EnvelopeType
  edit : EnvelopeType
  delete : EnvelopeType
  delete_all : EnvelopeType
  resync_req : EnvelopeType
  attach_head : EnvelopeType
  attach_chunk : EnvelopeType
  contact_close : EnvelopeType
  profile : EnvelopeType
  pref : EnvelopeType
  profile_req : EnvelopeType
  sticker : EnvelopeType
  sticker_ctrl : EnvelopeType
  presence : EnvelopeType
  chat_policy : EnvelopeType
  typing : EnvelopeType
  read : EnvelopeType

-- The codes 12 and 13 are unassigned.
unfoldable pub code : EnvelopeType → ℕ
code msg = 1
code edit = 2
code delete = 3
code delete_all = 4
code resync_req = 5
code attach_head = 6
code attach_chunk = 7
code contact_close = 8
code profile = 9
code pref = 10
code profile_req = 11
code sticker = 14
code sticker_ctrl = 15
code presence = 16
code chat_policy = 17
code typing = 18
code read = 19

unfoldable pub from_code : ℕ → Option EnvelopeType
from_code c =
    if c == 1
    then some msg
    else if c == 2
    then some edit
    else if c == 3
    then some delete
    else if c == 4
    then some delete_all
    else if c == 5
    then some resync_req
    else if c == 6
    then some attach_head
    else if c == 7
    then some attach_chunk
    else if c == 8
    then some contact_close
    else if c == 9
    then some profile
    else if c == 10
    then some pref
    else if c == 11
    then some profile_req
    else if c == 14
    then some sticker
    else if c == 15
    then some sticker_ctrl
    else if c == 16
    then some presence
    else if c == 17
    then some chat_policy
    else if c == 18
    then some typing
    else if c == 19
    then some read
    else none

-- `Payload`: what the envelope uses of the union, and the law of its codecs.
pub record PayloadCodec (P : Type 0) : Type 1 where
  pub envelope_type : P → EnvelopeType
  pub encode_payload : P → Wire (List ℕ)
  pub decode_payload : EnvelopeType → List ℕ → Wire P
  pub IsPayload : P → Type 0
  pub decode-encode_payload :
      (p : P) (bytes : List ℕ)
      → IsPayload p
      → encode_payload p ≡ ok bytes
      → decode_payload (envelope_type p) bytes ≡ ok p

pub record Envelope (P : Type 0) : Type 0 where
  pub msg_id : List ℕ
  pub app_seq : ℕ
  pub sent_at : ℕ
  pub ref_id : Option (List ℕ)
  pub payload : P

-- The `match &self.ref_id`.
unfoldable pub put_ref : Option (List ℕ) → Writer → Writer
put_ref (some r) w = raw r (put_u8 msg_id_bytes w)
put_ref none w = put_u8 0 w

unfoldable pub header : ℕ → List ℕ → ℕ → ℕ → Option (List ℕ) → Writer
unfolding put_ref
header c msg_id app_seq sent_at ref_id =
    put_ref ref_id (put_u64be sent_at (put_u64be app_seq (raw msg_id (put_u8 c new_writer))))

unfoldable pub encode : {P : Type 0} → PayloadCodec P → Envelope P → Wire (List ℕ)
encode codec e = do
  payload ← codec.encode_payload e.payload
  let out = finish (
        put_lp payload
          (header (code (codec.envelope_type e.payload)) e.msg_id e.app_seq e.sent_at e.ref_id)) in
      if ltb max_envelope_bytes (length out)
      then err (too_large "envelope" (length out) max_envelope_bytes)
      else ok out

-- The `match ref_len`.
unfoldable pub read_ref : ℕ → Reader → Wire (Option (List ℕ) × Reader)
read_ref ref_len r =
    if ref_len == 0
    then ok (none, r)
    else if ref_len == msg_id_bytes
    then (take_bytes msg_id_bytes "envelope.ref" r >>= λ p. ok (some p.0, p.1))
    else err (bad_length "envelope.ref" ref_len msg_id_bytes)

-- The type is looked up after the whole envelope is read.
unfoldable pub typed_payload :
    {P : Type 0}
    → PayloadCodec P
    → Option EnvelopeType
    → ℕ
    → List ℕ
    → ℕ
    → ℕ
    → Option (List ℕ)
    → List ℕ
    → Wire (Envelope P)
typed_payload codec none c msg_id app_seq sent_at ref_id bytes = err (unknown_type c msg_id app_seq)
typed_payload codec (some t) c msg_id app_seq sent_at ref_id bytes = do
  payload ← codec.decode_payload t bytes
  ok (record {
    msg_id = msg_id;
    app_seq = app_seq;
    sent_at = sent_at;
    ref_id = ref_id;
    payload = payload;
  })

unfoldable pub decode : {P : Type 0} → PayloadCodec P → List ℕ → Wire (Envelope P)
decode codec bytes = do
  guard (not (ltb max_envelope_bytes (length bytes)))
      (too_large "envelope" (length bytes) max_envelope_bytes)
  (c, r) ← u8 "envelope.type" (new_reader bytes)
  (msg_id, r) ← take_bytes msg_id_bytes "envelope.msg_id" r
  (app_seq, r) ← u64be "envelope.app_seq" r
  (sent_at, r) ← u64be "envelope.sent_at" r
  (ref_len, r) ← u8 "envelope.ref_len" r
  (ref_id, r) ← read_ref ref_len r
  (payload_bytes, r) ← lp max_envelope_bytes "envelope.payload" r
  expect_end "envelope" r
  typed_payload codec (from_code c) c msg_id app_seq sent_at ref_id payload_bytes
