-- ===== src/Wire/Tests.antt =====
-- The wire formats at concrete bytes.
pub mod Stickers
use s_chat6_core.Common.{
  ℕ, ◌+◌, ◌≡◌, ◌≤◌, refl, sym, ap, ◌∙◌, arith, List, [], ◌∷◌, ◌++◌, length, replicate,
  length-replicate, Bool, true, false, Option, none, some, Result, ok, err, ◌>>=◌,
}
use s_chat6_core.Wire.Error.{Wire, unknown_type}
use s_chat6_core.Wire.Frame.{build_record, parse_record, is_bucket, bucket_for, starts_with}
use s_chat6_core.Wire.Frame.RoundTrip.{parse-build}
use s_chat6_core.Wire.Framing.{FrameError, OpaqueFrame, pack, read_frame}
use s_chat6_core.Wire.Framing.RoundTrip.{read_frame-pack}
use s_chat6_core.Wire.Payload.{
  Typing, ResyncReq, encode_typing, decode_typing, encode_resync, decode_resync,
}
use s_chat6_core.Wire.Payload.RoundTrip.{typing-round_trip, resync-round_trip}
use s_chat6_core.Wire.Envelope.{EnvelopeType, PayloadCodec, Envelope, encode, decode, from_code}
use s_chat6_core.Common.Utf8.{is_utf8}
use s_chat6_core.Wire.Envelope.Union.{Payload}
use s_chat6_core.Wire.Envelope.Payloads.{payload_codec, envelope-round_trip}
use s_chat6_core.Wire.Envelope.RoundTrip.{IsTyped, layout, decode-encode_envelope}

abbrev hello : List ℕ
hello = 104 ∷ 101 ∷ 108 ∷ 108 ∷ 111 ∷ []

abbrev zeros : ℕ → List ℕ
zeros n = replicate n 0

parse-build_example :
    (out : List ℕ) × (build_record zeros hello ≡ ok out)
    × (is_bucket (length out) ≡ true)
    × (parse_record out ≡ ok hello)
parse-build_example = parse-build zeros hello (λ n. length-replicate n 0) (omega arith)

abbrev a_record : List ℕ
a_record = 2 ∷ replicate 255 7

read_frame-pack_example :
    (out : List ℕ) × (pack (some hello) a_record true ≡ ok out)
    × (read_frame (out ++ hello)
        ≡ ok (some (record { intro = some hello; frame = a_record; alert = true }), hello))
unfolding s_chat6_core.Wire.Framing.intro_ok is_bucket starts_with
read_frame-pack_example = read_frame-pack (some hello) a_record hello true refl refl refl

-- The codecs of one payload, the typing beat, as the union of the envelope.
abbrev typing_codec : PayloadCodec Typing
typing_codec = record {
  envelope_type = λ p. EnvelopeType.typing;
  encode_payload = encode_typing;
  decode_payload = λ t. decode_typing;
  IsPayload = λ p. Unit {0};
  decode-encode_payload =
      λ p bytes u e. sym (ap (λ (m : Wire (List ℕ)). m >>= decode_typing) e) ∙ typing-round_trip p;
}

abbrev a_beat : Envelope Typing
a_beat = record {
  msg_id = replicate 16 1;
  app_seq = 7;
  sent_at = 1_000;
  ref_id = none;
  payload = record { typing = true };
}

a_beat-IsTyped : IsTyped a_beat
a_beat-IsTyped = record { id_16 = refl; seq_u64 = omega arith; sent_u64 = omega arith; ref_16 = tt }

-- A message with a reply target, over the union.
abbrev a_msg : Envelope Payload
a_msg = record {
  msg_id = replicate 16 1;
  app_seq = 7;
  sent_at = 1_000;
  ref_id = some (replicate 16 2);
  payload = Payload.msg (record { body = hello });
}

abbrev msg_bytes : List ℕ
msg_bytes =
    1
    ∷ (replicate 16 1
        ++ (0
            ∷ 0
            ∷ 0
            ∷ 0
            ∷ 0
            ∷ 0
            ∷ 0
            ∷ 7
            ∷ 0
            ∷ 0
            ∷ 0
            ∷ 0
            ∷ 0
            ∷ 0
            ∷ 3
            ∷ 232
            ∷ 16
            ∷ (replicate 16 2 ++ (0 ∷ 0 ∷ 0 ∷ 5 ∷ hello))))

a_msg-encoded : encode (payload_codec (λ name. name)) a_msg ≡ ok msg_bytes
unfolding encode s_chat6_core.Wire.Envelope.Union.encode_union s_chat6_core.Wire.Text.encode_msg
    s_chat6_core.Wire.Bin.finish s_chat6_core.Wire.Bin.put_lp s_chat6_core.Wire.Envelope.header
    s_chat6_core.Wire.Bin.put_u8 s_chat6_core.Wire.Bin.put_u64be s_chat6_core.Wire.Bin.new_writer
    s_chat6_core.Common.Bytes.to_be_bytes s_chat6_core.Wire.Envelope.code
    s_chat6_core.Wire.Envelope.Union.envelope_type
a_msg-encoded = refl

a_msg-IsTyped : IsTyped a_msg
a_msg-IsTyped = record {
  id_16 = refl;
  seq_u64 = omega arith;
  sent_u64 = omega arith;
  ref_16 = refl;
}

hello-is_utf8 : is_utf8 hello ≡ true
unfolding is_utf8
hello-is_utf8 = refl

envelope-round_trip_example : decode (payload_codec (λ name. name)) msg_bytes ≡ ok a_msg
envelope-round_trip_example =
    envelope-round_trip (λ name. name) a_msg msg_bytes a_msg-IsTyped hello-is_utf8 a_msg-encoded
