-- ===== src/Wire/Envelope/Payloads.antt =====
-- The union of the payloads as the codec of an envelope.
use s_chat6_core.Common.{
  ℕ, ◌^◌, ◌≤◌, ◌<◌, ◌≡◌, refl, sym, ap, ◌∙◌, arith, List, length, true, ok, ◌>>=◌, then_ok,
  >>=-eq-ok,
}
use s_chat6_core.Common.Utf8.{is_utf8}
use s_chat6_core.Wire.Error.{Wire}
use s_chat6_core.Wire.Envelope.{PayloadCodec, Envelope, encode, decode}
use s_chat6_core.Wire.Envelope.RoundTrip.{IsTyped, decode-encode_envelope}
use s_chat6_core.Wire.Envelope.Union.{
  Payload, msg, edit, delete, delete_all, resync_req, attach_head, attach_chunk, contact_close,
  profile, pref, profile_req, sticker, sticker_ctrl, presence, chat_policy, typing, read,
  envelope_type, encode_union, decode_union,
}
use s_chat6_core.Wire.Text.{msg-round_trip, edit-round_trip}
use s_chat6_core.Wire.Profile.{profile-round_trip}
use s_chat6_core.Wire.Payload.{
  Pref, ResyncReq, encode_pref, decode_pref, encode_resync, decode_resync, decode_typing,
  decode_presence, max_erase_hours, max_bitmap_bytes, hash_bytes,
}
use s_chat6_core.Wire.Payload.RoundTrip.{
  typing-round_trip, presence-round_trip, pref-round_trip, resync-round_trip,
}
use s_chat6_core.Wire.Policy.{ChatPolicy, validate, encode_payload, decode_payload}
use s_chat6_core.Wire.Policy.RoundTrip.{decode-encode}
use s_chat6_core.Wire.Attach.Chunk.{chunk-round_trip}
use s_chat6_core.Wire.Attach.Chunked.{IsSound}
use s_chat6_core.Wire.Attach.RoundTrip.{head-round_trip}
use s_chat6_core.Wire.Sticker.Item.RoundTrip.{item-round_trip}
use s_chat6_core.Wire.Sticker.Ctrl.RoundTrip.{ctrl-round_trip}

-- The Rust types of the fields, and what the decoders ask beyond the encoders.
abbrev pub IsPayload : Payload → Type 0
IsPayload (msg p) = is_utf8 p.body ≡ true
IsPayload (edit p) = is_utf8 p.body ≡ true
IsPayload (resync_req p) =
    (p.max_contiguous_seq < 2 ^ 64) × (p.caps < 2 ^ 32) × (length p.history_hash ≡ hash_bytes)
IsPayload (attach_head p) = IsSound p.head
IsPayload (attach_chunk p) = s_chat6_core.Wire.Attach.Chunk.IsTyped p
IsPayload (profile p) = is_utf8 p.name ≡ true
IsPayload (sticker p) = s_chat6_core.Wire.Sticker.Item.RoundTrip.IsTyped p
IsPayload (sticker_ctrl p) = s_chat6_core.Wire.Sticker.Ctrl.RoundTrip.IsTyped p
IsPayload (chat_policy p) = s_chat6_core.Wire.Policy.RoundTrip.IsTyped p
IsPayload p = Unit {0}

-- A round trip through a bind, at bytes that are known.
of_bind :
    {A : Type 0} (e : Wire (List ℕ)) (d : List ℕ → Wire A) (p : A) (bytes : List ℕ)
    → (e >>= d) ≡ ok p
    → e ≡ ok bytes
    → d bytes ≡ ok p
of_bind e d p bytes both h = sym (ap (λ m. m >>= d) h) ∙ both

-- A variant is read back where its payload is.
wrapped :
    {A : Type 0} (wrap : A → Payload) (m : Wire A) (p : A)
    → m ≡ ok p
    → (m >>= λ q. ok (wrap q)) ≡ ok (wrap p)
wrapped wrap m p e = then_ok m _ p e refl

resync_small :
    (p : ResyncReq) (bytes : List ℕ)
    → encode_resync p ≡ ok bytes
    → length p.received_seq_bitmap ≤ max_bitmap_bytes
unfolding encode_resync
resync_small p bytes e = ground (arith, e)

pref_small :
    (p : Pref) (bytes : List ℕ)
    → encode_pref p ≡ ok bytes
    → p.inactivity_erase_hours ≤ max_erase_hours
unfolding encode_pref
pref_small p bytes e = ground (arith, e)

policy_valid : (p : ChatPolicy) (bytes : List ℕ) → encode_payload p ≡ ok bytes → validate p ≡ ok tt
unfolding encode_payload
policy_valid p bytes e = (>>=-eq-ok (validate p) _ e).1

resync-decoded :
    (p : ResyncReq) (bytes : List ℕ)
    → IsPayload (resync_req p)
    → encode_resync p ≡ ok bytes
    → decode_resync bytes ≡ ok p
resync-decoded p bytes (seq, caps, hash) e =
    of_bind (encode_resync p) decode_resync p bytes
      (resync-round_trip p seq caps hash (resync_small p bytes e)) e

pref-decoded : (p : Pref) (bytes : List ℕ) → encode_pref p ≡ ok bytes → decode_pref bytes ≡ ok p
pref-decoded p bytes e =
    of_bind (encode_pref p) decode_pref p bytes (pref-round_trip p (pref_small p bytes e)) e

policy-decoded :
    (p : ChatPolicy) (bytes : List ℕ)
    → IsPayload (chat_policy p)
    → encode_payload p ≡ ok bytes
    → decode_payload bytes ≡ ok p
policy-decoded p bytes t e =
    let (out, enc, n, dec) = decode-encode p t (policy_valid p bytes e) in
    of_bind (encode_payload p) decode_payload p bytes (then_ok _ decode_payload out enc dec) e

pub decode-encode_union :
    (nfc : List ℕ → List ℕ) (p : Payload) (bytes : List ℕ)
    → IsPayload p
    → encode_union nfc p ≡ ok bytes
    → decode_union nfc (envelope_type p) bytes ≡ ok p
unfolding encode_union decode_union envelope_type
decode-encode_union nfc (msg p) bytes t e = wrapped msg _ p (msg-round_trip p bytes t e)
decode-encode_union nfc (edit p) bytes t e = wrapped edit _ p (edit-round_trip p bytes t e)
decode-encode_union nfc delete bytes t e = ground (arith, e)
decode-encode_union nfc delete_all bytes t e = ground (arith, e)
decode-encode_union nfc (resync_req p) bytes t e =
    wrapped resync_req _ p (resync-decoded p bytes t e)
decode-encode_union nfc (attach_head p) bytes t e =
    wrapped attach_head _ p (head-round_trip p bytes t e)
decode-encode_union nfc (attach_chunk p) bytes t e =
    wrapped attach_chunk _ p (chunk-round_trip p bytes t e)
decode-encode_union nfc contact_close bytes t e = ground (arith, e)
decode-encode_union nfc (profile p) bytes t e =
    wrapped profile _ p (profile-round_trip nfc p bytes t e)
decode-encode_union nfc (pref p) bytes t e = wrapped pref _ p (pref-decoded p bytes e)
decode-encode_union nfc profile_req bytes t e = ground (arith, e)
decode-encode_union nfc (sticker p) bytes t e = wrapped sticker _ p (item-round_trip p bytes t e)
decode-encode_union nfc (sticker_ctrl p) bytes t e =
    wrapped sticker_ctrl _ p (ctrl-round_trip p bytes t e)
decode-encode_union nfc (presence p) bytes t e =
    wrapped presence _ p (of_bind _ decode_presence p bytes (presence-round_trip p) e)
decode-encode_union nfc (chat_policy p) bytes t e =
    wrapped chat_policy _ p (policy-decoded p bytes t e)
decode-encode_union nfc (typing p) bytes t e =
    wrapped typing _ p (of_bind _ decode_typing p bytes (typing-round_trip p) e)
decode-encode_union nfc read bytes t e = ground (arith, e)

abbrev pub payload_codec : (List ℕ → List ℕ) → PayloadCodec Payload
payload_codec nfc = record {
  envelope_type = envelope_type;
  encode_payload = encode_union nfc;
  decode_payload = decode_union nfc;
  IsPayload = IsPayload;
  decode-encode_payload = decode-encode_union nfc;
}

-- An envelope with any of the seventeen payloads that is encoded without an error is read back as it was, its
-- type included, when its fields and the payload's have their Rust types and what the decoders ask beyond the
-- encoders holds: strings in valid UTF-8, the hint and the extension of an attachment in ASCII, and the pack
-- reference of a sticker control message of known kind and visibility and of an allowed aspect.
pub envelope-round_trip :
    (nfc : List ℕ → List ℕ) (e : Envelope Payload) (out : List ℕ)
    → IsTyped e
    → IsPayload e.payload
    → encode (payload_codec nfc) e ≡ ok out
    → decode (payload_codec nfc) out ≡ ok e
envelope-round_trip nfc e out t valid h = decode-encode_envelope (payload_codec nfc) e out t valid h
