-- ===== src/Wire/Envelope/RoundTrip.antt =====
-- Envelopes read back after they were written, of known and of unknown types.
use s_chat6_core.Common.{
  ℕ, ◌%◌, ◌^◌, ◌≤◌, ◌<◌, ◌≡◌, ◌↔◌, refl, sym, ap, ◌∙◌, arith, List, [], ◌∷◌, ◌++◌, length, ltb,
  false, Option, none, some, ok, err, >>=-eq-ok, append_assoc, append-nil, le→ltb, Bool-cases, inl,
  inr, length-append,
}
use s_chat6_core.Common.Bytes.{to_be_bytes}
use s_chat6_core.Wire.Error.{unknown_type}
use s_chat6_core.Wire.Bin.{
  new_writer, put_u8, put_u64be, put_lp, raw, finish, Reader, new_reader, u8,
}
use s_chat6_core.Wire.Bin.Laws.{
  Sees, Sees-new, advance, u8-Sees, u64be-Sees, lp-Sees, take_bytes-append, expect_end-Sees,
}
use s_chat6_core.Wire.Envelope.{
  EnvelopeType, code, from_code, PayloadCodec, Envelope, put_ref, header, encode, decode, read_ref,
  typed_payload, max_envelope_bytes, msg_id_bytes,
}

from_code-code : (t : EnvelopeType) → from_code (code t) ≡ some t
unfolding code from_code
from_code-code EnvelopeType.msg = refl
from_code-code EnvelopeType.edit = refl
from_code-code EnvelopeType.delete = refl
from_code-code EnvelopeType.delete_all = refl
from_code-code EnvelopeType.resync_req = refl
from_code-code EnvelopeType.attach_head = refl
from_code-code EnvelopeType.attach_chunk = refl
from_code-code EnvelopeType.contact_close = refl
from_code-code EnvelopeType.profile = refl
from_code-code EnvelopeType.pref = refl
from_code-code EnvelopeType.profile_req = refl
from_code-code EnvelopeType.sticker = refl
from_code-code EnvelopeType.sticker_ctrl = refl
from_code-code EnvelopeType.presence = refl
from_code-code EnvelopeType.chat_policy = refl
from_code-code EnvelopeType.typing = refl
from_code-code EnvelopeType.read = refl

code-lt : (t : EnvelopeType) → code t < 256
unfolding code
code-lt t = ground arith

code_of-from_code : (c : ℕ) (t : EnvelopeType) → from_code c ≡ some t → code t ≡ c
unfolding code from_code
code_of-from_code c t h = ground (arith, h)

-- The two tables are inverse to each other: a type is found under a code exactly when the code is that
-- type's.
code-from_code : (t : EnvelopeType) (c : ℕ) → (from_code c ≡ some t) ↔ (code t ≡ c)
code-from_code t c = (code_of-from_code c t, λ h. sym (ap from_code h) ∙ from_code-code t)

abbrev ref_bytes : Option (List ℕ) → List ℕ
ref_bytes none = 0 ∷ []
ref_bytes (some r) = msg_id_bytes ∷ r

-- The Rust types of the fields.
abbrev IsRef : Option (List ℕ) → Type 0
IsRef none = Unit {0}
IsRef (some r) = length r ≡ msg_id_bytes

pub record IsTyped {P : Type 0} (e : Envelope P) : Type 0 where
  pub id_16 : length e.msg_id ≡ msg_id_bytes
  pub seq_u64 : e.app_seq < 2 ^ 64
  pub sent_u64 : e.sent_at < 2 ^ 64
  pub ref_16 : IsRef e.ref_id

-- The reference is read back, absent or of 16 bytes.
read_ref-Sees :
    (ref : Option (List ℕ)) (r : Reader) (ys : List ℕ)
    → IsRef ref
    → Sees r (ref_bytes ref ++ ys)
    → (n : ℕ) × (r' : Reader) × (u8 "envelope.ref_len" r ≡ ok (n, advance 1 r))
      × (read_ref n (advance 1 r) ≡ ok (ref, r'))
      × Sees r' ys
unfolding read_ref
read_ref-Sees none r ys i s =
    let (e1, s1) = u8-Sees "envelope.ref_len" r 0 ys s in (0, advance 1 r, e1, refl, s1)
read_ref-Sees (some id) r ys i s =
    let (e1, s1) = u8-Sees "envelope.ref_len" r msg_id_bytes (id ++ ys) s in
    let (e2, s2) = take_bytes-append msg_id_bytes "envelope.ref" (advance 1 r) id ys s1 i in
    (msg_id_bytes, advance msg_id_bytes (advance 1 r), e1, rw e2 refl, s2)

header-layout :
    (c : ℕ) (id : List ℕ) (seq sent : ℕ) (ref : Option (List ℕ)) (rest : List ℕ)
    → (header c id seq sent ref).buf ++ rest
      ≡ c ∷ (id ++ (to_be_bytes 8 seq ++ (to_be_bytes 8 sent ++ (ref_bytes ref ++ rest))))
unfolding header put_ref put_u64be put_u8 raw new_writer
header-layout c id seq sent none rest = simp append_assoc
header-layout c id seq sent (some r) rest = simp append_assoc

module _ {P : Type 0} (codec : PayloadCodec P) where
  abbrev pub layout : ℕ → Envelope P → List ℕ → List ℕ
  layout c e payload =
      c
      ∷ (e.msg_id
          ++ (to_be_bytes 8 e.app_seq
              ++ (to_be_bytes 8 e.sent_at
                  ++ (ref_bytes e.ref_id ++ (to_be_bytes 4 (length payload) ++ (payload ++ []))))))

  layout-room :
      (c : ℕ) (e : Envelope P) (payload : List ℕ) → length payload ≤ length (layout c e payload)
  layout-room c e payload = omega (
    arith,
    length-append {0} payload [],
    length-append {0} (to_be_bytes 4 (length payload)) (payload ++ []),
    length-append {0} (ref_bytes e.ref_id) (to_be_bytes 4 (length payload) ++ (payload ++ [])),
    length-append {0} (to_be_bytes 8 e.sent_at)
        (ref_bytes e.ref_id ++ (to_be_bytes 4 (length payload) ++ (payload ++ []))),
    length-append {0} (to_be_bytes 8 e.app_seq) (
        to_be_bytes 8 e.sent_at
        ++ (ref_bytes e.ref_id ++ (to_be_bytes 4 (length payload) ++ (payload ++ [])))),
    length-append {0} e.msg_id (
        to_be_bytes 8 e.app_seq
        ++ (to_be_bytes 8 e.sent_at
            ++ (ref_bytes e.ref_id ++ (to_be_bytes 4 (length payload) ++ (payload ++ []))))),
  )

  -- What `encode` has written.
  written-layout :
      (c : ℕ) (e : Envelope P) (payload : List ℕ)
      → length (finish (put_lp payload (header c e.msg_id e.app_seq e.sent_at e.ref_id)))
        ≤ max_envelope_bytes
      → finish (put_lp payload (header c e.msg_id e.app_seq e.sent_at e.ref_id))
        ≡ layout c e payload
  unfolding finish put_lp header put_ref put_u64be put_u8 raw new_writer
  written-layout c e payload h =
      let b = (header c e.msg_id e.app_seq e.sent_at e.ref_id).buf in
      let num = to_be_bytes 4 (length payload % 2 ^ 32) in
      let len : length payload % 2 ^ 32 ≡ length payload =
        omega (arith, h, length-append {0} (b ++ num) payload) in
      append_assoc b num payload
      ∙ rw len (
          header-layout c e.msg_id e.app_seq e.sent_at e.ref_id
            (to_be_bytes 4 (length payload) ++ payload))
      ∙ ap
          (λ t.
            c
            ∷ (e.msg_id
                ++ (to_be_bytes 8 e.app_seq
                    ++ (to_be_bytes 8 e.sent_at
                        ++ (ref_bytes e.ref_id ++ (to_be_bytes 4 (length payload) ++ t))))))
          (sym (append-nil payload))

  typed_payload-known :
      (e : Envelope P) (ty : EnvelopeType) (payload : List ℕ)
      → codec.decode_payload ty payload ≡ ok e.payload
      → typed_payload codec
          (from_code (code ty))
          (code ty)
          e.msg_id
          e.app_seq
          e.sent_at
          e.ref_id
          payload
        ≡ ok e
  unfolding typed_payload
  typed_payload-known e ty payload d = rw (from_code-code ty, d) refl

  -- What is read back from the bytes of an envelope, whatever its code.
  decode-layout :
      (c : ℕ) (e : Envelope P) (payload : List ℕ)
      → IsTyped e
      → length (layout c e payload) ≤ max_envelope_bytes
      → decode codec (layout c e payload)
        ≡ typed_payload codec (from_code c) c e.msg_id e.app_seq e.sent_at e.ref_id payload
  unfolding decode
  decode-layout c e payload t h =
      let bytes = layout c e payload in
      let small : ltb max_envelope_bytes (length bytes) ≡ false =
        le→ltb max_envelope_bytes (length bytes) h in
      let r0 = new_reader bytes in
      let (e1, s1) = u8-Sees "envelope.type" r0 c _ (Sees-new bytes) in
      let r1 = advance 1 r0 in
      let (e2, s2) = take_bytes-append msg_id_bytes "envelope.msg_id" r1 e.msg_id _ s1 t.id_16 in
      let r2 = advance msg_id_bytes r1 in
      let (e3, s3) = u64be-Sees "envelope.app_seq" r2 e.app_seq _ s2 t.seq_u64 in
      let r3 = advance 8 r2 in
      let (e4, s4) = u64be-Sees "envelope.sent_at" r3 e.sent_at _ s3 t.sent_u64 in
      let (n, r5, e5, e6, s6) = read_ref-Sees e.ref_id (advance 8 r3) _ t.ref_16 s4 in
      let fits : length payload ≤ max_envelope_bytes = omega (arith, h, layout-room c e payload) in
      let (e7, s7) =
        lp-Sees max_envelope_bytes "envelope.payload" r5 payload [] s6 fits (omega arith) in
      let e8 = expect_end-Sees "envelope" (advance (length payload) (advance 4 r5)) s7 in
      rw (small, e1, e2, e3, e4, e5, e6, e7, e8) refl

  -- What is encoded without an error is read back as the same envelope, when its fields have their
  -- Rust types and its payload is one that its own codec reads back.
  pub decode-encode_envelope :
      (e : Envelope P) (out : List ℕ)
      → IsTyped e
      → codec.IsPayload e.payload
      → encode codec e ≡ ok out
      → decode codec out ≡ ok e
  unfolding encode
  decode-encode_envelope e out t valid h =
      let (payload, ep, k) = >>=-eq-ok (codec.encode_payload e.payload) _ h in
      let ty = codec.envelope_type e.payload in
      let c = code ty in
      let w = finish (put_lp payload (header c e.msg_id e.app_seq e.sent_at e.ref_id)) in
      elim (Bool-cases (ltb max_envelope_bytes (length w))) [
        | inl long ↦ absurd (ground (arith, k))
        | inr short ↦
            let same : w ≡ out = ground (arith, k) in
            let room : length w ≤ max_envelope_bytes = ground arith in
            let lay : w ≡ layout c e payload = written-layout c e payload room in
            let fits : length (layout c e payload) ≤ max_envelope_bytes = rw lay at room in
            ap (decode codec) (sym same ∙ lay)
            ∙ decode-layout c e payload t fits
            ∙ typed_payload-known e ty payload
                (codec.decode-encode_payload e.payload payload valid ep)
      ]

  -- The bytes of an envelope whose code has no type, and which is otherwise well formed and not too
  -- long, are refused with the code, the id and the seq, whatever the bytes of the payload.
  decode-unknown :
      (c : ℕ) (e : Envelope P) (payload : List ℕ)
      → IsTyped e
      → length (layout c e payload) ≤ max_envelope_bytes
      → from_code c ≡ none
      → decode codec (layout c e payload) ≡ err (unknown_type c e.msg_id e.app_seq)
  unfolding typed_payload
  decode-unknown c e payload t h u = decode-layout c e payload t h ∙ rw u refl
