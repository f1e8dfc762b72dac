-- ===== src/Wire/Policy/RoundTrip.antt =====
-- CHAT_POLICY read back after it was written.
use s_chat6_core.Common.{
  ℕ, ◌^◌, ◌<◌, ◌≡◌, refl, arith, Bool, true, false, leb, List, [], ◌∷◌, ◌++◌, length, length-append,
  append_assoc, append-nil, ok, ◌>>◌,
}
use s_chat6_core.Common.Bytes.{to_be_bytes, length-to_be_bytes}
use s_chat6_core.Wire.Bin.{new_writer, put_u8, put_u32be, raw, finish, new_reader}
use s_chat6_core.Wire.Bin.Laws.{
  Sees-new, advance, u8-Sees, u32be-Sees, take_bytes-append, expect_end-Sees,
}
use s_chat6_core.Wire.Policy.{
  ChatPolicy, version, size, bool_byte, flags_of, flags, validate, encode_payload, decode_payload,
  policy_of,
}

-- The Rust types of the fields.
pub record IsTyped (p : ChatPolicy) : Type 0 where
  op_u8 : p.op < 2 ^ 8
  pub ttl_u32 : p.ttl_sec < 2 ^ 32
  cap_id_u8 : p.cap_id < 2 ^ 8
  pub id_16 : length p.propose_id ≡ 16

flags_of-lt : (a b c d e f g : Bool) → flags_of a b c d e f g < 2 ^ 32
unfolding flags_of
flags_of-lt a b c d e f g = ground arith

-- Each flag is read back from its own bit.
policy_of-flags :
    (p : ChatPolicy)
    → policy_of p.op p.ttl_sec (flags p) p.cap_id (bool_byte p.cap_on) p.propose_id ≡ p
unfolding policy_of flags flags_of
policy_of-flags p = ground arith

bool_byte_small : (b : Bool) → leb (bool_byte b) 1 ≡ true
bool_byte_small true = refl
bool_byte_small false = refl

-- The 28 bytes of a payload.
abbrev pub layout : ChatPolicy → List ℕ
layout p =
    version
    ∷ p.op
    ∷ (to_be_bytes 4 p.ttl_sec
        ++ (to_be_bytes 4 (flags p) ++ (p.cap_id ∷ bool_byte p.cap_on ∷ (p.propose_id ++ []))))

encode-layout : (p : ChatPolicy) → encode_payload p ≡ (validate p >> ok (layout p))
unfolding encode_payload put_u8 put_u32be raw finish new_writer
encode-layout p = simp (append_assoc, append-nil)

length-layout : (p : ChatPolicy) → length p.propose_id ≡ 16 → length (layout p) ≡ size
length-layout p h = omega (
  arith,
  length-append {0} (to_be_bytes 4 p.ttl_sec)
      (to_be_bytes 4 (flags p) ++ (p.cap_id ∷ bool_byte p.cap_on ∷ (p.propose_id ++ []))),
  length-append {0} (to_be_bytes 4 (flags p))
      (p.cap_id ∷ bool_byte p.cap_on ∷ (p.propose_id ++ [])),
  length-append {0} p.propose_id [],
  length-to_be_bytes 4 p.ttl_sec,
  length-to_be_bytes 4 (flags p),
)

decode-layout : (p : ChatPolicy) → IsTyped p → validate p ≡ ok tt → decode_payload (layout p) ≡ ok p
unfolding decode_payload
decode-layout p t v =
    let r0 = new_reader (layout p) in
    let (e1, s1) = u8-Sees "policy.version" r0 version _ (Sees-new (layout p)) in
    let (e2, s2) = u8-Sees "policy.op" (advance 1 r0) p.op _ s1 in
    let r2 = advance 1 (advance 1 r0) in
    let (e3, s3) = u32be-Sees "policy.ttl" r2 p.ttl_sec _ s2 t.ttl_u32 in
    let (e4, s4) =
      u32be-Sees "policy.flags" (advance 4 r2) (flags p) _ s3
        (unfold flags in flags_of-lt _ _ _ _ _ _ _) in
    let r4 = advance 4 (advance 4 r2) in
    let (e5, s5) = u8-Sees "policy.cap_id" r4 p.cap_id _ s4 in
    let (e6, s6) = u8-Sees "policy.cap_on" (advance 1 r4) (bool_byte p.cap_on) _ s5 in
    let r6 = advance 1 (advance 1 r4) in
    let (e7, s7) = take_bytes-append 16 "policy.propose_id" r6 p.propose_id [] s6 t.id_16 in
    rw (
      length-layout p t.id_16,
      e1,
      e2,
      e3,
      e4,
      e5,
      e6,
      bool_byte_small p.cap_on,
      e7,
      expect_end-Sees "policy" (advance 16 r6) s7,
      policy_of-flags p,
      v,
    )

-- A CHAT_POLICY that passes its own validation, and whose fields have their Rust types, is encoded
-- to 28 bytes from which the decoder gives back the same payload.
pub decode-encode :
    (p : ChatPolicy)
    → IsTyped p
    → validate p ≡ ok tt
    → (bytes : List ℕ) × (encode_payload p ≡ ok bytes)
      × (length bytes ≡ size)
      × (decode_payload bytes ≡ ok p)
decode-encode p t v =
    (layout p, rw (encode-layout p, v), length-layout p t.id_16, decode-layout p t v)

-- Whatever bytes the decoder accepts, there are 28 of them, and the payload passes the validation
-- that the encoder makes, so it is encoded again without an error.
pub decode-IsValid :
    (bytes : List ℕ) (p : ChatPolicy)
    → decode_payload bytes ≡ ok p
    → (length bytes ≡ size) × (validate p ≡ ok tt) × (encode_payload p ≡ ok (layout p))
unfolding decode_payload
decode-IsValid bytes p e =
    let valid : (length bytes ≡ size) × (validate p ≡ ok tt) = ground arith in
    (valid.0, valid.1, rw (encode-layout p, valid.1))
