-- ===== src/Wire/Text.antt =====
-- crates/wire-types/src/msg.rs and edit.rs: the payloads that are one text. A string is the list of its
-- bytes.
use s_chat6_core.Common.{
  ℕ, ◌*◌, ◌≡◌, arith, String, List, length, ltb, true, not, ok, ok_or, ◌>>=◌, ◌>>◌, guard,
}
use s_chat6_core.Common.Utf8.{from_utf8, is_utf8}
use s_chat6_core.Wire.Error.{Wire, too_large, bad_field, literal}

abbrev pub max_body_bytes : ℕ
max_body_bytes = 16 * 1_024

-- The check that `Msg` and `Edit` make, each in `new`, `encode_payload` and `decode_payload`.
abbrev body_fits : String → List ℕ → Wire (Unit {0})
body_fits at body =
    guard (not (ltb max_body_bytes (length body))) (too_large at (length body) max_body_bytes)

abbrev utf8 : String → List ℕ → Wire (List ℕ)
utf8 at bytes = ok_or (from_utf8 bytes) (bad_field at (literal "invalid utf-8"))

pub record Msg : Type 0 where
  pub body : List ℕ

unfoldable new_msg : List ℕ → Wire Msg
new_msg body = do body_fits "msg.body" body; ok (record { body = body })

unfoldable pub encode_msg : Msg → Wire (List ℕ)
encode_msg p = do body_fits "msg.body" p.body; ok p.body

unfoldable pub decode_msg : List ℕ → Wire Msg
unfolding from_utf8
decode_msg bytes = do
  body_fits "msg.body" bytes
  body ← utf8 "msg.body" bytes
  ok (record { body = body })

pub record Edit : Type 0 where
  pub body : List ℕ

unfoldable new_edit : List ℕ → Wire Edit
new_edit body = do body_fits "edit.body" body; ok (record { body = body })

unfoldable pub encode_edit : Edit → Wire (List ℕ)
encode_edit p = do body_fits "edit.body" p.body; ok p.body

unfoldable pub decode_edit : List ℕ → Wire Edit
unfolding from_utf8
decode_edit bytes = do
  body_fits "edit.body" bytes
  body ← utf8 "edit.body" bytes
  ok (record { body = body })

pub msg-round_trip :
    (p : Msg) (bytes : List ℕ)
    → is_utf8 p.body ≡ true
    → encode_msg p ≡ ok bytes
    → decode_msg bytes ≡ ok p
unfolding encode_msg decode_msg
msg-round_trip p bytes valid e = ground (arith, valid, e)

pub edit-round_trip :
    (p : Edit) (bytes : List ℕ)
    → is_utf8 p.body ≡ true
    → encode_edit p ≡ ok bytes
    → decode_edit bytes ≡ ok p
unfolding encode_edit decode_edit
edit-round_trip p bytes valid e = ground (arith, valid, e)
