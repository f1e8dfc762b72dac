-- ===== src/Wire/Payload.antt =====
-- The small payloads: `Typing`, `Presence`, `Pref`, `ResyncReq` and the decoder of the empty ones, of
-- crates/wire-types/src/{typing,presence,pref,resync,delete}.rs.
pub mod RoundTrip
use s_chat6_core.Common.{
  ℕ, ◌+◌, ◌-◌, ◌*◌, ◌%◌, ◌^◌, List, [], ◌∷◌, ◌++◌, length, ltb, ◌==◌, Bool, true, false, not,
  if◌then◌else◌, String, Result, ok, err, ◌>>=◌, ◌>>◌, guard, bit_or,
}
use s_chat6_core.Wire.Error.{WireError, Wire, too_large, bad_version, bad_field, exceeds, literal}
use s_chat6_core.Wire.Bin.{
  Writer, new_writer, put_u8, put_u32be, put_u64be, put_lp, raw, finish, new_reader, u8, u32be,
  u64be, lp, take_bytes, expect_end,
}
use s_chat6_core.Wire.Policy.{has_flag, set_if}

-- The `VERSION` of each of the three.
abbrev pub version : ℕ
version = 1

pub record Typing : Type 0 where
  pub typing : Bool

unfoldable pub encode_typing : Typing → Wire (List ℕ)
encode_typing p = ok (finish (put_u8 (if p.typing then 2 ^ 0 else 0) (put_u8 version new_writer)))

unfoldable pub decode_typing : List ℕ → Wire Typing
decode_typing bytes = do
  (v, r) ← u8 "typing.version" (new_reader bytes)
  guard (v == version) (bad_version "typing" v)
  (flags, r) ← u8 "typing.flags" r
  expect_end "typing" r
  ok (record { typing = has_flag flags (2 ^ 0) })

pub record Presence : Type 0 where
  pub in_app : Bool
  pub do_not_disturb : Bool

-- The `flags |= …` under each field.
unfoldable pub two_flags : Bool → Bool → ℕ
two_flags a b = set_if b (2 ^ 1) (set_if a (2 ^ 0) 0)

unfoldable pub encode_presence : Presence → Wire (List ℕ)
encode_presence p =
    ok (finish (put_u8 (two_flags p.in_app p.do_not_disturb) (put_u8 version new_writer)))

unfoldable pub decode_presence : List ℕ → Wire Presence
decode_presence bytes = do
  (v, r) ← u8 "presence.version" (new_reader bytes)
  guard (v == version) (bad_version "presence" v)
  (flags, r) ← u8 "presence.flags" r
  expect_end "presence" r
  ok (record { in_app = has_flag flags (2 ^ 0); do_not_disturb = has_flag flags (2 ^ 1) })

pub record Pref : Type 0 where
  pub receive_media : Bool
  pub listen_saver : Bool
  pub inactivity_erase_hours : ℕ

abbrev pub max_erase_hours : ℕ
max_erase_hours = 24 * 365

unfoldable pub encode_pref : Pref → Wire (List ℕ)
encode_pref p = do
  guard (not (ltb max_erase_hours p.inactivity_erase_hours))
      (bad_field "pref.inactivity_erase_hours" (exceeds p.inactivity_erase_hours max_erase_hours))
  ok (
      finish (
        put_u32be p.inactivity_erase_hours
          (put_u32be (two_flags p.receive_media p.listen_saver) (put_u8 version new_writer))))

unfoldable pub decode_pref : List ℕ → Wire Pref
decode_pref bytes = do
  (v, r) ← u8 "pref.version" (new_reader bytes)
  guard (v == version) (bad_version "pref" v)
  (flags, r) ← u32be "pref.flags" r
  (hours, r) ← u32be "pref.erase_hours" r
  expect_end "pref" r
  guard (not (ltb max_erase_hours hours))
      (bad_field "pref.inactivity_erase_hours" (exceeds hours max_erase_hours))
  ok (record {
    receive_media = has_flag flags (2 ^ 0);
    listen_saver = has_flag flags (2 ^ 1);
    inactivity_erase_hours = hours;
  })

pub record ResyncReq : Type 0 where
  pub max_contiguous_seq : ℕ
  pub received_seq_bitmap : List ℕ
  pub caps : ℕ
  pub history_hash : List ℕ

abbrev pub max_bitmap_bytes : ℕ
max_bitmap_bytes = 512

abbrev pub hash_bytes : ℕ
hash_bytes = 32

unfoldable pub encode_resync : ResyncReq → Wire (List ℕ)
encode_resync p = do
  guard (not (ltb max_bitmap_bytes (length p.received_seq_bitmap)))
      (too_large "resync.bitmap" (length p.received_seq_bitmap) max_bitmap_bytes)
  ok (
      finish (
        raw p.history_hash (
          put_u32be p.caps
            (put_lp p.received_seq_bitmap (put_u64be p.max_contiguous_seq new_writer)))))

unfoldable pub decode_resync : List ℕ → Wire ResyncReq
decode_resync bytes = do
  (max_contiguous_seq, r) ← u64be "resync.max_seq" (new_reader bytes)
  (bitmap, r) ← lp max_bitmap_bytes "resync.bitmap" r
  (caps, r) ← u32be "resync.caps" r
  (hash, r) ← take_bytes hash_bytes "resync.history_hash" r
  expect_end "resync" r
  ok (record {
    max_contiguous_seq = max_contiguous_seq;
    received_seq_bitmap = bitmap;
    caps = caps;
    history_hash = hash;
  })

-- `decode_empty`, the decoder of the payloads without a field.
unfoldable pub decode_empty : List ℕ → String → Wire (Unit {0})
decode_empty bytes at = guard (length bytes == 0) (too_large at (length bytes) 0)
