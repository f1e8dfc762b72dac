-- ===== src/Wire/Payload/RoundTrip.antt =====
-- The small payloads read back after they were written.
use s_chat6_core.Common.{
  ◌%◌, ◌^◌, ◌≤◌, ◌<◌, ◌≡◌, refl, ap, ◌∙◌, arith, [], ◌∷◌, ◌++◌, length, ltb, Bool, false,
  if◌then◌else◌, ok, ◌>>=◌, append_assoc, append-nil, le→ltb,
}
use s_chat6_core.Common.Bytes.{to_be_bytes}
use s_chat6_core.Wire.Bin.{
  new_writer, put_u8, put_u32be, put_u64be, put_lp, raw, finish, new_reader,
}
use s_chat6_core.Wire.Bin.Laws.{
  Sees-new, advance, u8-Sees, u32be-Sees, u64be-Sees, lp-Sees, take_bytes-append, expect_end-Sees,
}
use s_chat6_core.Wire.Policy.{has_flag}
use s_chat6_core.Wire.Payload.{
  encode_typing, decode_typing, encode_presence, decode_presence, encode_pref, decode_pref,
  encode_resync, decode_resync, version, Typing, Presence, Pref, ResyncReq, two_flags,
  max_erase_hours, max_bitmap_bytes, hash_bytes,
}

two_flags-lt : (a b : Bool) → two_flags a b < 2 ^ 2
unfolding two_flags
two_flags-lt a b = ground arith

two_flags-first : (a b : Bool) → has_flag (two_flags a b) (2 ^ 0) ≡ a
unfolding two_flags
two_flags-first a b = ground arith

two_flags-second : (a b : Bool) → has_flag (two_flags a b) (2 ^ 1) ≡ b
unfolding two_flags
two_flags-second a b = ground arith

typing_flag : (b : Bool) → has_flag (if b then 2 ^ 0 else 0) (2 ^ 0) ≡ b
typing_flag b = ground arith

-- A typing beat, on or off, is read back.
pub typing-round_trip : (p : Typing) → (encode_typing p >>= decode_typing) ≡ ok p
unfolding encode_typing decode_typing put_u8 finish new_writer
typing-round_trip p =
    let bytes = version ∷ (if p.typing then 2 ^ 0 else 0) ∷ [] in
    let r0 = new_reader bytes in
    let (e1, s1) = u8-Sees "typing.version" r0 version _ (Sees-new bytes) in
    let (e2, s2) = u8-Sees "typing.flags" (advance 1 r0) (if p.typing then 2 ^ 0 else 0) _ s1 in
    let e3 = expect_end-Sees "typing" (advance 1 (advance 1 r0)) s2 in
    rw (e1, e2, e3, typing_flag p.typing) refl

-- A presence beat is read back.
pub presence-round_trip : (p : Presence) → (encode_presence p >>= decode_presence) ≡ ok p
unfolding encode_presence decode_presence put_u8 finish new_writer
presence-round_trip p =
    let bytes = version ∷ two_flags p.in_app p.do_not_disturb ∷ [] in
    let r0 = new_reader bytes in
    let (e1, s1) = u8-Sees "presence.version" r0 version _ (Sees-new bytes) in
    let (e2, s2) =
      u8-Sees "presence.flags" (advance 1 r0) (two_flags p.in_app p.do_not_disturb) _ s1 in
    let e3 = expect_end-Sees "presence" (advance 1 (advance 1 r0)) s2 in
    rw
      (
        e1,
        e2,
        e3,
        two_flags-first p.in_app p.do_not_disturb,
        two_flags-second p.in_app p.do_not_disturb,
      )
      refl

-- A preference with at most the maximal number of hours is encoded, and read back as it was.
pub pref-round_trip :
    (p : Pref) → p.inactivity_erase_hours ≤ max_erase_hours → (encode_pref p >>= decode_pref) ≡ ok p
unfolding encode_pref decode_pref put_u8 put_u32be finish new_writer
pref-round_trip p h =
    let f = two_flags p.receive_media p.listen_saver in
    let bytes = version ∷ (to_be_bytes 4 f ++ (to_be_bytes 4 p.inactivity_erase_hours ++ [])) in
    let r0 = new_reader bytes in
    let (e1, s1) = u8-Sees "pref.version" r0 version _ (Sees-new bytes) in
    let (e2, s2) =
      u32be-Sees "pref.flags" (advance 1 r0) f _ s1
        (omega (arith, two_flags-lt p.receive_media p.listen_saver)) in
    let (e3, s3) =
      u32be-Sees "pref.erase_hours" (advance 4 (advance 1 r0)) p.inactivity_erase_hours _ s2
        (omega arith) in
    let e4 = expect_end-Sees "pref" (advance 4 (advance 4 (advance 1 r0))) s3 in
    let small : ltb max_erase_hours p.inactivity_erase_hours ≡ false =
      le→ltb max_erase_hours p.inactivity_erase_hours h in
    let enc : encode_pref p ≡ ok bytes = rw small (simp (append_assoc, append-nil)) in
    ap (λ m. m >>= decode_pref) enc
    ∙ rw
        (
          e1,
          e2,
          e3,
          e4,
          small,
          two_flags-first p.receive_media p.listen_saver,
          two_flags-second p.receive_media p.listen_saver,
        )
        refl

-- A resync request whose fields fit their Rust types and whose bitmap is at most 512 bytes is
-- encoded, and read back as it was.
pub resync-round_trip :
    (p : ResyncReq)
    → p.max_contiguous_seq < 2 ^ 64
    → p.caps < 2 ^ 32
    → length p.history_hash ≡ hash_bytes
    → length p.received_seq_bitmap ≤ max_bitmap_bytes
    → (encode_resync p >>= decode_resync) ≡ ok p
unfolding encode_resync decode_resync put_u64be put_u32be put_lp raw finish new_writer
resync-round_trip p hm hc hh hb =
    let bytes =
      to_be_bytes 8 p.max_contiguous_seq
      ++ (to_be_bytes 4 (length p.received_seq_bitmap)
          ++ (p.received_seq_bitmap ++ (to_be_bytes 4 p.caps ++ (p.history_hash ++ [])))) in
    let r0 = new_reader bytes in
    let (e1, s1) = u64be-Sees "resync.max_seq" r0 p.max_contiguous_seq _ (Sees-new bytes) hm in
    let n = length p.received_seq_bitmap in
    let (e2, s2) =
      lp-Sees max_bitmap_bytes "resync.bitmap" (advance 8 r0) p.received_seq_bitmap _ s1 hb
        (omega arith) in
    let r2 = advance n (advance 4 (advance 8 r0)) in
    let (e3, s3) = u32be-Sees "resync.caps" r2 p.caps _ s2 hc in
    let (e4, s4) =
      take_bytes-append hash_bytes "resync.history_hash" (advance 4 r2) p.history_hash [] s3 hh in
    let e5 = expect_end-Sees "resync" (advance hash_bytes (advance 4 r2)) s4 in
    let small : ltb max_bitmap_bytes n ≡ false = le→ltb max_bitmap_bytes n hb in
    let wide : n % 2 ^ 32 ≡ n = omega arith in
    let enc : encode_resync p ≡ ok bytes = rw (small, wide) (simp (append_assoc, append-nil)) in
    ap (λ m. m >>= decode_resync) enc ∙ rw (e1, e2, e3, e4, e5) refl
