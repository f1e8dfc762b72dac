-- ===== src/Wire/Framing.antt =====
-- The framing of a connection: crates/core/src/transport/framing.rs. A stream is the list of the bytes
-- that it still gives, and its end is the end of the list.
pub mod RoundTrip
use s_chat6_core.Common.{
  ℕ, ◌+◌, ◌%◌, ◌^◌, List, [], ◌∷◌, ◌++◌, length, take, drop, ltb, leb, ◌==◌, Bool, true, false,
  ◌||◌, ◌&&◌, not, if◌then◌else◌, Option, none, some, Result, ok, err, ◌>>=◌, ◌>>◌, guard,
}
use s_chat6_core.Common.Bytes.{to_be_bytes, from_be_bytes}
use s_chat6_core.Wire.Frame.{is_bucket, starts_with, version_v2}

abbrev pub flag_sized_quiet : ℕ
flag_sized_quiet = 5

abbrev pub flag_sized_alert : ℕ
flag_sized_alert = 6

abbrev pub intro_sized_quiet : ℕ
intro_sized_quiet = 252

abbrev pub intro_sized_alert : ℕ
intro_sized_alert = 253

abbrev max_intro_bytes : ℕ
max_intro_bytes = 8_192

-- The texts of `TransportError::MalformedFrame`, and the `UnexpectedEof` of `read_exact`.
pub data FrameError : Type 0 where
  not_a_bucket : ℕ → FrameError
  not_version_v2 : FrameError
  intro_out_of_range : ℕ → FrameError
  unknown_flag : ℕ → FrameError
  unexpected_eof : FrameError

pub record OpaqueFrame : Type 0 where
  pub intro : Option (List ℕ)
  pub frame : List ℕ
  pub alert : Bool

unfoldable pub intro_ok : ℕ → Bool
intro_ok n = not (n == 0 || ltb max_intro_bytes n)

-- The `match intro` of `pack`: the flag and what stands before the record.
unfoldable pub pack_head : Option (List ℕ) → Bool → ℕ → Result FrameError (List ℕ)
pack_head none alert frame_len =
    ok ((if alert then flag_sized_alert else flag_sized_quiet) ∷ to_be_bytes 2 (frame_len % 2 ^ 16))
pack_head (some intro) alert frame_len = do
  guard (intro_ok (length intro)) (intro_out_of_range (length intro))
  ok (
      (if alert then intro_sized_alert else intro_sized_quiet)
      ∷ (to_be_bytes 2 (length intro % 2 ^ 16) ++ (intro ++ to_be_bytes 2 (frame_len % 2 ^ 16))))

unfoldable pub pack : Option (List ℕ) → List ℕ → Bool → Result FrameError (List ℕ)
unfolding pack_head
pack intro frame alert = do
  guard (is_bucket (length frame)) (not_a_bucket (length frame))
  guard (starts_with version_v2 frame) not_version_v2
  out ← pack_head intro alert (length frame)
  ok (out ++ frame)

-- `read_exact` into a buffer of `n` bytes.
unfoldable pub read_exact : ℕ → List ℕ → Result FrameError (List ℕ × List ℕ)
read_exact n reader =
    if ltb (length reader) n then err unexpected_eof else ok (take n reader, drop n reader)

unfoldable pub read_u16 : List ℕ → Result FrameError (ℕ × List ℕ)
read_u16 reader = do (buf, rest) ← read_exact 2 reader; ok (from_be_bytes buf, rest)

-- The `match flag`: the alert, and whether an intro follows.
unfoldable pub read_flag : ℕ → Result FrameError (Bool × Bool)
read_flag flag =
    if flag == flag_sized_quiet
    then ok (false, false)
    else if flag == flag_sized_alert
    then ok (true, false)
    else if flag == intro_sized_quiet
    then ok (false, true)
    else if flag == intro_sized_alert
    then ok (true, true)
    else err (unknown_flag flag)

unfoldable pub read_intro : Bool → List ℕ → Result FrameError (Option (List ℕ) × List ℕ)
read_intro false reader = ok (none, reader)
read_intro true reader = do
  (intro_len, reader) ← read_u16 reader
  guard (intro_ok intro_len) (intro_out_of_range intro_len)
  (intro, reader) ← read_exact intro_len reader
  ok (some intro, reader)

unfoldable pub read_body :
    Bool → Option (List ℕ) → List ℕ → Result FrameError (OpaqueFrame × List ℕ)
read_body alert intro reader = do
  (frame_len, reader) ← read_u16 reader
  guard (is_bucket frame_len) (not_a_bucket frame_len)
  (frame, reader) ← read_exact frame_len reader
  guard (starts_with version_v2 frame) not_version_v2
  ok (record { intro = intro; frame = frame; alert = alert }, reader)

-- `none` is the clean end before the first byte of a next frame; the second part is the stream after
-- the read.
unfoldable pub read_frame : List ℕ → Result FrameError (Option OpaqueFrame × List ℕ)
unfolding read_flag read_intro read_body
read_frame [] = ok (none, [])
read_frame (flag ∷ reader) = do
  (alert, has_intro) ← read_flag flag
  (intro, reader) ← read_intro has_intro reader
  (f, reader) ← read_body alert intro reader
  ok (some f, reader)
