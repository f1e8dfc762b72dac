-- ===== src/Wire/Framing/RoundTrip.antt =====
-- `read_frame` behind `pack`.
use s_chat6_core.Common.{
  append_assoc, ℕ, ◌%◌, ◌^◌, ◌<◌, ◌≡◌, refl, sym, ap, ◌∙◌, arith, List, ◌∷◌, ◌++◌, length, ltb,
  Bool, true, false, if◌then◌else◌, Option, none, some, ok, length-append, take-append, drop-append,
}
use s_chat6_core.Common.Bytes.{to_be_bytes, from_be-to_be, length-to_be_bytes}
use s_chat6_core.Wire.Frame.{is_bucket, starts_with, version_v2}
use s_chat6_core.Wire.Frame.RoundTrip.{is_bucket-lt}
use s_chat6_core.Wire.Framing.{
  intro_ok, pack_head, pack, read_exact, read_u16, read_flag, read_intro, read_body, read_frame,
  flag_sized_alert, flag_sized_quiet, intro_sized_alert, intro_sized_quiet,
}

read_exact-append : (n : ℕ) (xs ys : List ℕ) → length xs ≡ n → read_exact n (xs ++ ys) ≡ ok (xs, ys)
unfolding read_exact
read_exact-append n xs ys h =
    let room : ltb (length (xs ++ ys)) n ≡ false = ground (arith, length-append {0} xs ys) in
    rw (room, take-append n xs ys h, drop-append n xs ys h) refl

read_u16-append : (n : ℕ) (ys : List ℕ) → n < 2 ^ 16 → read_u16 (to_be_bytes 2 n ++ ys) ≡ ok (n, ys)
unfolding read_u16
read_u16-append n ys h =
    rw
      (
        read_exact-append 2 (to_be_bytes 2 n) ys (length-to_be_bytes 2 n),
        from_be-to_be 2 n (omega arith),
      )
      refl

read_body-append :
    (alert : Bool) (intro : Option (List ℕ)) (frame ys : List ℕ) (len : ℕ)
    → len ≡ length frame
    → is_bucket (length frame) ≡ true
    → starts_with version_v2 frame ≡ true
    → read_body alert intro (to_be_bytes 2 len ++ (frame ++ ys))
      ≡ ok (record { intro = intro; frame = frame; alert = alert }, ys)
unfolding read_body
read_body-append alert intro frame ys len e b v =
    let small = is_bucket-lt (length frame) b in
    let b' : is_bucket len ≡ true = rw e b in
    rw
      (
        read_u16-append len (frame ++ ys) (omega (arith, small)),
        b',
        read_exact-append len frame ys (sym e),
        v,
      )
      refl

read_intro-append :
    (intro ys : List ℕ) (len : ℕ)
    → len ≡ length intro
    → intro_ok (length intro) ≡ true
    → read_intro true (to_be_bytes 2 len ++ (intro ++ ys)) ≡ ok (some intro, ys)
unfolding read_intro
read_intro-append intro ys len e b =
    let small : len < 2 ^ 16 = unfold intro_ok in ground arith in
    let b' : intro_ok len ≡ true = rw e b in
    rw (read_u16-append len (intro ++ ys) small, b', read_exact-append len intro ys (sym e)) refl

-- What `pack` accepts: a record of the second version in a bucket, an intro of 1 to 8192 bytes.
abbrev IsIntro : Option (List ℕ) → Type 0
IsIntro none = Unit {0}
IsIntro (some intro) = intro_ok (length intro) ≡ true

read_frame-none :
    (frame ys : List ℕ) (alert : Bool) (len : ℕ)
    → len ≡ length frame
    → is_bucket (length frame) ≡ true
    → starts_with version_v2 frame ≡ true
    → read_frame (
        (if alert then flag_sized_alert else flag_sized_quiet)
        ∷ (to_be_bytes 2 len ++ (frame ++ ys)))
      ≡ ok (some (record { intro = none; frame = frame; alert = alert }), ys)
unfolding read_frame read_flag read_intro
read_frame-none frame ys true len e b v = rw (read_body-append true none frame ys len e b v) refl
read_frame-none frame ys false len e b v = rw (read_body-append false none frame ys len e b v) refl

read_frame-some :
    (intro frame ys : List ℕ) (alert : Bool) (ilen len : ℕ)
    → ilen ≡ length intro
    → intro_ok (length intro) ≡ true
    → len ≡ length frame
    → is_bucket (length frame) ≡ true
    → starts_with version_v2 frame ≡ true
    → read_frame (
        (if alert then intro_sized_alert else intro_sized_quiet)
        ∷ (to_be_bytes 2 ilen ++ (intro ++ (to_be_bytes 2 len ++ (frame ++ ys)))))
      ≡ ok (some (record { intro = some intro; frame = frame; alert = alert }), ys)
unfolding read_frame read_flag
read_frame-some intro frame ys true ilen len ie ib e b v =
    rw
      (
        read_intro-append intro (to_be_bytes 2 len ++ (frame ++ ys)) ilen ie ib,
        read_body-append true (some intro) frame ys len e b v,
      )
      refl
read_frame-some intro frame ys false ilen len ie ib e b v =
    rw
      (
        read_intro-append intro (to_be_bytes 2 len ++ (frame ++ ys)) ilen ie ib,
        read_body-append false (some intro) frame ys len e b v,
      )
      refl

flatten : (a b c d e : List ℕ) → ((a ++ (b ++ c)) ++ d) ++ e ≡ a ++ (b ++ (c ++ (d ++ e)))
flatten a b c d e =
    append_assoc (a ++ (b ++ c)) d e
    ∙ append_assoc a (b ++ c) (d ++ e)
    ∙ ap (λ t. a ++ t) (append_assoc b c (d ++ e))

-- A record of the second version in a bucket, with no intro or one of 1 to 8192 bytes, is packed;
-- and whatever follows on the stream, the packed bytes are read back as the same frame, and the
-- bytes that follow are left.
pub read_frame-pack :
    (intro : Option (List ℕ)) (frame rest : List ℕ) (alert : Bool)
    → IsIntro intro
    → is_bucket (length frame) ≡ true
    → starts_with version_v2 frame ≡ true
    → (out : List ℕ) × (pack intro frame alert ≡ ok out)
      × (read_frame (out ++ rest)
          ≡ ok (some (record { intro = intro; frame = frame; alert = alert }), rest))
unfolding pack pack_head
read_frame-pack none frame rest alert i b v =
    let small = is_bucket-lt (length frame) b in
    let len : length frame % 2 ^ 16 ≡ length frame = omega (arith, small) in
    let num = to_be_bytes 2 (length frame % 2 ^ 16) in
    (
      (if alert then flag_sized_alert else flag_sized_quiet) ∷ (num ++ frame),
      rw (b, v) refl,
      rw (append_assoc num frame rest)
          (read_frame-none frame rest alert (length frame % 2 ^ 16) len b v),
    )
read_frame-pack (some intro) frame rest alert i b v =
    let small = is_bucket-lt (length frame) b in
    let len : length frame % 2 ^ 16 ≡ length frame = omega (arith, small) in
    let ilen : length intro % 2 ^ 16 ≡ length intro = unfold intro_ok in ground arith in
    let num = to_be_bytes 2 (length frame % 2 ^ 16) in
    let inum = to_be_bytes 2 (length intro % 2 ^ 16) in
    (
      (if alert then intro_sized_alert else intro_sized_quiet)
          ∷ ((inum ++ (intro ++ num)) ++ frame),
      rw (b, v, i) refl,
      rw (flatten inum intro num frame rest) (
          read_frame-some intro frame rest alert (length intro % 2 ^ 16) (length frame % 2 ^ 16)
            ilen i len b v),
    )
