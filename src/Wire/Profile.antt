-- ===== src/Wire/Profile.antt =====
-- crates/wire-types/src/profile.rs: the display name and the picture. The normal form of a string, of the
-- crate unicode-normalization, is a parameter.
use s_chat6_core.Common.{
  ℕ, ◌*◌, ◌≤◌, ◌≡◌, refl, arith, List, [], ◌∷◌, length, is_empty, ltb, ◌==◌, Bool, true, false,
  ◌&&◌, ◌||◌, not, ok, ok_or, ◌>>=◌, ◌>>◌, guard, append_assoc, Ensures, gives, Ensures-guard,
  Ensures-ok, Bool-cases, inl, inr, le→ltb, fails,
}
use s_chat6_core.Common.Utf8.{from_utf8, is_utf8, has_control}
use s_chat6_core.Wire.Error.{Wire, too_large, bad_field, bad_version, literal}
use s_chat6_core.Wire.Bin.{new_writer, put_u8, put_lp, raw, finish, new_reader, u8, lp, expect_end}
use s_chat6_core.Wire.Bin.Laws.{Sees-new}
use s_chat6_core.Wire.Bin.Steps.{then_u8, then_lp, last_lp, then_end, then_guard}
use s_chat6_core.Wire.Bin.Accepts.{Ensures-u8, Ensures-lp, Ensures-end}

abbrev pub version : ℕ
version = 1

abbrev max_name_bytes : ℕ
max_name_bytes = 32

abbrev max_jpeg : ℕ
max_jpeg = 24 * 1_024

-- Equality of two strings.
abbrev same_text : List ℕ → List ℕ → Bool
same_text [] [] = true
same_text [] (y ∷ ys) = false
same_text (x ∷ xs) [] = false
same_text (x ∷ xs) (y ∷ ys) = x == y && same_text xs ys

-- Empty, or of the magic number of a JPEG.
unfoldable pub jpeg_ok : List ℕ → Bool
jpeg_ok [] = true
jpeg_ok (a ∷ b ∷ c ∷ bs) = a == 0xff && b == 0xd8
jpeg_ok bs = false

pub record Profile : Type 0 where
  pub name : List ℕ
  pub jpeg : List ℕ

module _ (nfc : List ℕ → List ℕ) where
  unfoldable pub name_ok : List ℕ → Bool
  name_ok name =
      same_text (nfc name) name
      && not (is_empty name || ltb max_name_bytes (length name))
      && not (has_control name)

  unfoldable pub encode_profile : Profile → Wire (List ℕ)
  encode_profile p = do
    guard (name_ok p.name)
        (bad_field "profile.name" (literal "name fails nfc/length/control rules"))
    guard (not (ltb max_jpeg (length p.jpeg))) (too_large "profile.jpeg" (length p.jpeg) max_jpeg)
    guard (jpeg_ok p.jpeg) (bad_field "profile.jpeg" (literal "bad jpeg magic"))
    ok (finish (put_lp p.jpeg (put_lp p.name (put_u8 version new_writer))))

  unfoldable pub decode_profile : List ℕ → Wire Profile
  unfolding from_utf8
  decode_profile bytes = do
    (v, r) ← u8 "profile.version" (new_reader bytes)
    guard (v == version) (bad_version "profile" v)
    (name_bytes, r) ← lp max_name_bytes "profile.name" r
    name ← ok_or (from_utf8 name_bytes) (bad_field "profile.name" (literal "invalid utf-8"))
    guard (name_ok name) (bad_field "profile.name" (literal "name fails nfc/length/control rules"))
    (jpeg, r) ← lp max_jpeg "profile.jpeg" r
    expect_end "profile" r
    guard (jpeg_ok jpeg) (bad_field "profile.jpeg" (literal "bad jpeg magic"))
    ok (record { name = name; jpeg = jpeg })

  name_fits : (name : List ℕ) → name_ok name ≡ true → length name ≤ max_name_bytes
  unfolding name_ok
  name_fits name h = ground (arith, h)

  encode_profile-Ensures :
      (p : Profile)
      → is_utf8 p.name ≡ true
      → Ensures (λ bytes. decode_profile bytes ≡ ok p) (encode_profile p)
  unfolding encode_profile decode_profile put_u8 put_lp raw finish new_writer
  encode_profile-Ensures p valid = Ensures-guard (name_ok p.name) _ _ λ named.
      Ensures-guard (not (ltb max_jpeg (length p.jpeg))) _ _ λ small.
        Ensures-guard (jpeg_ok p.jpeg) _ _ λ magic.
          let n = name_fits p.name named in
          let m : length p.jpeg ≤ max_jpeg = ground (arith, small) in
          gives _ (
            simp append_assoc (
              then_u8 _ _ _ version _ (Sees-new _) λ s.
                then_lp _ _ _ p.name _ max_name_bytes n (omega (arith, n)) s λ s.
                  rw (valid, named)
                    (last_lp _ _ _ p.jpeg max_jpeg m (omega (arith, m)) s
                      λ s. then_end _ _ _ s (then_guard (jpeg_ok p.jpeg) _ _ magic refl))))

  -- A profile that is encoded, its name valid UTF-8, is read back as it was.
  pub profile-round_trip :
      (p : Profile) (bytes : List ℕ)
      → is_utf8 p.name ≡ true
      → encode_profile p ≡ ok bytes
      → decode_profile bytes ≡ ok p
  profile-round_trip p bytes valid e = Ensures-ok (encode_profile-Ensures p valid) bytes e

  abbrev pub IsShown : Profile → Type 0
  IsShown p =
      (name_ok p.name ≡ true)
      × (is_utf8 p.name ≡ true)
      × (length p.jpeg ≤ max_jpeg)
      × (jpeg_ok p.jpeg ≡ true)

  decode_profile-Ensures : (bytes : List ℕ) → Ensures IsShown (decode_profile bytes)
  unfolding decode_profile
  decode_profile-Ensures bytes = Ensures-u8 _ _ _ λ v r. Ensures-guard (v == version) _ _ λ known.
      Ensures-lp _ _ _ _ λ name r fits. elim (Bool-cases (is_utf8 name)) [
        | inl valid ↦ rw valid (
            Ensures-guard (name_ok name) _ _ λ named. Ensures-lp _ _ _ _ λ jpeg r small.
              Ensures-end _ _ _
                (Ensures-guard (jpeg_ok jpeg) _ _ λ magic. gives _ (named, valid, small, magic)))
        | inr garbled ↦ rw garbled (fails _)
      ]

  shown-encode : (p : Profile) → IsShown p → (out : List ℕ) × (encode_profile p ≡ ok out)
  unfolding encode_profile
  shown-encode p (named, valid, small, magic) = (
    finish (put_lp p.jpeg (put_lp p.name (put_u8 version new_writer))),
    rw (named, le→ltb max_jpeg (length p.jpeg) small, magic) refl,
  )

  -- Whatever bytes the decoder accepts, the name is valid UTF-8 in normal form, of 1 to 32 bytes and without
  -- a control character, the picture is within its limit, and the profile is encoded again without an error to
  -- bytes that are read back as it.
  pub decode_profile-IsShown :
      (bytes : List ℕ) (p : Profile)
      → decode_profile bytes ≡ ok p
      → IsShown p × ((out : List ℕ) × (encode_profile p ≡ ok out) × (decode_profile out ≡ ok p))
  decode_profile-IsShown bytes p e =
      let shown = Ensures-ok (decode_profile-Ensures bytes) p e in
      let (out, again) = shown-encode p shown in
      (shown, (out, again, profile-round_trip p out shown.1 again))
