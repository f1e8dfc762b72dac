-- ===== src/Wire/Attach/Tail.antt =====
-- The caption tail of an attachment's head, read back by the decoder of the chunked version.
use s_chat6_core.Common.{
  ℕ, zero, suc, ◌+◌, ◌%◌, ◌^◌, ◌≤◌, ◌<◌, ◌≡◌, refl, ap, arith, List, [], ◌∷◌, ◌++◌, length,
  length-append, is_empty, ◌==◌, true, false, ◌&&◌, if◌then◌else◌, Bool-cases, inl, inr, ok,
  append_assoc, append-nil, le→ltb,
}
use s_chat6_core.Common.Bytes.{to_be_bytes, length-to_be_bytes}
use s_chat6_core.Common.Utf8.{is_utf8}
use s_chat6_core.Wire.Bin.{Writer, Reader, put_u8, put_lp, raw}
use s_chat6_core.Wire.Bin.Laws.{
  Sees, advance, remaining_lem, u8-Sees, u32be-Sees, take_bytes-append,
}
use s_chat6_core.Wire.Attach.Head.{put_tail, max_caption}
use s_chat6_core.Wire.Attach.Decode.{caption_utf8, read_caption, decode_caption_tail}

-- A string behind its length.
abbrev pub lp_bytes : List ℕ → List ℕ
lp_bytes c = to_be_bytes 4 (length c) ++ c

abbrev flags_bytes : ℕ → List ℕ
flags_bytes f = if f == 0 then [] else f ∷ []

abbrev pub tail : List ℕ → ℕ → List ℕ
tail c f = if is_empty c && f == 0 then [] else lp_bytes c ++ flags_bytes f

pub put_tail-buf :
    (c : List ℕ) (f : ℕ) (w : Writer)
    → length c ≤ max_caption
    → (put_tail c f w).buf ≡ w.buf ++ tail c f
unfolding put_tail put_u8 put_lp raw
put_tail-buf c f w h =
    let fits : length c % 2 ^ 32 ≡ length c = omega (arith, h) in
    elim (Bool-cases (is_empty c && f == 0)) [
      | inl absent ↦ rw (absent, append-nil) refl
      | inr there ↦ elim (Bool-cases (f == 0)) [
        | inl plain ↦ rw (there, plain, fits, append_assoc, append-nil) refl
        | inr flagged ↦ rw (there, flagged, fits) (simp append_assoc)
      ]
    ]

pub caption_utf8_lem : (c : List ℕ) → is_utf8 c ≡ true → caption_utf8 c ≡ ok c
unfolding caption_utf8
caption_utf8_lem c valid = rw valid refl

pub read_caption-Sees :
    (c ys : List ℕ) (r : Reader)
    → length c ≤ max_caption
    → Sees r (lp_bytes c ++ ys)
    → (read_caption r ≡ ok (c, advance (length c) (advance 4 r)))
      × Sees (advance (length c) (advance 4 r)) ys
unfolding read_caption
read_caption-Sees c ys r h s =
    let (e1, s1) =
      u32be-Sees "attach_head.caption" r (length c) (c ++ ys) (rw append_assoc at s)
        (omega (arith, h)) in
    let (e2, s2) = take_bytes-append (length c) "attach_head.caption" (advance 4 r) c ys s1 refl in
    (rw (e1, le→ltb max_caption (length c) h, e2) refl, s2)

nonzero : (n : ℕ) → 0 < n → (n == 0) ≡ false
nonzero n h = ground arith

not_end : (p t : ℕ) → p < t → (p == t) ≡ false
not_end p t h = ground arith

pub length-lp : (c ys : List ℕ) → length (lp_bytes c ++ ys) ≡ 4 + length c + length ys
length-lp c ys = omega (
  arith,
  length-append {0} (lp_bytes c) ys,
  length-append {0} (to_be_bytes 4 (length c)) c,
  length-to_be_bytes 4 (length c),
)

maybe_caption :
    (c : List ℕ) → is_utf8 c ≡ true → (if length c == 0 then ok [] else caption_utf8 c) ≡ ok c
maybe_caption [] valid = refl
maybe_caption (x ∷ c) valid =
    rw (nonzero (suc (length c)) (omega arith)) (caption_utf8_lem (x ∷ c) valid)

module _ (c : List ℕ) (r : Reader) (total : ℕ) (valid : is_utf8 c ≡ true)
    (h : length c ≤ max_caption) where
  -- The caption takes up the rest.
  caption_only :
      0 < length c
      → total ≡ r.pos + (4 + length c)
      → Sees r (lp_bytes c ++ [])
      → decode_caption_tail r total ≡ ok (c, 0)
  unfolding decode_caption_tail
  caption_only filled e s =
      let (e1, s1) = read_caption-Sees c [] r h s in
      let here : (r.pos + 4 + length c == total) ≡ true = ground (arith, e) in
      rw (
        remaining_lem r _ s,
        length-lp c [],
        nonzero (4 + length c + 0) (omega arith),
        e1,
        here,
        le→ltb (length c) 1 filled,
        caption_utf8_lem c valid,
      )

  -- A flags byte is behind it.
  caption_flags :
      (f : ℕ)
      → total ≡ r.pos + (4 + length c + 1)
      → Sees r (lp_bytes c ++ (f ∷ []))
      → decode_caption_tail r total ≡ ok (c, f)
  unfolding decode_caption_tail
  caption_flags f e s =
      let (e1, s1) = read_caption-Sees c (f ∷ []) r h s in
      let (e2, s2) = u8-Sees "attach_head.flags" _ f [] s1 in
      let more : (r.pos + 4 + length c == total) ≡ false = not_end _ _ (omega (arith, e)) in
      let last : (r.pos + 4 + length c + 1 == total) ≡ true = ground (arith, e) in
      rw (
        remaining_lem r _ s,
        length-lp c (f ∷ []),
        nonzero (4 + length c + 1) (omega arith),
        e1,
        more,
        last,
        maybe_caption c valid,
        e2,
      )

pub tail-suc : (c : List ℕ) (f : ℕ) → tail c (suc f) ≡ lp_bytes c ++ (suc f ∷ [])
tail-suc c f = ground arith

no_tail : (r : Reader) (total : ℕ) → Sees r [] → decode_caption_tail r total ≡ ok ([], 0)
unfolding decode_caption_tail
no_tail r total s = rw (remaining_lem r [] s) refl

-- The tail is read back where the payload ends behind it.
pub decode_tail-Sees :
    (c : List ℕ) (f : ℕ) (r : Reader) (total : ℕ)
    → is_utf8 c ≡ true
    → length c ≤ max_caption
    → total ≡ r.pos + length (tail c f)
    → Sees r (tail c f)
    → decode_caption_tail r total ≡ ok (c, f)
decode_tail-Sees [] zero r total valid h e s = no_tail r total s
decode_tail-Sees (x ∷ c) zero r total valid h e s =
    caption_only (x ∷ c) r total valid h (omega arith) (omega (arith, e, length-lp (x ∷ c) [])) s
decode_tail-Sees c (suc f) r total valid h e s =
    caption_flags c r total valid h (suc f)
      (omega (arith, e, ap (λ (t : List ℕ). length t) (tail-suc c f), length-lp c (suc f ∷ [])))
      (rw (tail-suc c f) at s)
