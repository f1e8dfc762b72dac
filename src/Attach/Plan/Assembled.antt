-- ===== src/Attach/Plan/Assembled.antt =====
-- The pieces of a plan, put together again.
use s_chat6_core.Common.{
  ℕ, zero, suc, ◌+◌, ◌-◌, ◌*◌, ◌%◌, ◌≤◌, ◌<◌, ◌≡◌, refl, ap, ◌∙◌, arith, List, [], ◌∷◌, ◌++◌, map,
  length, length-append, length-replicate, replicate, is_empty, ltb, leb, Bool, false, ◌||◌, Result,
  ok, All, if◌then◌else◌,
}
use s_chat6_core.Wire.Attach.Chunk.{chunk_data_max}
use s_chat6_core.Wire.Attach.Head.{max_attach, flag_view_once}
use s_chat6_core.Attach.Plan.{
  ChunkOut, content, pad, AttachPlan, PlanError, split, pieces, plan_chunks, chunk_count_of,
  bucket_of, inline_max, plan_transfer,
}
use s_chat6_core.Attach.Transfer.{concat}

-- A piece is not empty and fits a chunk.
abbrev pub IsPiece : List ℕ → Type 0
IsPiece p = (0 < length p) × (length p ≤ chunk_data_max)

-- What is known of the pieces of `bytes` behind a piece with some room left.
record IsSplit (room : ℕ) (bytes : List ℕ) (s : List ℕ × List (List ℕ)) : Type 0 where
  whole : s.0 ++ concat s.1 ≡ bytes
  bounded : length s.0 ≤ room
  each : All IsPiece s.1
  enough : length bytes ≤ room + length s.1 * 27_900
  needed : 0 < length s.1 → room + length s.1 * 27_900 < length bytes + 27_900

first_piece :
    (m n : ℕ) → (0 < m → 27_899 + m * 27_900 < n + 27_900) → 0 + suc m * 27_900 < suc n + 27_900
first_piece zero n h = omega arith
first_piece (suc m) n h = omega (arith, h (omega arith))

split-IsSplit : (room : ℕ) (bytes : List ℕ) → IsSplit room bytes (split room bytes)
unfolding split
split-IsSplit room [] = record {
  whole = refl;
  bounded = omega arith;
  each = tt;
  enough = omega arith;
  needed = λ h. omega (arith, h);
}
split-IsSplit zero (x ∷ xs) =
    let ih = split-IsSplit 27_899 xs in
    record {
      whole = ap (λ t. x ∷ t) ih.whole;
      bounded = omega arith;
      each = ((omega arith, omega (arith, ih.bounded)), ih.each);
      enough = omega (arith, ih.enough);
      needed = λ h. first_piece (length (split 27_899 xs).1) (length xs) ih.needed;
    }
split-IsSplit (suc room) (x ∷ xs) =
    let ih = split-IsSplit room xs in
    record {
      whole = ap (λ t. x ∷ t) ih.whole;
      bounded = omega (arith, ih.bounded);
      each = ih.each;
      enough = omega (arith, ih.enough);
      needed = λ h. omega (arith, ih.needed h);
    }

-- The contents of the chunks that are no filling.
abbrev pub contents : List ChunkOut → List (List ℕ)
contents [] = []
contents (content c ∷ cs) = c ∷ contents cs
contents (pad ∷ cs) = contents cs

contents-map : (ps : List (List ℕ)) (n : ℕ) → contents (map content ps ++ replicate n pad) ≡ ps
contents-map [] zero = refl
contents-map [] (suc n) = contents-map [] n
contents-map (p ∷ ps) n = ap (λ t. p ∷ t) (contents-map ps n)

length-map : (ps : List (List ℕ)) → length (map content ps) ≡ length ps
length-map [] = refl
length-map (p ∷ ps) = ap suc (length-map ps)

pieces_count :
    (n m : ℕ)
    → 0 < n
    → n ≤ max_attach
    → n ≤ 0 + m * 27_900
    → (0 < m → 0 + m * 27_900 < n + 27_900)
    → (m ≡ chunk_count_of n) × (1 ≤ m) × (m ≤ bucket_of m) × (bucket_of m ≤ 1_024)
pieces_count n zero h small enough needed = absurd (omega (arith, h, enough))
pieces_count n (suc m) h small enough needed =
    let room = needed (omega arith) in
    (
      omega (arith, enough, room, small),
      omega arith,
      omega (arith, enough, room, small),
      omega (arith, enough, room, small),
    )

concat-pieces : (bytes : List ℕ) → concat (pieces bytes) ≡ bytes
unfolding pieces
concat-pieces [] = refl
concat-pieces (x ∷ xs) = (split-IsSplit 0 (x ∷ xs)).whole

module _ (sha256 : List ℕ → List ℕ) (media_class : ℕ) (mime_hint orig_ext bytes caption : List ℕ)
    (view_once : Bool) where
  abbrev plan : Result PlanError AttachPlan
  plan = plan_transfer sha256 media_class mime_hint orig_ext bytes caption view_once

  abbrev pub made : AttachPlan
  made = record {
    head = record {
      class = media_class;
      mime_hint = mime_hint;
      orig_ext = orig_ext;
      uncompressed_n = length bytes;
      chunk_count = chunk_count_of (length bytes);
      chunk_bucket = bucket_of (chunk_count_of (length bytes));
      content_sha256 = sha256 bytes;
      caption = caption;
      flags = if view_once then flag_view_once else 0;
    };
    chunks = plan_chunks bytes;
  }

  pub made_lem : inline_max < length bytes → length bytes ≤ max_attach → plan ≡ ok made
  unfolding plan_transfer
  made_lem large small =
      let in_range : (is_empty bytes || ltb max_attach (length bytes)) ≡ false = ground arith in
      let big : leb (length bytes) inline_max ≡ false = ground arith in rw (in_range, big) refl

  filled :
      length (pieces bytes) ≡ chunk_count_of (length bytes)
      → length (pieces bytes) ≤ bucket_of (length (pieces bytes))
      → length (plan_chunks bytes) ≡ bucket_of (chunk_count_of (length bytes))
  unfolding plan_chunks
  filled count fits =
      let pads = bucket_of (chunk_count_of (length bytes)) - length (pieces bytes) in
      omega (
        arith,
        length-append {0} (map content (pieces bytes)) (replicate pads pad),
        length-map (pieces bytes),
        length-replicate {0} pads pad,
        fits,
        count,
      )

  -- An attachment of 27001 bytes to 25 MiB is planned, and its plan is right: the contents of the chunks make up
  -- the file, none of them is empty or longer than a chunk may be, the head announces as many as there are, the
  -- filling makes the chunks as many as the bucket says, which is a multiple of 8 and at most 1024, and the
  -- head announces the length and the hash of the file.
  pub plan_transfer-assembled :
      inline_max < length bytes
      → length bytes ≤ max_attach
      → (p : AttachPlan) × (plan ≡ ok p)
        × (concat (contents p.chunks) ≡ bytes)
        × All IsPiece (contents p.chunks)
        × (length (contents p.chunks) ≡ p.head.chunk_count)
        × (length p.chunks ≡ p.head.chunk_bucket)
        × (p.head.chunk_bucket % 8 ≡ 0)
        × (1 ≤ p.head.chunk_count)
        × (p.head.chunk_count ≤ p.head.chunk_bucket)
        × (p.head.chunk_bucket ≤ 1_024)
        × (p.head.uncompressed_n ≡ length bytes)
        × (p.head.content_sha256 ≡ sha256 bytes)
  unfolding pieces split plan_chunks
  plan_transfer-assembled large small =
      let n = length bytes in
      let s = split-IsSplit 0 bytes in
      let (count, one, fits, cap) =
        pieces_count n (length (pieces bytes)) (omega arith) small s.enough s.needed in
      let e = contents-map (pieces bytes) (bucket_of (chunk_count_of n) - length (pieces bytes)) in
      (
        made,
        made_lem large small,
        ap concat e ∙ concat-pieces bytes,
        rw e s.each,
        ap (λ (t : List (List ℕ)). length t) e ∙ count,
        filled count fits,
        omega arith,
        omega (arith, one, count),
        omega (arith, fits, count),
        omega (arith, cap, count),
        refl,
        refl,
      )
