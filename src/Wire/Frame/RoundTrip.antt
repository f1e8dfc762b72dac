-- ===== src/Wire/Frame/RoundTrip.antt =====
-- Records parsed after they were built, and their buckets.
use s_chat6_core.Common.{
  ℕ, ◌+◌, ◌-◌, ◌%◌, ◌^◌, ◌≤◌, ◌<◌, ◌≡◌, refl, sym, arith, List, [], ◌∷◌, ◌++◌, length, take, drop,
  leb, true, Bool-cases, inl, inr, none, some, ok, length-append, take-append, drop-append,
}
use s_chat6_core.Common.Bytes.{to_be_bytes, from_be_bytes, from_be-to_be, length-to_be_bytes}
use s_chat6_core.Wire.Frame.{
  find_fit, is_bucket, contains, bucket_for, build_record, parse_record, starts_with,
  max_record_bytes, record_header_bytes, record_buckets,
}

abbrev AscendingFrom : ℕ → List ℕ → Type 0
AscendingFrom low [] = Unit {0}
AscendingFrom low (b ∷ bs) = (low ≤ b) × AscendingFrom b bs

contains-above : (low c : ℕ) (bs : List ℕ) → AscendingFrom low bs → contains bs c ≡ true → low ≤ c
unfolding contains
contains-above low c [] a h = cc
contains-above low c (b ∷ bs) a h = ground (arith, contains-above b c bs a.1)

find_fit-least :
    (inner c low : ℕ) (bs : List ℕ)
    → AscendingFrom low bs
    → contains bs c ≡ true
    → inner ≤ c
    → (b : ℕ) × (find_fit inner bs ≡ some b) × (contains bs b ≡ true) × (inner ≤ b) × (b ≤ c)
unfolding find_fit contains
find_fit-least inner c low [] a h k = cc
find_fit-least inner c low (x ∷ xs) a h k = elim (Bool-cases (leb inner x)) [
  | inl fits ↦ (
    x,
    rw fits refl,
    ground arith,
    ground arith,
    contains-above x c (x ∷ xs) (omega arith, a.1) h,
  )
  | inr not_yet ↦
      let (b, found, is, fits, least) = find_fit-least inner c x xs a.1 (ground arith) k in
      (b, rw not_yet found, ground arith, fits, least)
]

-- When some bucket holds the header and the payload, one is chosen: it is a bucket, it holds them,
-- and it is not larger than that one.
bucket_for-least :
    (n c : ℕ)
    → is_bucket c ≡ true
    → n + 3 ≤ c
    → (b : ℕ) × (bucket_for n ≡ some b) × (is_bucket b ≡ true) × (n + 3 ≤ b) × (b ≤ c)
unfolding bucket_for is_bucket
bucket_for-least n c h k =
    let (b, found, is, fits, least) =
      find_fit-least (3 + n) c 0 record_buckets (omega arith) h (omega arith) in
    (b, found, is, omega (arith, fits), least)

bucket_for-none : (n : ℕ) → 32_765 < n → bucket_for n ≡ none
unfolding bucket_for find_fit
bucket_for-none n h = ground arith

pub is_bucket-lt : (n : ℕ) → is_bucket n ≡ true → (256 ≤ n) × (n ≤ 32_768)
unfolding is_bucket contains
is_bucket-lt n h = ground arith

parse-layout :
    (payload padding : List ℕ) (len : ℕ)
    → len ≡ length payload
    → is_bucket (3 + (length payload + length padding)) ≡ true
    → parse_record (2 ∷ (to_be_bytes 2 len ++ (payload ++ padding))) ≡ ok payload
unfolding parse_record starts_with
parse-layout payload padding len e b =
    let small = is_bucket-lt (3 + (length payload + length padding)) b in
    let total : length (to_be_bytes 2 len ++ (payload ++ padding))
        ≡ 2 + (length payload + length padding) =
      omega (
        arith,
        length-append {0} (to_be_bytes 2 len) (payload ++ padding),
        length-append {0} payload padding,
        length-to_be_bytes 2 len,
      ) in
    let front : take 2 (to_be_bytes 2 len ++ (payload ++ padding)) ≡ to_be_bytes 2 len =
      take-append 2 (to_be_bytes 2 len) (payload ++ padding) (length-to_be_bytes 2 len) in
    let back : drop 2 (to_be_bytes 2 len ++ (payload ++ padding)) ≡ payload ++ padding =
      drop-append 2 (to_be_bytes 2 len) (payload ++ padding) (length-to_be_bytes 2 len) in
    let number : from_be_bytes (to_be_bytes 2 len) ≡ len = from_be-to_be 2 len (omega arith) in
    let body : take len (payload ++ padding) ≡ payload = take-append len payload padding (sym e) in
    ground (arith, total, b, front, back, number, body)

-- A payload of at most 32765 bytes is built into a record of the length of a bucket, whatever bytes
-- the generator fills the padding with, and parsing the record gives the payload back.
pub parse-build :
    (fill_bytes : ℕ → List ℕ) (payload : List ℕ)
    → ((n : ℕ) → length (fill_bytes n) ≡ n)
    → length payload ≤ max_record_bytes - record_header_bytes
    → (out : List ℕ) × (build_record fill_bytes payload ≡ ok out)
      × (is_bucket (length out) ≡ true)
      × (parse_record out ≡ ok payload)
unfolding build_record is_bucket
parse-build fill_bytes payload fills h =
    let (b, found, is, fits, least) = bucket_for-least (length payload) 32_768 refl (omega arith) in
    let padding = fill_bytes (b - (record_header_bytes + length payload)) in
    let len : length payload % 2 ^ 16 ≡ length payload = omega arith in
    let pad : length padding ≡ b - (3 + length payload) = fills (b - (3 + length payload)) in
    let total : length (2 ∷ (to_be_bytes 2 (length payload) ++ (payload ++ padding))) ≡ b = omega (
      arith,
      length-append {0} (to_be_bytes 2 (length payload)) (payload ++ padding),
      length-append {0} payload padding,
      length-to_be_bytes 2 (length payload),
    ) in
    let whole : 3 + (length payload + length padding) ≡ b = omega arith in
    (
      2 ∷ (to_be_bytes 2 (length payload) ++ (payload ++ padding)),
      rw (found, len) refl,
      rw total is,
      parse-layout payload padding (length payload) refl (rw whole is),
    )
