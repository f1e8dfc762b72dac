-- ===== src/Wire/Frame.antt =====
-- The outer record: crates/core/src/wire/frame.rs. The random padding is an argument: what the
-- generator fills a slice of a length with.
pub mod RoundTrip
use s_chat6_core.Common.{
  ℕ, ◌+◌, ◌-◌, ◌%◌, ◌^◌, List, [], ◌∷◌, ◌++◌, length, take, drop, ltb, leb, ◌==◌, Bool, true, false,
  ◌||◌, not, if◌then◌else◌, Option, none, some, Result, ok, err, ◌>>=◌, ok_or, String,
}
use s_chat6_core.Common.Bytes.{to_be_bytes, from_be_bytes}
use s_chat6_core.Wire.Error.{WireError, Wire, too_large, bad_version, bad_length}

abbrev pub version_v2 : ℕ
version_v2 = 2

abbrev pub record_buckets : List ℕ
record_buckets = 256 ∷ 512 ∷ 1_024 ∷ 4_096 ∷ 16_384 ∷ 32_768 ∷ []

abbrev pub max_record_bytes : ℕ
max_record_bytes = 32_768

abbrev pub record_header_bytes : ℕ
record_header_bytes = 3

unfoldable pub contains : List ℕ → ℕ → Bool
contains [] n = false
contains (b ∷ bs) n = b == n || contains bs n

unfoldable pub is_bucket : ℕ → Bool
unfolding contains
is_bucket len = contains record_buckets len

-- `into_iter().find(|b| inner <= *b)`.
unfoldable pub find_fit : ℕ → List ℕ → Option ℕ
find_fit inner [] = none
find_fit inner (b ∷ bs) = if leb inner b then some b else find_fit inner bs

unfoldable pub bucket_for : ℕ → Option ℕ
unfolding find_fit
bucket_for payload_len = find_fit (record_header_bytes + payload_len) record_buckets

unfoldable pub build_record : (ℕ → List ℕ) → List ℕ → Wire (List ℕ)
unfolding bucket_for
build_record fill_bytes payload = do
  bucket ←
      ok_or (bucket_for (length payload))
        (too_large "record" (length payload) (max_record_bytes - record_header_bytes))
  ok (
      version_v2
      ∷ (to_be_bytes 2 (length payload % 2 ^ 16)
          ++ (payload ++ fill_bytes (bucket - (record_header_bytes + length payload)))))

-- `first().copied()`.
unfoldable pub first : List ℕ → Option ℕ
first [] = none
first (b ∷ bs) = some b

-- The test `first().copied() != Some(v)`.
unfoldable pub starts_with : ℕ → List ℕ → Bool
starts_with v [] = false
starts_with v (b ∷ bs) = b == v

-- `unwrap_or(0)`.
abbrev or_zero : Option ℕ → ℕ
or_zero none = 0
or_zero (some b) = b

unfoldable pub parse_record : List ℕ → Wire (List ℕ)
unfolding first starts_with
parse_record record_bytes =
    if not (starts_with version_v2 record_bytes)
    then err (bad_version "record" (or_zero (first record_bytes)))
    else if not (is_bucket (length record_bytes))
    then err (bad_length "record" (length record_bytes) max_record_bytes)
    else let len = from_be_bytes (take 2 (drop 1 record_bytes)) in
      if ltb (length record_bytes) (record_header_bytes + len)
      then err (bad_length "record.payload" len (length record_bytes - record_header_bytes))
      else ok (take len (drop 3 record_bytes))
