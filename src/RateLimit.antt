-- ===== src/RateLimit.antt =====
-- crates/core/src/ratelimit.rs with the `rate` constants of crates/core/src/limits.rs: token buckets
-- per surface and relationship, and the counters of dropped work.
pub mod Bounds
pub mod Tables
mod Tests
use text.Mathlib.Text.{◌==◌ as str_eq}
use s_chat6_core.Common.{
  ℕ, ◌+◌, ◌-◌, ◌*◌, ◌%◌, ◌^◌, min, String, List, [], ◌∷◌, ltb, Bool, true, false, ◌&&◌,
  if◌then◌else◌, Option, none, some,
}

pub data Surface : Type 0 where
  inbound_frame resync_req ephemeral intro control_cmd sticker_fetch sticker_serve : Surface

-- Burst capacity and refill per second. `none` is the `unreachable!` of the source.
unfoldable pub bucket_params : Surface → Option (ℕ × ℕ)
bucket_params inbound_frame = some (4096, 256)
bucket_params resync_req = some (8, 1)
bucket_params ephemeral = some (16, 4)
bucket_params control_cmd = some (64, 8)
bucket_params sticker_fetch = some (32, 8)
bucket_params sticker_serve = some (128, 16)
bucket_params intro = none

pub record TokenBucket : Type 0 where
  pub capacity : ℕ  -- u32
  pub tokens : ℕ  -- u32
  pub refill_per_sec : ℕ  -- u32
  pub last_refill : ℕ  -- u64

unfoldable pub new : ℕ → ℕ → ℕ → TokenBucket
new capacity refill_per_sec now = record {
  capacity = capacity;
  tokens = capacity;
  refill_per_sec = refill_per_sec;
  last_refill = now;
}

abbrev pub sat_mul64 : ℕ → ℕ → ℕ
sat_mul64 a b = min (a * b) (2 ^ 64 - 1)

abbrev pub sat_add32 : ℕ → ℕ → ℕ
sat_add32 a b = min (a + b) (2 ^ 32 - 1)

-- The first half of `check`; `saturating_sub` is the subtraction that stops at 0.
unfoldable pub refilled : TokenBucket → ℕ → TokenBucket
refilled b now =
    let elapsed = now - b.last_refill in
    let add = sat_mul64 elapsed b.refill_per_sec in
    if ltb 0 elapsed
    then record b {
      tokens = min (sat_add32 b.tokens (min add b.capacity % 2 ^ 32)) b.capacity;
      last_refill = now;
    }
    else b

unfoldable pub check : TokenBucket → ℕ → TokenBucket × Bool
unfolding refilled
check b now =
    let r = refilled b now in
    if ltb 0 r.tokens then (record r { tokens = r.tokens - 1 }, true) else (r, false)

-- The derived `PartialEq`.
unfoldable pub surface_eq : Surface → Surface → Bool
surface_eq inbound_frame inbound_frame = true
surface_eq resync_req resync_req = true
surface_eq ephemeral ephemeral = true
surface_eq intro intro = true
surface_eq control_cmd control_cmd = true
surface_eq sticker_fetch sticker_fetch = true
surface_eq sticker_serve sticker_serve = true
surface_eq _ _ = false

-- The seven static counters.
abbrev pub Counters : Type 0
Counters = Surface → ℕ

-- `fetch_add(1)` on an AtomicU64; the log line is left out.
unfoldable pub note_limited : Counters → Surface → Counters
note_limited c s t = if surface_eq s t then (c t + 1) % 2 ^ 64 else c t

unfoldable pub limited : Counters → Surface → ℕ
limited c s = c s

-- The sum over the array of all surfaces.
unfoldable pub rate_limited : Counters → ℕ
rate_limited c =
    (c inbound_frame
      + c resync_req
      + c ephemeral
      + c intro
      + c control_cmd
      + c sticker_fetch
      + c sticker_serve)
    % 2 ^ 64

-- The hash map from (surface, key) to buckets.
pub record Entry : Type 0 where
  pub surface : Surface
  pub key : String
  pub bucket : TokenBucket

abbrev pub RateTables : Type 0
RateTables = List Entry

-- `==` of two keys of the map.
unfoldable pub key_eq : Surface → String → Surface → String → Bool
key_eq s k s' k' = surface_eq s s' && str_eq k k'

-- `entry(…).or_insert_with(…)` and the check of the bucket that it gives.
unfoldable pub check_entry : RateTables → Surface → String → TokenBucket → ℕ → RateTables × Bool
check_entry [] s k fresh now =
    let (b, passed) = check fresh now in (record { surface = s; key = k; bucket = b } ∷ [], passed)
check_entry (e ∷ es) s k fresh now =
    let (b, passed) = check e.bucket now in
    let (rest, passed_rest) = check_entry es s k fresh now in
    if key_eq e.surface e.key s k
    then (record e { bucket = b } ∷ es, passed)
    else (e ∷ rest, passed_rest)

-- `RateTables::check` with the counters that it bumps; `none` is the panic on `intro`.
unfoldable pub check_table :
    RateTables → Counters → Surface → String → ℕ → Option (RateTables × Counters × Bool)
unfolding bucket_params
check_table t c s k now = elim (bucket_params s) [
  | none ↦ none
  | some (capacity, refill) ↦
      let (t', passed) = check_entry t s k (new capacity refill now) now in
      some (t', if passed then c else note_limited c s, passed)
]
