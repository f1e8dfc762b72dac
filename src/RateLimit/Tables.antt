-- ===== src/RateLimit/Tables.antt =====
-- The table of buckets: one bucket to a surface and relationship, and counted drops.
use text.Mathlib.TextEquality.{eq_iff}
use s_chat6_core.Common.{ℕ, ◌+◌, ◌^◌, ◌<◌, ◌≡◌, arith, String, [], ◌∷◌, true, if◌then◌else◌, some}
use s_chat6_core.RateLimit.{
  Surface, TokenBucket, new, check, surface_eq, key_eq, limited, Counters, note_limited, RateTables,
  check_entry, check_table, bucket_params,
}

surface_eq_sound : (a b : Surface) → surface_eq a b ≡ true → a ≡ b
unfolding surface_eq
surface_eq_sound a b h = ground arith

surface_eq_refl : (a : Surface) → surface_eq a a ≡ true
unfolding surface_eq
surface_eq_refl a = ground arith

surface_eq_swap : (a b c : Surface) → surface_eq a b ≡ true → surface_eq a c ≡ surface_eq b c
surface_eq_swap a b c h = rw (surface_eq_sound a b h)

-- Equal keys compare alike with any third key.
key_eq_swap :
    (s s' s'' : Surface) (k k' k'' : String)
    → key_eq s k s' k' ≡ true
    → key_eq s k s'' k'' ≡ key_eq s' k' s'' k''
unfolding key_eq
key_eq_swap s s' s'' k k' k'' h = ground (arith, surface_eq_swap s s' s'', eq_iff k k')

key_eq_sym : (s s' : Surface) (k k' : String) → key_eq s k s' k' ≡ key_eq s' k' s k
unfolding key_eq
key_eq_sym s s' k k' = ground (
  arith,
  surface_eq_sound s s',
  surface_eq_sound s' s,
  surface_eq_refl s,
  surface_eq_refl s',
  eq_iff k k',
  eq_iff k' k,
)

-- The bucket of a surface and key, `fresh` where the table has none yet.
unfoldable bucket_at : RateTables → Surface → String → TokenBucket → TokenBucket
bucket_at [] s k fresh = fresh
bucket_at (e ∷ es) s k fresh =
    if key_eq e.surface e.key s k then e.bucket else bucket_at es s k fresh

-- A check uses and updates the bucket of its own surface and key, and no other.
check_entry_lem :
    (t : RateTables) (s s' : Surface) (k k' : String) (fresh other : TokenBucket) (now : ℕ)
    → ((check_entry t s k fresh now).1 ≡ (check (bucket_at t s k fresh) now).1)
      × (bucket_at (check_entry t s k fresh now).0 s' k' other ≡ (
          if key_eq s k s' k'
          then (check (bucket_at t s k fresh) now).0
          else bucket_at t s' k' other))
unfolding check_entry bucket_at
check_entry_lem [] s s' k k' fresh other now = ground arith
check_entry_lem (e ∷ es) s s' k k' fresh other now = ground (
  arith,
  check_entry_lem es s s' k k' fresh other now,
  key_eq_swap e.surface s s' e.key k k',
  key_eq_swap s s' e.surface k k' e.key,
  key_eq_sym s e.surface k e.key,
  key_eq_sym s' e.surface k' e.key,
)

-- What `RateTables::check` does, on every surface but the intro, for which the source panics: it
-- answers as the bucket of that surface and key does, a new full one where there was none; it
-- updates that bucket and leaves those of all other surfaces and keys; and it counts the call as one
-- drop of its own surface exactly if it refuses it.
check_table_lem :
    (t : RateTables) (c : Counters) (s s' : Surface) (k k' : String) (other : TokenBucket)
    (now capacity refill : ℕ)
    → bucket_params s ≡ some (capacity, refill)
    → let b = bucket_at t s k (new capacity refill now) in
      (t' : RateTables) × (check_table t c s k now
        ≡ some (t', if (check b now).1 then c else note_limited c s, (check b now).1))
      × (bucket_at t' s' k' other
          ≡ (if key_eq s k s' k' then (check b now).0 else bucket_at t s' k' other))
unfolding check_table
check_table_lem t c s s' k k' other now capacity refill e =
    let steps = check_entry_lem t s s' k k' (new capacity refill now) other now in
    ((check_entry t s k (new capacity refill now) now).0, rw (e, check_table, steps.0), steps.1)

-- A dropped call adds one to the counter of its own surface and to no other.
note_limited_lem :
    (c : Counters) (s t : Surface)
    → c s + 1 < 2 ^ 64
    → limited (note_limited c s) t ≡ limited c t + (if surface_eq s t then 1 else 0)
unfolding note_limited limited
note_limited_lem c s t h = ground (arith, surface_eq_sound s t)
