-- ===== src/Common/Utf8.antt =====
-- The strings of the program as their bytes: `String::from_utf8`, `is_ascii` and the count of `chars`
-- of Rust's library, on lists of bytes.
use Prim.Native.Nat.{ℕ, zero, suc}
use mathlib.Core.Path.{◌≡◌, refl}
use mathlib.Core.Bool.{Bool, true, false, ◌&&◌, ◌||◌}
use mathlib.Core.List.{List, [], ◌∷◌}
use mathlib.Core.Option.{Option, none, some}
use native.Mathlib.Omega.{arith}
use s_chat6_core.Common.Tests.{ltb, leb, ◌==◌, if◌then◌else◌}

-- What the first byte of a character asks of the next ones: how many there are, and the range of the
-- first of them.
unfoldable lead : ℕ → Option (ℕ × ℕ × ℕ)
lead b =
    if ltb b 0x80
    then some (0, 0x80, 0xbf)
    else if ltb b 0xc2
    then none
    else if ltb b 0xe0
    then some (1, 0x80, 0xbf)
    else if b == 0xe0
    then some (2, 0xa0, 0xbf)
    else if b == 0xed
    then some (2, 0x80, 0x9f)
    else if ltb b 0xf0
    then some (2, 0x80, 0xbf)
    else if b == 0xf0
    then some (3, 0x90, 0xbf)
    else if ltb b 0xf4
    then some (3, 0x80, 0xbf)
    else if b == 0xf4
    then some (3, 0x80, 0x8f)
    else none

-- The bytes from a place where `n` bytes of a character are still to come, the next within a range.
unfoldable utf8_from : ℕ → ℕ → ℕ → List ℕ → Bool
unfolding lead
utf8_from zero lo hi [] = true
utf8_from (suc n) lo hi [] = false
utf8_from zero lo hi (b ∷ bs) = elim (lead b) [
  | none ↦ false
  | some (n, lo', hi') ↦ utf8_from n lo' hi' bs
]
utf8_from (suc n) lo hi (b ∷ bs) = leb lo b && leb b hi && utf8_from n 0x80 0xbf bs

unfoldable pub is_utf8 : List ℕ → Bool
unfolding utf8_from
is_utf8 bytes = utf8_from 0 0x80 0xbf bytes

unfoldable pub from_utf8 : List ℕ → Option (List ℕ)
from_utf8 bytes = if is_utf8 bytes then some bytes else none

-- `chars().count()`: every byte that is not a continuation starts a character.
unfoldable pub char_count : List ℕ → ℕ
char_count [] = 0
char_count (b ∷ bs) = if leb 0x80 b && leb b 0xbf then char_count bs else suc (char_count bs)

-- `chars().any(|c| c.is_control())`: U+0000 to U+001F and U+007F to U+009F.
unfoldable pub has_control : List ℕ → Bool
has_control [] = false
has_control (b ∷ []) = ltb b 0x20 || b == 0x7f
has_control (b ∷ c ∷ bs) =
    ltb b 0x20 || b == 0x7f || b == 0xc2 && leb 0x80 c && leb c 0x9f || has_control (c ∷ bs)

unfoldable pub all_ascii : List ℕ → Bool
all_ascii [] = true
all_ascii (b ∷ bs) = ltb b 0x80 && all_ascii bs

-- ASCII is always valid UTF-8.
all_ascii-is_utf8 : (bytes : List ℕ) → all_ascii bytes ≡ true → is_utf8 bytes ≡ true
unfolding is_utf8 all_ascii lead
all_ascii-is_utf8 [] h = refl
all_ascii-is_utf8 (b ∷ bs) h = ground (arith, all_ascii-is_utf8 bs)
