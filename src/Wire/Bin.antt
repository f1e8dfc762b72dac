-- ===== src/Wire/Bin.antt =====
-- crates/wire-types/src/bin.rs: the byte writer and the bounds-checked cursor reader. A byte string
-- is a list of numbers; a method that takes `&mut self` returns the new value.
pub mod Laws
pub mod Steps
pub mod Accepts
use s_chat6_core.Common.{
  ℕ, ◌+◌, ◌-◌, ◌%◌, ◌^◌, ◌≡◌, String, List, [], ◌∷◌, ◌++◌, length, take, drop, get_elem?, ltb, ◌==◌,
  Bool, true, if◌then◌else◌, Option, none, some, ok, err, ◌>>=◌, ◌>>◌,
}
use s_chat6_core.Common.Bytes.{to_be_bytes, from_be_bytes}
use s_chat6_core.Wire.Error.{WireError, Wire, truncated, bad_length, trailing}

pub record Writer : Type 0 where
  pub buf : List ℕ

-- `Writer::new` and `Writer::with_capacity`: the capacity is no part of the value.
unfoldable pub new_writer : Writer
new_writer = record { buf = [] }

unfoldable pub raw : List ℕ → Writer → Writer
raw v w = record { buf = w.buf ++ v }

unfoldable pub put_u8 : ℕ → Writer → Writer
put_u8 v w = record { buf = w.buf ++ (v ∷ []) }

unfoldable pub put_u16be : ℕ → Writer → Writer
put_u16be v w = record { buf = w.buf ++ to_be_bytes 2 v }

unfoldable pub put_u32be : ℕ → Writer → Writer
put_u32be v w = record { buf = w.buf ++ to_be_bytes 4 v }

unfoldable pub put_u64be : ℕ → Writer → Writer
put_u64be v w = record { buf = w.buf ++ to_be_bytes 8 v }

-- The length is cast to 32 bits, `v.len() as u32`.
unfoldable pub put_lp : List ℕ → Writer → Writer
unfolding raw put_u32be
put_lp v w = raw v (put_u32be (length v % 2 ^ 32) w)

unfoldable pub finish : Writer → List ℕ
finish w = w.buf

pub record Reader : Type 0 where
  pub buf : List ℕ
  pub pos : ℕ

unfoldable pub new_reader : List ℕ → Reader
new_reader buf = record { buf = buf; pos = 0 }

-- `buf.len() - pos`, where the position is at most the length.
unfoldable pub remaining : Reader → ℕ
remaining r = length r.buf - r.pos

unfoldable pub take_bytes : ℕ → String → Reader → Wire (List ℕ × Reader)
unfolding remaining
take_bytes n at r =
    if ltb (remaining r) n
    then err (truncated at)
    else ok (take n (drop r.pos r.buf), record r { pos = r.pos + n })

-- `self.take(1, at)?[0]`; the one byte is there.
unfoldable pub first_byte : List ℕ → ℕ
first_byte [] = 0
first_byte (b ∷ bs) = b

unfoldable pub u8 : String → Reader → Wire (ℕ × Reader)
unfolding take_bytes first_byte
u8 at r = do (bs, r') ← take_bytes 1 at r; ok (first_byte bs, r')

unfoldable pub u16be : String → Reader → Wire (ℕ × Reader)
unfolding take_bytes
u16be at r = do (bs, r') ← take_bytes 2 at r; ok (from_be_bytes bs, r')

unfoldable pub u32be : String → Reader → Wire (ℕ × Reader)
unfolding take_bytes
u32be at r = do (bs, r') ← take_bytes 4 at r; ok (from_be_bytes bs, r')

unfoldable pub u64be : String → Reader → Wire (ℕ × Reader)
unfolding take_bytes
u64be at r = do (bs, r') ← take_bytes 8 at r; ok (from_be_bytes bs, r')

unfoldable pub lp : ℕ → String → Reader → Wire (List ℕ × Reader)
unfolding u32be take_bytes
lp max at r = do
  (len, r') ← u32be at r
  if ltb max len then err (bad_length at len max) else take_bytes len at r'

-- The next number, with the cursor left where it is.
unfoldable pub peek_u32be : String → Reader → Wire ℕ
unfolding remaining
peek_u32be at r =
    if ltb (remaining r) 4
    then err (truncated at)
    else ok (from_be_bytes (take 4 (drop r.pos r.buf)))

unfoldable pub expect_end : String → Reader → Wire (Unit {0})
unfolding remaining
expect_end at r = if remaining r == 0 then ok tt else err (trailing at (remaining r))
