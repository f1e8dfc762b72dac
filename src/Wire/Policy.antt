-- ===== src/Wire/Policy.antt =====
-- crates/wire-types/src/policy.rs: the CHAT_POLICY payload, 28 bytes.
pub mod RoundTrip
use s_chat6_core.Common.{
  ℕ, ◌+◌, ◌^◌, ◌<◌, ◌≡◌, List, [], ◌∷◌, length, ltb, leb, ◌==◌, Bool, true, false, ◌&&◌, ◌||◌, not,
  if◌then◌else◌, ok, err, ◌>>=◌, ◌>>◌, guard, bit_and, bit_or, Option, none, some,
}
use s_chat6_core.Wire.Error
use s_chat6_core.Wire.Error.{Wire, bad_length, bad_version, bad_field, value}
use s_chat6_core.Wire.Bin.{
  new_writer, put_u8, put_u32be, raw, finish, new_reader, u8, u32be, take_bytes, expect_end,
}

abbrev pub version : ℕ
version = 1

abbrev pub op_rule_propose : ℕ
op_rule_propose = 1

abbrev pub op_rule_accept : ℕ
op_rule_accept = 2

abbrev pub op_cap_set : ℕ
op_cap_set = 3

abbrev pub op_sync : ℕ
op_sync = 4

-- The flag bits, `1 << 0` to `1 << 6`.
abbrev flag_screenshot : ℕ
flag_screenshot = 2 ^ 0

abbrev flag_attach_dl : ℕ
flag_attach_dl = 2 ^ 1

abbrev pub flag_want_attach : ℕ
flag_want_attach = 2 ^ 2

abbrev pub flag_want_emoji : ℕ
flag_want_emoji = 2 ^ 3

abbrev pub flag_want_presence : ℕ
flag_want_presence = 2 ^ 4

abbrev pub flag_want_typing : ℕ
flag_want_typing = 2 ^ 5

abbrev pub flag_want_receipts : ℕ
flag_want_receipts = 2 ^ 6

abbrev cap_id_attach : ℕ
cap_id_attach = 0

abbrev cap_id_emoji : ℕ
cap_id_emoji = 1

abbrev cap_id_presence : ℕ
cap_id_presence = 2

abbrev cap_id_typing : ℕ
cap_id_typing = 3

abbrev cap_id_receipts : ℕ
cap_id_receipts = 4

abbrev pub cap_id_max : ℕ
cap_id_max = cap_id_receipts

abbrev pub ttl_never : ℕ
ttl_never = 0

abbrev pub ttl_24h : ℕ
ttl_24h = 86_400

-- TTL_1H, 6H, 12H, 24H, 3D, 7D, 14D, NEVER.
abbrev ttl_options : List ℕ
ttl_options = 3_600 ∷ 21_600 ∷ 43_200 ∷ ttl_24h ∷ 259_200 ∷ 604_800 ∷ 1_209_600 ∷ ttl_never ∷ []

-- `[u32]::contains`.
abbrev pub contains : List ℕ → ℕ → Bool
contains [] a = false
contains (x ∷ xs) a = x == a || contains xs a

unfoldable pub is_allowed_ttl : ℕ → Bool
is_allowed_ttl ttl = contains ttl_options ttl

unfoldable pub cap_bit : ℕ → ℕ
cap_bit id =
    if id == cap_id_attach
    then flag_want_attach
    else if id == cap_id_emoji
    then flag_want_emoji
    else if id == cap_id_presence
    then flag_want_presence
    else if id == cap_id_typing
    then flag_want_typing
    else if id == cap_id_receipts
    then flag_want_receipts
    else 0

unfoldable cap_id_of : ℕ → Option ℕ
cap_id_of bit =
    if bit == flag_want_attach
    then some cap_id_attach
    else if bit == flag_want_emoji
    then some cap_id_emoji
    else if bit == flag_want_presence
    then some cap_id_presence
    else if bit == flag_want_typing
    then some cap_id_typing
    else if bit == flag_want_receipts
    then some cap_id_receipts
    else none

abbrev pub size : ℕ
size = 1 + 1 + 4 + 4 + 1 + 1 + 16

pub record ChatPolicy : Type 0 where
  pub op : ℕ  -- u8
  pub ttl_sec : ℕ  -- u32
  pub screenshot : Bool
  pub attach_download : Bool
  pub want_attach : Bool
  pub want_emoji : Bool
  pub want_presence : Bool
  pub want_typing : Bool
  pub want_receipts : Bool
  pub cap_id : ℕ  -- u8
  pub cap_on : Bool
  pub propose_id : List ℕ  -- [u8; 16]

-- `if b { flags |= flag; }`
abbrev pub set_if : Bool → ℕ → ℕ → ℕ
set_if b flag flags = if b then bit_or flags flag else flags

-- `flags & flag != 0`
abbrev pub has_flag : ℕ → ℕ → Bool
has_flag flags flag = not (bit_and flags flag == 0)

-- The seven assignments of `ChatPolicy::flags`, in their order.
unfoldable pub flags_of : Bool → Bool → Bool → Bool → Bool → Bool → Bool → ℕ
flags_of screenshot attach_dl attach emoji presence typing receipts =
    set_if receipts flag_want_receipts (
      set_if typing flag_want_typing (
        set_if presence flag_want_presence (
          set_if emoji flag_want_emoji (
            set_if attach flag_want_attach
              (set_if attach_dl flag_attach_dl (set_if screenshot flag_screenshot 0))))))

unfoldable pub flags : ChatPolicy → ℕ
flags p =
    flags_of p.screenshot p.attach_download p.want_attach p.want_emoji p.want_presence p.want_typing
      p.want_receipts

unfoldable pub validate : ChatPolicy → Wire (Unit {0})
unfolding is_allowed_ttl
validate p = do
  guard (leb op_rule_propose p.op && leb p.op op_sync) (bad_field "policy.op" (Error.op p.op))
  guard (p.op == op_cap_set || is_allowed_ttl p.ttl_sec)
      (bad_field "policy.ttl_sec" (Error.ttl_not_in_options p.ttl_sec))
  guard (not (p.op == op_cap_set && ltb cap_id_max p.cap_id))
      (bad_field "policy.cap_id" (Error.cap_id p.cap_id))

-- `u8::from(bool)`.
abbrev pub bool_byte : Bool → ℕ
bool_byte b = if b then 1 else 0

unfoldable pub encode_payload : ChatPolicy → Wire (List ℕ)
encode_payload p = do
  validate p
  let w = put_u8 p.op (put_u8 version new_writer)
  let w = put_u32be (flags p) (put_u32be p.ttl_sec w)
  let w = put_u8 (bool_byte p.cap_on) (put_u8 p.cap_id w)
  ok (finish (raw p.propose_id w))

unfoldable pub policy_of : ℕ → ℕ → ℕ → ℕ → ℕ → List ℕ → ChatPolicy
policy_of op ttl_sec flags cap_id cap_on propose_id = record {
  op = op;
  ttl_sec = ttl_sec;
  screenshot = has_flag flags flag_screenshot;
  attach_download = has_flag flags flag_attach_dl;
  want_attach = has_flag flags flag_want_attach;
  want_emoji = has_flag flags flag_want_emoji;
  want_presence = has_flag flags flag_want_presence;
  want_typing = has_flag flags flag_want_typing;
  want_receipts = has_flag flags flag_want_receipts;
  cap_id = cap_id;
  cap_on = cap_on == 1;
  propose_id = propose_id;
}

unfoldable pub decode_payload : List ℕ → Wire ChatPolicy
unfolding policy_of
decode_payload bytes = do
  guard (length bytes == size) (bad_length "policy" (length bytes) size)
  (v, r) ← u8 "policy.version" (new_reader bytes)
  guard (v == version) (bad_version "policy" v)
  (op, r) ← u8 "policy.op" r
  (ttl_sec, r) ← u32be "policy.ttl" r
  (flags, r) ← u32be "policy.flags" r
  (cap_id, r) ← u8 "policy.cap_id" r
  (cap_on, r) ← u8 "policy.cap_on" r
  guard (leb cap_on 1) (bad_field "policy.cap_on" (value cap_on))
  (propose_id, r) ← take_bytes 16 "policy.propose_id" r
  expect_end "policy" r
  let out = policy_of op ttl_sec flags cap_id cap_on propose_id
  validate out
  ok out
