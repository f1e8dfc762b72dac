-- ===== src/Policy/Store/RoundTrip.antt =====
-- The policy state saved and loaded again, and the clamp of the ledger.
use text.Mathlib.Text.{◌==◌ as str_eq}
use text.Mathlib.TextEquality.{eq_iff}
use s_chat6_core.Common.{
  map, min, ℕ, ◌+◌, ◌*◌, ◌%◌, ◌/◌, ◌^◌, ◌<◌, ◌≡◌, refl, sym, ap, ◌∙◌, append-nil, arith, String,
  List, [], ◌∷◌, ◌++◌, length, length-append, take, take-append, drop-append, drop-add, Bool, false,
  ◌&&◌, ◌||◌, if◌then◌else◌, Option, none, some, ok, bit_and, bit_or,
}
use mathlib.Core.Option
use s_chat6_core.Common.Bytes.{to_be_bytes, from_be-to_be, length-to_be_bytes}
use s_chat6_core.Common.Bits.{bit_and_mask, bit_or_fields}
use s_chat6_core.Common.Words.{IsU32}
use s_chat6_core.Wire.Policy.{bool_byte, has_flag}
use s_chat6_core.Policy.{PendingProposal, PolicyState}
use s_chat6_core.Policy.Store.{
  Relationships, ExpiryRow, encode_pending, decode_pending, columns_of, decode_pending_column,
  state_of, load_policy, save_policy, clamp_message_expiry, pending_len,
}

pub record IsPending (p : PendingProposal) : Type 0 where
  pub ttl_u32 : IsU32 p.ttl_sec
  pub id_16 : length p.propose_id ≡ 16

abbrev flag_byte : PendingProposal → ℕ
flag_byte p =
    bit_or (bit_or (bool_byte p.screenshot) (bool_byte p.attach_download * 2))
      (bool_byte p.inbound * 4)

pending_flags :
    (p : PendingProposal)
    → (has_flag (flag_byte p) 1 ≡ p.screenshot)
      × (has_flag (flag_byte p) 2 ≡ p.attach_download)
      × (has_flag (flag_byte p) 4 ≡ p.inbound)
pending_flags p = ground arith

-- A pending proposal is read back from its bytes.
decode-encode_pending :
    (p : PendingProposal) → IsPending p → decode_pending (encode_pending p) ≡ ok p
unfolding decode_pending encode_pending
decode-encode_pending p h =
    rw
      (
        long,
        take-append 4 head (flag_byte p ∷ p.propose_id) (length-to_be_bytes 4 p.ttl_sec),
        drop-add {0} 4 1 5 (head ++ (flag_byte p ∷ p.propose_id)) refl,
        drop-append 4 head (flag_byte p ∷ p.propose_id) (length-to_be_bytes 4 p.ttl_sec),
        from_be-to_be 4 p.ttl_sec h.ttl_u32,
      )
      (rw whole (ground (arith, pending_flags p)))
  where
    head : List ℕ
    head = to_be_bytes 4 p.ttl_sec

    long : length (head ++ (flag_byte p ∷ p.propose_id)) ≡ pending_len
    long = omega (
      arith,
      length-append {0} head (flag_byte p ∷ p.propose_id),
      length-to_be_bytes 4 p.ttl_sec,
      h.id_16,
    )

    whole : take 16 p.propose_id ≡ p.propose_id
    whole =
        ap (λ t. take 16 t) (sym (append-nil p.propose_id)) ∙ take-append 16 p.propose_id [] h.id_16

abbrev pub PendingTyped : Option PendingProposal → Type 0
PendingTyped none = Unit {0}
PendingTyped (some p) = IsPending p

-- The Rust types of the fields, and wants that fit the byte which the store keeps of each.
pub record IsStorable (s : PolicyState) : Type 0 where
  pub ttl_u32 : IsU32 s.ttl_sec
  pub local_byte : s.local_want < 2 ^ 8
  pub peer_byte : s.peer_want < 2 ^ 8
  pub pending_typed : PendingTyped s.pending

pending_column :
    (m : Option PendingProposal)
    → PendingTyped m
    → decode_pending_column (Option.map encode_pending m) ≡ ok m
unfolding decode_pending_column
pending_column none h = refl
pending_column (some p) h = rw (decode-encode_pending p h)

module _ (local peer : ℕ) (hl : local < 2 ^ 8) (hp : peer < 2 ^ 8) where
  abbrev packed : ℕ
  packed = bit_or (bit_and peer 0xff * 2 ^ 8 % 2 ^ 32) (bit_and local 0xff)

  packed_lem : packed ≡ peer * 2 ^ 8 + local
  packed_lem =
      rw (bit_and_mask 8 peer, bit_and_mask 8 local, low_peer, low_local)
        (bit_or_fields 8 peer local hl)
    where
      low_peer : peer % 2 ^ 8 * 2 ^ 8 % 2 ^ 32 ≡ peer * 2 ^ 8
      low_peer = omega arith

      low_local : local % 2 ^ 8 ≡ local
      low_local = omega arith

  unpack_local : bit_and (packed % 2 ^ 32) 0xff ≡ local
  unpack_local = omega (arith, bit_and_mask 8 (packed % 2 ^ 32), packed_lem)

  unpack_peer : bit_and (packed % 2 ^ 32 / 2 ^ 8) 0xff ≡ peer
  unpack_peer = omega (arith, bit_and_mask 8 (packed % 2 ^ 32 / 2 ^ 8), packed_lem)

rule_flags :
    (screenshot download : Bool)
    → let n = bit_or (bool_byte screenshot) (bool_byte download * 2) in
      (has_flag n 1 ≡ screenshot) × (has_flag n 2 ≡ download)
rule_flags screenshot download = ground arith

state_of-columns_of : (s : PolicyState) → IsStorable s → state_of (columns_of s) ≡ ok s
unfolding state_of columns_of
state_of-columns_of s h = rw (
  pending_column s.pending h.pending_typed,
  unpack_local s.local_want s.peer_want h.local_byte h.peer_byte,
  unpack_peer s.local_want s.peer_want h.local_byte h.peer_byte,
  (rule_flags s.screenshot s.attach_download).0,
  (rule_flags s.screenshot s.attach_download).1,
  ttl,
)
  where
    ttl : s.ttl_sec % 2 ^ 32 ≡ s.ttl_sec
    ttl = omega (arith, h.ttl_u32)

-- The relationship has a row.
abbrev pub has_row : Relationships → String → Bool
has_row [] rel = false
has_row ((id, c) ∷ rows) rel = str_eq id rel || has_row rows rel

-- A load after a save gives the saved state back where the relationship has a row, refuses as before
-- where it has none, and every other relationship loads as before.
pub load-save :
    (db : Relationships) (rel other : String) (s : PolicyState)
    → IsStorable s
    → load_policy (save_policy db rel s) other
      ≡ (if str_eq rel other && has_row db rel then ok s else load_policy db other)
unfolding load_policy save_policy
load-save [] rel other s h = ground arith
load-save ((id, c) ∷ rows) rel other s h = ground (
  arith,
  state_of-columns_of s h,
  load-save rows rel other s h,
  eq_iff id rel,
  eq_iff id other,
  eq_iff rel other,
)

-- The earlier of an expiry and the horizon; no expiry is later than all.
abbrev pub earlier : Option ℕ → ℕ → ℕ
earlier none before = before
earlier (some e) before = min e before

-- The clamp gives every message of the relationship, and no other, the earlier of its expiry and the
-- horizon, keeps the rest of the ledger and its order, and a second clamp at that horizon changes no
-- message.
clamp_lem :
    (ms : List ExpiryRow) (rel : String) (before : ℕ)
    → ((clamp_message_expiry ms rel before).0
        ≡ map
            (λ m.
              if str_eq m.rel_id rel
              then record m { expires_at = some (earlier m.expires_at before) }
              else m)
            ms)
      × ((clamp_message_expiry (clamp_message_expiry ms rel before).0 rel before).1 ≡ 0)
unfolding clamp_message_expiry
clamp_lem [] rel before = (refl, refl)
clamp_lem (m ∷ ms) rel before = ground (arith, clamp_lem ms rel before)
