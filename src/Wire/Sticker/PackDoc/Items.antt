-- ===== src/Wire/Sticker/PackDoc/Items.antt =====
-- The item table of a pack document: what is written of it, and that it is read back.
use s_chat6_core.Common.{
  is_empty, ℕ, ◌%◌, ◌^◌, ◌≤◌, ◌<◌, ◌≡◌, refl, sym, ap, ◌∙◌, arith, List, [], ◌∷◌, ◌++◌, length, All,
  bytes_eq_refl, elem, Bool, true, false, not, ok, append_assoc, append-nil, Ensures, gives,
  Ensures-guard, Ensures-weaken,
}
use s_chat6_core.Common.Bytes.{to_be_bytes}
use s_chat6_core.Wire.Bin.{Writer, Reader, put_u16be, put_lp, raw}
use s_chat6_core.Wire.Bin.Laws.{Sees, u16be-Sees, lp-Sees, take_bytes-append}
use s_chat6_core.Wire.Sticker.{item_ok, max_bytes, max_bytes_sticker}
use s_chat6_core.Wire.Sticker.PackDoc.{PackDocItem, put_item, put_items}
use s_chat6_core.Wire.Sticker.PackDoc.Decode.{read_item, read_items}
use s_chat6_core.Wire.Sticker.PackDoc.Accepts.{FreshIds, IsChecked}

-- The Rust types of the fields.
pub record IsTypedItem (it : PackDocItem) : Type 0 where
  pub id_u16 : it.item_id < 2 ^ 16
  pub w_u16 : it.w < 2 ^ 16
  pub h_u16 : it.h < 2 ^ 16
  pub sha_32 : length it.sha256 ≡ 32

abbrev pub item_bytes : PackDocItem → List ℕ
item_bytes it =
    to_be_bytes 2 it.item_id
    ++ (to_be_bytes 2 it.w
        ++ (to_be_bytes 2 it.h
            ++ (it.sha256 ++ (to_be_bytes 4 (length it.bytes % 2 ^ 32) ++ it.bytes))))

abbrev pub items_bytes : List PackDocItem → List ℕ
items_bytes [] = []
items_bytes (it ∷ its) = item_bytes it ++ items_bytes its

put_item-buf : (it : PackDocItem) (w : Writer) → (put_item it w).buf ≡ w.buf ++ item_bytes it
unfolding put_item put_u16be put_lp raw
put_item-buf it w = simp append_assoc

-- What the encoder has checked of the items.
abbrev pub IsWithin : ℕ → PackDocItem → Type 0
IsWithin kind it = item_ok kind it.w it.h (length it.bytes) ≡ true

was_false : (b : Bool) → not b ≡ true → b ≡ false
was_false b h = ground (arith, h)

pub put_items-Ensures :
    (kind : ℕ) (its : List PackDocItem) (seen : List ℕ) (w : Writer)
    → Ensures
        (λ w'. (w'.buf ≡ w.buf ++ items_bytes its) × FreshIds seen its × All (IsWithin kind) its)
        (put_items kind seen its w)
unfolding put_items
put_items-Ensures kind [] seen w = gives w (sym (append-nil w.buf), tt, tt)
put_items-Ensures kind (it ∷ its) seen w = Ensures-guard (not (elem it.item_id seen)) _ _ λ new.
    Ensures-guard (item_ok kind it.w it.h (length it.bytes)) _ _ λ fits.
      Ensures-weaken (put_items kind (it.item_id ∷ seen) its (put_item it w))
        (λ w' (e, fresh, within). (
          e
              ∙ ap (λ b. b ++ items_bytes its) (put_item-buf it w)
              ∙ append_assoc w.buf (item_bytes it) (items_bytes its),
          (was_false (elem it.item_id seen) new, fresh),
          (fits, within),
        ))
        (put_items-Ensures kind its (it.item_id ∷ seen) (put_item it w))

max_bytes-le : (kind : ℕ) → max_bytes kind ≤ max_bytes_sticker
unfolding max_bytes
max_bytes-le kind = ground arith

pub item_ok-range : (kind w h n : ℕ) → item_ok kind w h n ≡ true → (0 < n) × (n ≤ max_bytes kind)
unfolding item_ok
item_ok-range kind w h n e = ground (arith, e)

not_empty : (b : List ℕ) → 0 < length b → not (is_empty b) ≡ true
not_empty [] h = absurd (omega arith)
not_empty (x ∷ b) h = refl

pub item_ok-bytes :
    (kind : ℕ) (it : PackDocItem)
    → IsWithin kind it
    → (length it.bytes ≤ max_bytes kind)
      × (length it.bytes < 2 ^ 32)
      × (not (is_empty it.bytes) ≡ true)
item_ok-bytes kind it h =
    let (some_bytes, small) = item_ok-range kind it.w it.h (length it.bytes) h in
    (small, omega (arith, small, max_bytes-le kind), not_empty it.bytes some_bytes)

pub mod_small : (n : ℕ) → n < 2 ^ 32 → n % 2 ^ 32 ≡ n
mod_small n h = omega arith

module _ (sha256 : List ℕ → List ℕ) where
  read_item-Sees :
      (kind : ℕ) (seen : List ℕ) (it : PackDocItem) (r : Reader) (ys : List ℕ)
      → IsTypedItem it
      → IsChecked sha256 kind it
      → elem it.item_id seen ≡ false
      → Sees r (item_bytes it ++ ys)
      → (r' : Reader) × (read_item sha256 kind seen r ≡ ok (it, r')) × Sees r' ys
  unfolding read_item
  read_item-Sees kind seen it r ys t c new s0 =
      let (small, wide, filled) = item_ok-bytes kind it c.caps in
      let s0' : Sees r (
          to_be_bytes 2 it.item_id
          ++ (to_be_bytes 2 it.w
              ++ (to_be_bytes 2 it.h
                  ++ (it.sha256
                      ++ (to_be_bytes 4 (length it.bytes % 2 ^ 32) ++ (it.bytes ++ ys)))))) =
        simp append_assoc at s0 in
      let (e1, s1) = u16be-Sees "pack_doc.item.id" r it.item_id _ s0' t.id_u16 in
      let (e2, s2) = u16be-Sees "pack_doc.item.w" _ it.w _ s1 t.w_u16 in
      let (e3, s3) = u16be-Sees "pack_doc.item.h" _ it.h _ s2 t.h_u16 in
      let (e4, s4) = take_bytes-append 32 "pack_doc.item.sha" _ it.sha256 _ s3 t.sha_32 in
      let s4' = rw (mod_small (length it.bytes) wide) at s4 in
      let (e5, s5) = lp-Sees (max_bytes kind) "pack_doc.item.bytes" _ it.bytes ys s4' small wide in
      (_, rw (e1, e2, e3, e4, e5, filled, new, c.hash, bytes_eq_refl it.sha256, c.caps) refl, s5)

  pub read_items-Sees :
      (kind : ℕ) (seen : List ℕ) (its : List PackDocItem) (r : Reader) (ys : List ℕ)
      → All IsTypedItem its
      → All (IsChecked sha256 kind) its
      → FreshIds seen its
      → Sees r (items_bytes its ++ ys)
      → (r' : Reader) × (read_items sha256 (length its) kind seen r ≡ ok (its, r')) × Sees r' ys
  unfolding read_items
  read_items-Sees kind seen [] r ys t c f s = (r, refl, s)
  read_items-Sees kind seen (it ∷ its) r ys t c f s =
      let s' = rw (append_assoc (item_bytes it) (items_bytes its) ys) at s in
      let (r1, e1, s1) = read_item-Sees kind seen it r (items_bytes its ++ ys) t.0 c.0 f.0 s' in
      let (r2, e2, s2) = read_items-Sees kind (it.item_id ∷ seen) its r1 ys t.1 c.1 f.1 s1 in
      (r2, rw (e1, e2) refl, s2)
