-- ===== src/Wire/Sticker/PackDoc/Accepts.antt =====
-- What the parser of a signed pack document lets through.
use s_chat6_core.Common.{
  is_empty, ℕ, zero, suc, ◌-◌, ◌≤◌, ◌≡◌, refl, arith, List, [], ◌∷◌, length, All, take, drop,
  bytes_eq, bytes_eq_sound, elem, ltb, Bool, true, false, ◌&&◌, not, ok, Ensures, gives, fails,
  Ensures-bind, Ensures-guard, Ensures-ok, Ensures-weaken, Bool-cases, inl, inr,
}
use s_chat6_core.Common.Utf8.{is_utf8, char_count}
use s_chat6_core.Wire.Bin.{Reader}
use s_chat6_core.Wire.Bin.Accepts.{Ensures-end, Ensures-u8, Ensures-u16be, Ensures-take, Ensures-lp}
use s_chat6_core.Wire.Sticker.{
  valid_kind, valid_visibility, item_ok, max_items, max_title_chars, max_pack_doc_bytes,
}
use s_chat6_core.Wire.Sticker.PackDoc.{PackDocItem, StickerPackDoc, pack_doc_domain, count_ok}
use s_chat6_core.Wire.Sticker.PackDoc.Decode.{
  has_item, read_title, read_item, read_items, decode_body, decode_signed, min_doc_bytes,
}

-- No id twice, and none of `seen`.
abbrev pub FreshIds : List ℕ → List PackDocItem → Type 0
FreshIds seen [] = Unit {0}
FreshIds seen (it ∷ its) = (elem it.item_id seen ≡ false) × FreshIds (it.item_id ∷ seen) its

title_short-le : (n : ℕ) → not (ltb max_title_chars n) ≡ true → n ≤ max_title_chars
title_short-le n h = ground (arith, h)

read_title-Ensures :
    (bytes : List ℕ)
    → Ensures (λ t. (is_utf8 t ≡ true) × (char_count t ≤ max_title_chars)) (read_title bytes)
unfolding read_title
read_title-Ensures bytes = elim (Bool-cases (is_utf8 bytes)) [
  | inl valid ↦ rw valid (
      Ensures-guard (not (ltb max_title_chars (char_count bytes))) _ _
        λ short. gives bytes (valid, title_short-le (char_count bytes) short))
  | inr broken ↦ rw broken (fails _)
]

small_doc : (n : ℕ) → not (ltb max_pack_doc_bytes n) ≡ true → n ≤ max_pack_doc_bytes
small_doc n h = ground (arith, h)

count_ok-range : (kind n : ℕ) → count_ok kind n ≡ true → (1 ≤ n) × (n ≤ max_items kind)
unfolding count_ok
count_ok-range kind n h = ground (arith, h)

both : (a b : Bool) → (a && b) ≡ true → (a ≡ true) × (b ≡ true)
both a b h = ground (arith, h)

module _ (sha256 : List ℕ → List ℕ) where
  -- An item within the caps of the kind, whose bytes have the hash that it names.
  pub record IsChecked (kind : ℕ) (it : PackDocItem) : Type 0 where
    pub caps : item_ok kind it.w it.h (length it.bytes) ≡ true
    pub hash : sha256 it.bytes ≡ it.sha256

  pub record IsInstallable (d : StickerPackDoc) : Type 0 where
    kind_known : valid_kind d.kind ≡ true
    visibility_known : valid_visibility d.visibility ≡ true
    pub title_utf8 : is_utf8 d.title ≡ true
    pub title_short : char_count d.title ≤ max_title_chars
    pub not_empty : 1 ≤ length d.items
    not_many : length d.items ≤ max_items d.kind
    pub ids : FreshIds [] d.items
    pub checked : All (IsChecked d.kind) d.items
    pub icon : has_item d.icon_item_id d.items ≡ true

  read_item-Ensures :
      (kind : ℕ) (seen : List ℕ) (r : Reader)
      → Ensures
          (λ p. (elem p.0.item_id seen ≡ false) × IsChecked kind p.0)
          (read_item sha256 kind seen r)
  unfolding read_item
  read_item-Ensures kind seen r = Ensures-u16be _ _ _ λ id r. Ensures-u16be _ _ _ λ w r.
      Ensures-u16be _ _ _ λ h r. Ensures-take _ _ _ _ λ sha r sha_32.
        Ensures-lp _ _ _ _ λ bytes r small. Ensures-guard (not (is_empty bytes)) _ _ λ some_bytes.
          Ensures-guard (not (elem id seen)) _ _ λ new.
            Ensures-guard (bytes_eq (sha256 bytes) sha) _ _ λ same.
              Ensures-guard (item_ok kind w h (length bytes)) _ _ λ fits.
                gives (record { item_id = id; w = w; h = h; sha256 = sha; bytes = bytes }, r)
                  (ground (arith, new), record { caps = fits; hash = bytes_eq_sound _ _ same })

  read_items-Ensures :
      (n kind : ℕ) (seen : List ℕ) (r : Reader)
      → Ensures
          (λ p. (length p.0 ≡ n) × FreshIds seen p.0 × All (IsChecked kind) p.0)
          (read_items sha256 n kind seen r)
  unfolding read_items
  read_items-Ensures zero kind seen r = gives ([], r) (refl, tt, tt)
  read_items-Ensures (suc n) kind seen r =
      Ensures-bind (read_item sha256 kind seen r) _ λ (it, r') e.
        let (new, ok_item) = Ensures-ok (read_item-Ensures kind seen r) (it, r') e in
        Ensures-bind (read_items sha256 n kind (it.item_id ∷ seen) r') _ λ (its, r'') e'.
          let (len, fresh, good) =
            Ensures-ok (read_items-Ensures n kind (it.item_id ∷ seen) r') (its, r'') e' in
          gives (it ∷ its, r'') (omega (arith, len), (new, fresh), (ok_item, good))

  decode_body-Ensures : (body : List ℕ) → Ensures IsInstallable (decode_body sha256 body)
  unfolding decode_body
  decode_body-Ensures body = Ensures-take _ _ _ _ λ domain r _.
      Ensures-guard (bytes_eq domain pack_doc_domain) _ _ λ same.
        Ensures-take _ _ _ _ λ pack_id r _. Ensures-u8 _ _ _ λ kind r.
          Ensures-u8 _ _ _ λ visibility r.
            Ensures-guard (valid_kind kind && valid_visibility visibility) _ _ λ known.
              Ensures-lp _ _ _ _ λ title_bytes r _.
                Ensures-bind (read_title title_bytes) _ λ title e. Ensures-u16be _ _ _ λ icon r.
                  Ensures-u16be _ _ _ λ count r. Ensures-guard (count_ok kind count) _ _ λ counted.
                    Ensures-bind (read_items sha256 count kind [] r) _ λ (items, r') e'.
                      Ensures-end _ _ _ (
                        Ensures-guard (has_item icon items) _ _ λ icon_there.
                          let (valid, short) =
                            Ensures-ok (read_title-Ensures title_bytes) title e in
                          let (len, fresh, good) =
                            Ensures-ok (read_items-Ensures count kind [] r) (items, r') e' in
                          let (least, most) = count_ok-range kind count counted in
                          let (k, v) = both (valid_kind kind) (valid_visibility visibility) known in
                          gives
                            (record {
                              pack_id = pack_id;
                              kind = kind;
                              visibility = visibility;
                              title = title;
                              icon_item_id = icon;
                              items = items;
                            })
                            (record {
                              kind_known = k;
                              visibility_known = v;
                              title_utf8 = valid;
                              title_short = short;
                              not_empty = omega (arith, len, least);
                              not_many = omega (arith, len, most);
                              ids = fresh;
                              checked = good;
                              icon = icon_there;
                            }))

  -- What the whole parse asks of the blob as well.
  abbrev IsSigned : (List ℕ → List ℕ → List ℕ → Bool) → List ℕ → List ℕ → StickerPackDoc → Type 0
  IsSigned verify pk blob d =
      (length blob ≤ max_pack_doc_bytes)
      × (verify pk (take (length blob - 64) blob) (drop (length blob - 64) blob) ≡ true)
      × IsInstallable d

  decode_signed-Ensures :
      (verify : List ℕ → List ℕ → List ℕ → Bool) (pk blob : List ℕ)
      → Ensures (IsSigned verify pk blob) (decode_signed sha256 verify pk blob)
  unfolding decode_signed
  decode_signed-Ensures verify pk blob =
      Ensures-guard (not (ltb max_pack_doc_bytes (length blob))) _ _ λ small.
        Ensures-guard (not (ltb (length blob) min_doc_bytes)) _ _ λ long.
          Ensures-guard (verify pk (take (length blob - 64) blob) (drop (length blob - 64) blob)) _
            _
            λ signed.
              Ensures-weaken (decode_body sha256 (take (length blob - 64) blob))
                (λ d h. (small_doc (length blob) small, signed, h))
                (decode_body-Ensures (take (length blob - 64) blob))

  -- A document that is accepted is at most 28 MiB long, the key of the pack has signed all of it but
  -- its last 64 bytes, which are the signature, and it is fit to be installed: known kind and visibility,
  -- a title of at most 32 characters, at least one item and no more than the kind allows, no item id
  -- twice, every item within the caps of the kind and with bytes of the hash that it names, and the icon
  -- among the items.
  pub decode_signed-IsInstallable :
      (verify : List ℕ → List ℕ → List ℕ → Bool) (pk blob : List ℕ) (d : StickerPackDoc)
      → decode_signed sha256 verify pk blob ≡ ok d
      → (length blob ≤ max_pack_doc_bytes)
        × (verify pk (take (length blob - 64) blob) (drop (length blob - 64) blob) ≡ true)
        × IsInstallable d
  decode_signed-IsInstallable verify pk blob d e =
      Ensures-ok (decode_signed-Ensures verify pk blob) d e
