-- ===== src/Caps/Gate.antt =====
-- The gate against the numbers of the types and of the capabilities.
use s_chat6_core.Common.{
  ℕ, ◌+◌, ◌%◌, ◌^◌, ◌≡◌, ◌⊎◌, refl, sym, ◌∙◌, ap, arith, List, [], ◌∷◌, bytes_eq, ltb, ◌==◌, true,
  false, not, ◌||◌, if◌then◌else◌, some, Bool-cases, inl, inr, bit_and, subst, bytes_eq_sound,
}
use s_chat6_core.Wire.Envelope.{
  EnvelopeType, code, msg, edit, delete, delete_all, resync_req, attach_head, attach_chunk,
  contact_close, profile, pref, profile_req, sticker, sticker_ctrl, presence, chat_policy, typing,
  read,
}
use s_chat6_core.Live.Table.{Table, get}
use s_chat6_core.Caps.{note_peer_caps, or_none, peer_caps, allows, check_inbound, check_outbound}

noted :
    (rel : List ℕ) (caps old : ℕ) (rows : Table ℕ)
    → get rel rows ≡ some old
    → get rel (note_peer_caps rel caps rows) ≡ some caps
unfolding note_peer_caps
noted rel caps old [] e = absurd (ground (arith, e))
noted rel caps old ((k, v) ∷ rows) e = elim (Bool-cases (bytes_eq k rel)) [
  | inl same ↦ rw same refl
  | inr other ↦ rw other (noted rel caps old rows (rw other at e))
]

noted_other :
    (rel rel' : List ℕ) (caps : ℕ) (rows : Table ℕ)
    → bytes_eq rel rel' ≡ false
    → get rel' (note_peer_caps rel caps rows) ≡ get rel' rows
unfolding note_peer_caps
noted_other rel rel' caps [] apart = refl
noted_other rel rel' caps ((k, v) ∷ rows) apart = elim (Bool-cases (bytes_eq k rel)) [
  | inl same ↦
      let e : bytes_eq k rel' ≡ false =
        subst (λ y. bytes_eq y rel' ≡ false) (sym (bytes_eq_sound k rel same)) apart in
      rw (same, e) (noted_other rel rel' caps rows apart)
  | inr other ↦ rw (other, noted_other rel rel' caps rows apart) refl
]

-- A type whose number is below 12 needs nothing; each of the others needs one capability of its own, the
-- two for stickers the same.
abbrev pub bit_of : ℕ → ℕ
bit_of n =
    if n == 16 then 8 else if n == 17 then 16 else if n == 18 then 32 else if n == 19 then 64 else 4

allows_lem :
    (caps : ℕ) (t : EnvelopeType)
    → allows caps t ≡ (ltb (code t) 12 || not (bit_and caps (bit_of (code t)) == 0))
unfolding allows code
allows_lem caps msg = refl
allows_lem caps edit = refl
allows_lem caps delete = refl
allows_lem caps delete_all = refl
allows_lem caps resync_req = refl
allows_lem caps attach_head = refl
allows_lem caps attach_chunk = refl
allows_lem caps contact_close = refl
allows_lem caps profile = refl
allows_lem caps pref = refl
allows_lem caps profile_req = refl
allows_lem caps sticker = refl
allows_lem caps sticker_ctrl = refl
allows_lem caps presence = refl
allows_lem caps chat_policy = refl
allows_lem caps typing = refl
allows_lem caps read = refl

peer_caps-noted :
    (rel : List ℕ) (caps old : ℕ) (rows : Table ℕ)
    → get rel rows ≡ some old
    → peer_caps rel (note_peer_caps rel caps rows) ≡ caps
unfolding peer_caps
peer_caps-noted rel caps old rows e = ap or_none (noted rel caps old rows e)

elsewhere :
    (rel rel' : List ℕ) (caps : ℕ) (t : EnvelopeType) (rows : Table ℕ) (drops : ℕ)
    → (bytes_eq rel rel' ≡ true)
      ⊎ (check_inbound rel' t (note_peer_caps rel caps rows) drops
          ≡ check_inbound rel' t rows drops)
unfolding check_inbound peer_caps
elsewhere rel rel' caps t rows drops = elim (Bool-cases (bytes_eq rel rel')) [
  | inl same ↦ inl same
  | inr apart ↦ inr (
      ap (λ o. if allows (or_none o) t then (drops, true) else ((drops + 1) % 2 ^ 64, false))
        (noted_other rel rel' caps rows apart))
]

answered :
    (rel : List ℕ) (caps old : ℕ) (t : EnvelopeType) (rows : Table ℕ) (drops : ℕ)
    → get rel rows ≡ some old
    → check_inbound rel t (note_peer_caps rel caps rows) drops ≡ (
        if ltb (code t) 12 || not (bit_and caps (bit_of (code t)) == 0)
        then (drops, true)
        else ((drops + 1) % 2 ^ 64, false))
unfolding check_inbound
answered rel caps old t rows drops e =
    ap (λ b. if b then (drops, true) else ((drops + 1) % 2 ^ 64, false))
      (ap (λ c. allows c t) (peer_caps-noted rel caps old rows e) ∙ allows_lem caps t)

same_answer :
    (rel : List ℕ) (caps old : ℕ) (t : EnvelopeType) (rows : Table ℕ) (drops : ℕ)
    → get rel rows ≡ some old
    → check_outbound caps t ≡ (check_inbound rel t (note_peer_caps rel caps rows) drops).1
unfolding check_inbound check_outbound
same_answer rel caps old t rows drops e =
    let there = ap (λ c. allows c t) (peer_caps-noted rel caps old rows e) in
    elim (Bool-cases (allows caps t)) [
      | inl through ↦ rw (there, through) refl
      | inr stopped ↦ rw (there, stopped) refl
    ]

-- Once a relationship that is known has its peer's capabilities, the inbound gate lets a type through exactly
-- when its number is below 12 or the capability that it needs is among them, and counts a drop otherwise; the
-- outbound gate answers the same; and the answers for the other relationships are as before.
pub check_inbound-gated :
    (rel rel' : List ℕ) (caps old : ℕ) (t : EnvelopeType) (rows : Table ℕ) (drops : ℕ)
    → get rel rows ≡ some old
    → (check_inbound rel t (note_peer_caps rel caps rows) drops ≡ (
        if ltb (code t) 12 || not (bit_and caps (bit_of (code t)) == 0)
        then (drops, true)
        else ((drops + 1) % 2 ^ 64, false)))
      × (check_outbound caps t ≡ (check_inbound rel t (note_peer_caps rel caps rows) drops).1)
      × ((bytes_eq rel rel' ≡ true)
          ⊎ (check_inbound rel' t (note_peer_caps rel caps rows) drops
              ≡ check_inbound rel' t rows drops))
check_inbound-gated rel rel' caps old t rows drops e = (
  answered rel caps old t rows drops e,
  same_answer rel caps old t rows drops e,
  elsewhere rel rel' caps t rows drops,
)
