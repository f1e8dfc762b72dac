-- ===== src/Live/Typing/Laws.antt =====
-- The indicators and the events that report them.
use s_chat6_core.Common.{
  ℕ, ◌+◌, ◌%◌, ◌^◌, ◌≤◌, ◌<◌, ◌≡◌, ◌⊎◌, refl, sym, ◌∙◌, ap, arith, List, bytes_eq, leb, Bool, true,
  false, not, if◌then◌else◌, Option, none, some, Bool-cases, inl, inr,
}
use s_chat6_core.Live.Table.{get, remove, is_in, get-remove}
use s_chat6_core.Live.Table.Laws.{
  IsMap, kept, passes, get-remove_other, get-insert, get-insert_other, get-retain,
  keys_where-passes, remove-IsMap,
}
use s_chat6_core.Live.Typing.{
  TypingTable, typing_ttl_secs, same_flag, is_lit, is_typing, note, sweep,
}

-- What is lit now is what the peer said, and the other peers are as before.
lit-now :
    (rel : List ℕ) (typing : Bool) (now : ℕ) (t : TypingTable)
    → now + typing_ttl_secs < 2 ^ 64
    → is_typing rel now (note rel typing now t).0 ≡ typing
unfolding note is_typing
lit-now rel false now t small = rw (get-remove rel t.inbound) refl
lit-now rel true now t small =
    let e : (now + 5) % 2 ^ 64 ≡ now + 5 = omega (arith, small) in
    ap (is_lit now) (get-insert rel _ t.inbound) ∙ ground (arith, e)

noted_other :
    (rel rel' : List ℕ) (typing : Bool) (now at : ℕ) (t : TypingTable)
    → bytes_eq rel rel' ≡ false
    → is_typing rel' at (note rel typing now t).0 ≡ is_typing rel' at t
unfolding note is_typing
noted_other rel rel' false now at t apart =
    ap (is_lit at) (get-remove_other rel rel' t.inbound apart)
noted_other rel rel' true now at t apart =
    ap (is_lit at) (get-insert_other rel rel' _ t.inbound apart)

others :
    (rel rel' : List ℕ) (typing : Bool) (now at : ℕ) (t : TypingTable)
    → (bytes_eq rel rel' ≡ true)
      ⊎ (is_typing rel' at (note rel typing now t).0 ≡ is_typing rel' at t)
others rel rel' typing now at t = elim (Bool-cases (bytes_eq rel rel')) [
  | inl same ↦ inl same
  | inr apart ↦ inr (noted_other rel rel' typing now at t apart)
]

reported :
    (rel : List ℕ) (typing : Bool) (now : ℕ) (t : TypingTable)
    → now + typing_ttl_secs < 2 ^ 64
    → (note rel typing now t).1 ≡ (
        if same_flag (is_typing rel now t) (is_typing rel now (note rel typing now t).0)
        then none
        else some (is_typing rel now (note rel typing now t).0))
unfolding note
reported rel typing now t small =
    ap (λ b. if same_flag (is_typing rel now t) b then none else some b)
      (sym (lit-now rel typing now t small))

-- A peer's TYPING sets its indicator as it says, reports exactly a change of the indicator, with its new value,
-- and leaves the indicators of the others as they are at any time; the clock is below 2^64 - 5.
pub note-changes :
    (rel rel' : List ℕ) (typing : Bool) (now at : ℕ) (t : TypingTable)
    → now + typing_ttl_secs < 2 ^ 64
    → (is_typing rel now (note rel typing now t).0 ≡ typing)
      × ((note rel typing now t).1 ≡ (
          if same_flag (is_typing rel now t) (is_typing rel now (note rel typing now t).0)
          then none
          else some (is_typing rel now (note rel typing now t).0)))
      × ((bytes_eq rel rel' ≡ true)
          ⊎ (is_typing rel' at (note rel typing now t).0 ≡ is_typing rel' at t))
note-changes rel rel' typing now at t small = (
  lit-now rel typing now t small,
  reported rel typing now t small,
  others rel rel' typing now at t,
)

lit_later :
    (now later : ℕ) (o : Option ℕ)
    → now ≤ later
    → is_lit later (kept (λ exp. not (leb exp now)) o) ≡ is_lit later o
lit_later now later none le = refl
lit_later now later (some exp) le = ground (arith, le)

-- A sweep, of a table with one entry for a relationship, changes no indicator at that time or later, and
-- reports exactly the relationships that have an entry which is over.
pub sweep-reports :
    (rel : List ℕ) (now later : ℕ) (t : TypingTable)
    → IsMap t.inbound
    → now ≤ later
    → (is_typing rel later (sweep now t).0 ≡ is_typing rel later t)
      × (is_in rel (sweep now t).1 ≡ passes (λ exp. leb exp now) (get rel t.inbound))
unfolding sweep is_typing
sweep-reports rel now later t m le = (
  ap (is_lit later) (get-retain _ rel t.inbound m) ∙ lit_later now later (get rel t.inbound) le,
  keys_where-passes _ rel t.inbound m,
)

-- When a peer says that it has stopped after its indicator is over and before a sweep, no event is reported, and
-- no later sweep reports the relationship either: whoever was told that the peer types is not told that it
-- stopped. The table has one entry for a relationship.
pub late_stop-silent :
    (rel : List ℕ) (now later exp : ℕ) (t : TypingTable)
    → IsMap t.inbound
    → get rel t.inbound ≡ some exp
    → exp ≤ now
    → ((note rel false now t).1 ≡ none)
      × (is_in rel (sweep later (note rel false now t).0).1 ≡ false)
unfolding note sweep is_typing
late_stop-silent rel now later exp t m e over =
    let dark : is_lit now (get rel t.inbound) ≡ false = rw e (ground (arith, over)) in
    (
      rw dark refl,
      keys_where-passes _ rel (remove rel t.inbound) (remove-IsMap rel t.inbound m)
          ∙ ap (passes _) (get-remove rel t.inbound),
    )
