-- ===== src/Sync/Outbox/Laws.antt =====
-- The delivery states of the messages of the ledger.
use s_chat6_core.Common.{
  ℕ, ◌≤◌, ◌<◌, ◌≡◌, refl, sym, ap, ◌∙◌, arith, subst, List, [], ◌∷◌, bytes_eq, bytes_eq_sound,
  bytes_eq_refl, true, if◌then◌else◌, Option, none, some, ok, Bool-cases, inl, inr,
}
use s_chat6_core.Messages.{
  MessageRow, DeliveryState, received, queued, transmitted, acknowledged, failed,
}
use s_chat6_core.Messages.Ledger.{message, update}
use s_chat6_core.Sync.Outbox.{set_delivery, legal, transition, transition_row}

abbrev pub in_state : DeliveryState → MessageRow → MessageRow
in_state to row = record row { state = to }

-- The row that is written is the one that is found, and the others are as they were.
pub message-set_delivery :
    (id id' : List ℕ) (to : DeliveryState) (rows : List MessageRow) (row : MessageRow)
    → message id rows ≡ some row
    → message id (set_delivery id' to rows)
      ≡ some (if bytes_eq id id' then in_state to row else row)
unfolding message set_delivery update
message-set_delivery id id' to [] row h = cc
message-set_delivery id id' to (x ∷ xs) row h = elim (Bool-cases (bytes_eq x.msg_id id)) [
  | inl hit ↦
      let same : x ≡ row = ground (arith, h) in
      let id_is : bytes_eq id id' ≡ bytes_eq x.msg_id id' =
        sym (ap (λ t. bytes_eq t id') (bytes_eq_sound x.msg_id id hit)) in
      elim (Bool-cases (bytes_eq x.msg_id id')) [
        | inl written ↦ rw (id_is, written, hit) (ap (λ r. some (in_state to r)) same)
        | inr other ↦ rw (id_is, other, hit) (ap some same)
      ]
  | inr miss ↦
      let there : message id xs ≡ some row = ground (arith, h) in
      elim (Bool-cases (bytes_eq x.msg_id id')) [
        | inl written ↦ rw (written, miss) (message-set_delivery id id' to xs row there)
        | inr other ↦ rw (other, miss) (message-set_delivery id id' to xs row there)
      ]
]

-- How far a delivery has come.
unfoldable pub rank : DeliveryState → ℕ
rank received = 0
rank queued = 0
rank transmitted = 1
rank acknowledged = 2
rank failed = 2

legal-forward :
    (from to : DeliveryState)
    → legal from to ≡ true
    → (rank from ≤ rank to) × (rank from < 2) × (0 < rank to)
unfolding legal rank
legal-forward from to h = ground (arith, h)

transition_row-forward :
    (id : List ℕ) (to : DeliveryState) (rows rows' : List MessageRow) (row : MessageRow)
    → message id rows ≡ some row
    → transition_row (some row) id to rows ≡ ok rows'
    → (message id rows' ≡ some (in_state to row))
      × (rank row.state ≤ rank to)
      × (rank row.state < 2)
unfolding transition_row
transition_row-forward id to rows rows' row f h = elim (Bool-cases (legal row.state to)) [
  | inl is ↦
      let same : set_delivery id to rows ≡ rows' = ground (arith, h) in
      let written : message id (set_delivery id to rows) ≡ some (in_state to row) =
        message-set_delivery id id to rows row f ∙ rw (bytes_eq_refl id) refl in
      let (up, not_final, later) = legal-forward row.state to is in
      (subst (λ r. message id r ≡ some (in_state to row)) same written, up, not_final)
  | inr not_legal ↦ absurd (ground (arith, h))
]

-- A transition that is made sets the state of its message, which is not yet acknowledged or failed, and
-- the delivery does not go back: queued comes before transmitted, and that before the two final states.
pub transition-forward :
    (id : List ℕ) (to : DeliveryState) (rows rows' : List MessageRow)
    → transition id to rows ≡ ok rows'
    → (row : MessageRow) × (message id rows ≡ some row)
      × (message id rows' ≡ some (in_state to row))
      × (rank row.state ≤ rank to)
      × (rank row.state < 2)
unfolding transition
transition-forward id to rows rows' h = found (message id rows) refl h
  where
    found :
        (t : Option MessageRow)
        → message id rows ≡ t
        → transition_row t id to rows ≡ ok rows'
        → (row : MessageRow) × (message id rows ≡ some row)
          × (message id rows' ≡ some (in_state to row))
          × (rank row.state ≤ rank to)
          × (rank row.state < 2)
    found none e k = absurd (unfold transition_row in ground (arith, k))
    found (some row) e k =
        let (a, b, c) = transition_row-forward id to rows rows' row e k in (row, e, a, b, c)

written :
    (o : Option MessageRow) (id : List ℕ) (to : DeliveryState) (rows rows' : List MessageRow)
    → transition_row o id to rows ≡ ok rows'
    → set_delivery id to rows ≡ rows'
unfolding transition_row
written none id to rows rows' h = absurd (ground (arith, h))
written (some row) id to rows rows' h = elim (Bool-cases (legal row.state to)) [
  | inl is ↦ ground (arith, h)
  | inr not_legal ↦ absurd (ground (arith, h))
]

-- A message that is acknowledged stays as it is, whatever transition is made.
pub acknowledged-stays :
    (id id' : List ℕ) (to : DeliveryState) (rows rows' : List MessageRow) (m : MessageRow)
    → message id rows ≡ some m
    → m.state ≡ acknowledged
    → transition id' to rows ≡ ok rows'
    → message id rows' ≡ some m
unfolding transition rank
acknowledged-stays id id' to rows rows' m h a t =
    let (row, found, _, _, open_row) = transition-forward id' to rows rows' t in
    let same : set_delivery id' to rows ≡ rows' = written (message id' rows) id' to rows rows' t in
    subst (λ r. message id r ≡ some m) same
      (message-set_delivery id id' to rows m h ∙ elim (Bool-cases (bytes_eq id id')) [
        | inl hit ↦
            let e : some m ≡ some row =
              sym h ∙ ap (λ t. message t rows) (bytes_eq_sound id id' hit) ∙ found in
            absurd (ground (arith, e, a, open_row))
        | inr other ↦ rw other refl
      ])
