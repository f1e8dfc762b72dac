-- ===== src/Sync/Drain/Acked.antt =====
-- Messages that were acknowledged while they were still queued, and messages whose time has run out.
use s_chat6_core.Common.{
  ℕ, ◌≡◌, refl, ap, ◌∙◌, arith, List, [], ◌∷◌, bytes_eq, bytes_eq_sound, bytes_eq_refl,
  bytes_eq-sym, Bool, true, false, if◌then◌else◌, Option, none, some, ok, err, subst, sym, Result,
  Memᴰ, Bool-cases, inl, inr,
}
use s_chat6_core.Messages.{MessageRow, transmitted, acknowledged, failed}
use s_chat6_core.Messages.Ledger.{message}
use s_chat6_core.Sync.Outbox.{
  OutboxRow, SyncError, bad_transition, dequeue, due, find_row, mark_transmitted, transition,
  transition_row, legal, set_delivery,
}
use s_chat6_core.Sync.Outbox.Laws.{in_state, message-set_delivery, acknowledged-stays}
use s_chat6_core.Sync.View.{is_missing}
use s_chat6_core.Sync.Resync.{Retransmit, SessionState, is_candidate, through, handle_request}
use s_chat6_core.Sync.Resync.Answer.{covered-acked}
use s_chat6_core.Sync.Drain.{Db, drain_rows, drain_outbox, drain_batch, fail_all}

-- A message that is acknowledged cannot be marked as transmitted.
acknowledged-refused :
    (id : List ℕ) (messages : List MessageRow) (m : MessageRow)
    → message id messages ≡ some m
    → m.state ≡ acknowledged
    → mark_transmitted id messages ≡ err (bad_transition acknowledged transmitted)
unfolding mark_transmitted transition transition_row legal
acknowledged-refused id messages m f a = rw (f, a) refl

module _ (peer_onion : List ℕ → Option (List ℕ)) (send_record : OutboxRow → Bool) (now : ℕ)
    (sends : (r : OutboxRow) → send_record r ≡ true) (onion id : List ℕ) (m : MessageRow) where
  abbrev Fails : List OutboxRow → Db → Type 0
  Fails rows db = (e : SyncError) × (drain_rows peer_onion send_record now rows [] db ≡ err e)

  -- A row that is sent: the pass fails at it, or goes on with the messages that it leaves.
  sent_row :
      (x : OutboxRow) (xs : List OutboxRow) (db : Db) (o : List ℕ)
      → peer_onion x.rel_id ≡ some o
      → (r : Result SyncError (List MessageRow)) → mark_transmitted x.msg_id db.messages ≡ r
      → ((l : List MessageRow) (outbox : List OutboxRow)
          → mark_transmitted x.msg_id db.messages ≡ ok l
          → Fails xs (record { outbox = outbox; messages = l }))
      → Fails (x ∷ xs) db
  unfolding drain_rows
  sent_row x xs db o p (err e) k go = (e, rw (p, sends x, k, drain_rows) refl)
  sent_row x xs db o p (ok l) k go =
      let (e, f) = go l (dequeue x.msg_id db.outbox).0 k in
      (e, rw (p, sends x, k, f, drain_rows) refl)

  -- Any row before it: the pass fails, or goes on with the message as it was.
  after_row :
      (x : OutboxRow) (xs : List OutboxRow) (db : Db)
      → message id db.messages ≡ some m
      → m.state ≡ acknowledged
      → ((d : Db) → message id d.messages ≡ some m → Fails xs d)
      → (o : Option (List ℕ)) → peer_onion x.rel_id ≡ o
      → Fails (x ∷ xs) db
  unfolding drain_rows
  after_row x xs db f a go none k =
      let (e, h) =
        go (record { outbox = (dequeue x.msg_id db.outbox).0; messages = db.messages }) f in
      (e, rw (k, drain_rows) h)
  after_row x xs db f a go (some o) k =
      sent_row x xs db o k (mark_transmitted x.msg_id db.messages) refl λ l outbox marked.
        go (record { outbox = outbox; messages = l })
          (acknowledged-stays id x.msg_id transmitted db.messages l m f a
            (unfold mark_transmitted in marked))

  drain_rows-stops :
      (rows : List OutboxRow) (row : OutboxRow) (db : Db)
      → Memᴰ row rows
      → row.msg_id ≡ id
      → peer_onion row.rel_id ≡ some onion
      → message id db.messages ≡ some m
      → m.state ≡ acknowledged
      → Fails rows db
  unfolding drain_rows
  drain_rows-stops [] row db t i p f a = elim t [ ]
  drain_rows-stops (x ∷ xs) row db (Memᴰ.head e) i p f a =
      let refused = acknowledged-refused id db.messages m f a in
      let same : id ≡ x.msg_id = sym i ∙ ap (λ (r : OutboxRow). r.msg_id) e in
      let here : mark_transmitted x.msg_id db.messages
          ≡ err (bad_transition acknowledged transmitted) =
        subst (λ y. mark_transmitted y db.messages ≡ err (bad_transition acknowledged transmitted))
          same refused in
      sent_row x xs db onion (ap (λ (r : OutboxRow). peer_onion r.rel_id) (sym e) ∙ p) _ here
        (λ l outbox k. absurd (ground (arith, k, here)))
  drain_rows-stops (x ∷ xs) row db (Memᴰ.tail t) i p f a =
      after_row x xs db f a (λ d g. drain_rows-stops xs row d t i p g a) (peer_onion x.rel_id) refl

-- A pass over the queue ends in an error when a resync has acknowledged what it still holds. The conditions: a
-- request is answered without an error; its view covers a row of the ledger that it asks about; the queue still
-- has that row's frame among those that are due, and the peer's onion is known; the pass runs on the ledger that
-- the request leaves, with a transport on which every send succeeds.
pub acked-stops_drain :
    (stored : List ℕ → Option (List ℕ)) (at max : ℕ) (bitmap rel : List ℕ)
    (ledger : List MessageRow) (session_state : List ℕ → SessionState) (ledger' : List MessageRow)
    (out : List Retransmit) (queued_row : MessageRow) (peer_onion : List ℕ → Option (List ℕ))
    (send_record : OutboxRow → Bool) (now : ℕ) (outbox : List OutboxRow) (row : OutboxRow)
    (onion : List ℕ)
    → handle_request stored at max bitmap session_state rel ledger ≡ ok (ledger', out)
    → Memᴰ queued_row ledger
    → is_candidate rel (through max) queued_row ≡ true
    → is_missing max bitmap queued_row.app_seq ≡ false
    → Memᴰ row (due drain_batch now outbox)
    → row.msg_id ≡ queued_row.msg_id
    → peer_onion row.rel_id ≡ some onion
    → ((r : OutboxRow) → send_record r ≡ true)
    → (e : SyncError) × (drain_outbox peer_onion send_record now
          (record { outbox = outbox; messages = ledger' })
        ≡ err e)
unfolding drain_outbox
acked-stops_drain stored at max bitmap rel ledger session_state ledger' out queued_row peer_onion
      send_record now outbox row onion answered there asked covered is_due same known sends =
    let (m, found, acked) =
      covered-acked stored at max bitmap rel ledger session_state ledger' out queued_row answered
        there asked covered in
    let (e, stops) =
      drain_rows-stops peer_onion send_record now sends onion queued_row.msg_id m
        (due drain_batch now outbox) row (record { outbox = outbox; messages = ledger' }) is_due
        same known found acked in
    (e, rw stops refl)

if_same {ℓ} : {A : Type ℓ} (b : Bool) (a : A) → (if b then a else a) ≡ a
if_same true a = refl
if_same false a = refl

-- A failed message stays failed.
fail_all-keeps :
    (id : List ℕ) (expired : List OutboxRow) (ledger : List MessageRow) (m : MessageRow)
    → message id ledger ≡ some (in_state failed m)
    → message id (fail_all expired ledger) ≡ some (in_state failed m)
unfolding fail_all
fail_all-keeps id [] ledger m h = h
fail_all-keeps id (r ∷ rs) ledger m h =
    fail_all-keeps id rs (set_delivery r.msg_id failed ledger) m (
      message-set_delivery id r.msg_id failed ledger (in_state failed m) h
      ∙ ap some (if_same (bytes_eq id r.msg_id) (in_state failed m)))

-- Every message of the ledger whose row is among those that have expired is failed, whatever its
-- state was: none is dropped silently, and one that was acknowledged while its row was queued is
-- failed as well.
pub fail_all-failed :
    (id : List ℕ) (expired : List OutboxRow) (ledger : List MessageRow) (r : OutboxRow)
    (m : MessageRow)
    → find_row id expired ≡ some r
    → message id ledger ≡ some m
    → message id (fail_all expired ledger) ≡ some (in_state failed m)
unfolding fail_all find_row
fail_all-failed id [] ledger r m f h = cc
fail_all-failed id (x ∷ xs) ledger r m f h = elim (Bool-cases (bytes_eq x.msg_id id)) [
  | inl hit ↦
      let same : bytes_eq id x.msg_id ≡ true =
        ap (λ t. bytes_eq id t) (bytes_eq_sound x.msg_id id hit) ∙ bytes_eq_refl id in
      fail_all-keeps id xs (set_delivery x.msg_id failed ledger) m
        (message-set_delivery id x.msg_id failed ledger m h ∙ rw same refl)
  | inr miss ↦
      let there : find_row id xs ≡ some r = ground (arith, f) in
      let differ : bytes_eq id x.msg_id ≡ false = bytes_eq-sym x.msg_id id miss in
      fail_all-failed id xs (set_delivery x.msg_id failed ledger) r m there
        (message-set_delivery id x.msg_id failed ledger m h ∙ rw differ refl)
]
