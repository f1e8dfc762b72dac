-- ===== src/Sync/Ingress/Laws.antt =====
-- The tables after an envelope has been taken in, and a second delivery of it.
use s_chat6_core.Common.{
  ℕ, ◌≡◌, refl, arith, subst, List, Bool, true, Option, none, some, Result, ok, >>=-eq-ok,
  bytes_eq_refl, Bool-cases, inl, inr,
}
use s_chat6_core.Messages.{MessageRow}
use s_chat6_core.Messages.Ledger.{message}
use s_chat6_core.Common.{elem}
use s_chat6_core.Sync.View.Order.{Distinct}
use s_chat6_core.Sync.Delivery.{SkewError, clamp_sent_at}
use s_chat6_core.Sync.Ingress.{
  EnvelopeIn, Db, IngestOutcome, duplicate, stored, note_inbound_seq, inbound_row, ingest_row,
  ingest_envelope,
}

note_inbound_seq-elem : (s : ℕ) (seqs : List ℕ) → elem s (note_inbound_seq s seqs).0 ≡ true
unfolding note_inbound_seq
note_inbound_seq-elem s seqs = ground arith

note_inbound_seq-Distinct :
    (s : ℕ) (seqs : List ℕ) → Distinct seqs → Distinct (note_inbound_seq s seqs).0
unfolding note_inbound_seq
note_inbound_seq-Distinct s seqs d = elim (Bool-cases (elem s seqs)) [
  | inl there ↦ rw there d
  | inr fresh ↦ rw fresh (fresh, d)
]

ok_db :
    {d d' : Db} {o o' : IngestOutcome}
    → ◌≡◌ {A = Result SkewError (Db × IngestOutcome)} (ok (d, o)) (ok (d', o'))
    → d ≡ d'
ok_db e = ground (arith, e)

-- The state after an envelope that is new.
ingest_row-stored :
    (rel : List ℕ) (env : EnvelopeIn) (sent_at now : ℕ) (db : Db)
    → Distinct db.inbound_seqs
    → let r = (ingest_row none rel env sent_at now db).0 in
      (message env.msg_id r.messages ≡ some (inbound_row rel env sent_at now))
      × (elem env.app_seq r.inbound_seqs ≡ true)
      × Distinct r.inbound_seqs
unfolding ingest_row message
ingest_row-stored rel env sent_at now db d = (
  unfold inbound_row in rw (bytes_eq_refl env.msg_id) refl,
  note_inbound_seq-elem env.app_seq db.inbound_seqs,
  note_inbound_seq-Distinct env.app_seq db.inbound_seqs d,
)

known-duplicate :
    (row : MessageRow) (rel : List ℕ) (env : EnvelopeIn) (sent_at now : ℕ) (db : Db)
    → ingest_row (some row) rel env sent_at now db ≡ (db, duplicate)
unfolding ingest_row
known-duplicate row rel env sent_at now db = refl

-- An envelope that is taken in as new is found under its id, with a time that the clock rule has
-- passed; its seq is in the table of seqs, where no seq stands twice if none did before; and a
-- second delivery of it at the same time changes nothing and is a duplicate.
pub ingest-twice :
    (rel : List ℕ) (env : EnvelopeIn) (now : ℕ) (db db' : Db) (gap : Bool)
    → Distinct db.inbound_seqs
    → ingest_envelope rel env now db ≡ ok (db', stored gap)
    → (sent_at : ℕ) × (clamp_sent_at env.sent_at now ≡ ok sent_at)
      × (message env.msg_id db'.messages ≡ some (inbound_row rel env sent_at now))
      × (elem env.app_seq db'.inbound_seqs ≡ true)
      × Distinct db'.inbound_seqs
      × (ingest_envelope rel env now db' ≡ ok (db', duplicate))
unfolding ingest_envelope
ingest-twice rel env now db db' gap d h =
    let (sent_at, clamped, k) = >>=-eq-ok (clamp_sent_at env.sent_at now) _ h in
    by_row (message env.msg_id db.messages) sent_at clamped k
  where
    by_row :
        (t : Option MessageRow) (sent_at : ℕ)
        → clamp_sent_at env.sent_at now ≡ ok sent_at
        → ◌≡◌ {A = Result SkewError (Db × IngestOutcome)}
            (ok (ingest_row t rel env sent_at now db))
            (ok (db', stored gap))
        → (sent_at : ℕ) × (clamp_sent_at env.sent_at now ≡ ok sent_at)
          × (message env.msg_id db'.messages ≡ some (inbound_row rel env sent_at now))
          × (elem env.app_seq db'.inbound_seqs ≡ true)
          × Distinct db'.inbound_seqs
          × (ingest_envelope rel env now db' ≡ ok (db', duplicate))
    by_row (some row) sent_at c k = absurd (unfold ingest_row in ground (arith, k))
    by_row none sent_at c k =
        let same : (ingest_row none rel env sent_at now db).0 ≡ db' = ok_db k in
        let (found, noted, dist) = ingest_row-stored rel env sent_at now db d in
        let found' : message env.msg_id db'.messages ≡ some (inbound_row rel env sent_at now) =
          subst (λ (x : Db). message env.msg_id x.messages ≡ some (inbound_row rel env sent_at now))
            same found in
        (
          sent_at,
          c,
          found',
          subst (λ (x : Db). elem env.app_seq x.inbound_seqs ≡ true) same noted,
          subst (λ (x : Db). Distinct x.inbound_seqs) same dist,
          rw (c, found', known-duplicate (inbound_row rel env sent_at now) rel env sent_at now db')
              refl,
        )
