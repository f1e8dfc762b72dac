-- ===== src/Sync/Drain/FailFast.antt =====
-- What a pass over the queue tries after a send has failed.
use s_chat6_core.Common.{
  subst, ℕ, ◌≡◌, refl, ap, arith, List, [], ◌∷◌, bytes_eq, bytes_eq_sound, bytes_eq_refl, Bool,
  true, false, not, ◌||◌, Option, none, some, Result, ok, >>=-eq-ok, Bool-cases, inl, inr, ◌⊎◌,
}
use s_chat6_core.Sync.Outbox.{OutboxRow, SyncError, due, mark_transmitted}
use s_chat6_core.Sync.Drain.{Db, Sent, contains, drain_rows, drain_outbox, drain_batch}

-- A send to the onion was tried.
abbrev mentions : List ℕ → List Sent → Bool
mentions onion [] = false
mentions onion (e ∷ log) = bytes_eq onion e.onion || mentions onion log

-- After a failed send there is none to the same onion.
abbrev pub FailFast : List Sent → Type 0
FailFast [] = Unit {0}
FailFast (e ∷ log) = ((e.success || not (mentions e.onion log)) ≡ true) × FailFast log

Option-cases {ℓ} : {A : Type ℓ} (x : Option A) → (x ≡ none) ⊎ ((a : A) × (x ≡ some a))
Option-cases none = inl refl
Option-cases (some a) = inr (a, refl)

-- What a log keeps to, when the onions of a list have failed before.
abbrev Spares : List (List ℕ) → List Sent → Type 0
Spares failed log =
    ((o : List ℕ) → contains o failed ≡ true → mentions o log ≡ false) × FailFast log

Spares-success :
    (onion : List ℕ) (failed : List (List ℕ)) (log : List Sent)
    → contains onion failed ≡ false
    → Spares failed log
    → Spares failed (record { onion = onion; success = true } ∷ log)
Spares-success onion failed log h s = (λ o k. other o k (s.0 o k), (refl, s.1))
  where
    other :
        (o : List ℕ)
        → contains o failed ≡ true
        → mentions o log ≡ false
        → mentions o (record { onion = onion; success = true } ∷ log) ≡ false
    other o k m = elim (Bool-cases (bytes_eq o onion)) [
      | inl same ↦
          absurd (ground (arith, h, k, ap (λ t. contains t failed) (bytes_eq_sound o onion same)))
      | inr differ ↦ rw differ m
    ]

Spares-failure :
    (onion : List ℕ) (failed : List (List ℕ)) (log : List Sent)
    → contains onion failed ≡ false
    → Spares (onion ∷ failed) log
    → Spares failed (record { onion = onion; success = false } ∷ log)
unfolding contains
Spares-failure onion failed log h s = (
  λ o k. other o k (s.0 o (ground arith)),
  (ap not (s.0 onion (ground (arith, bytes_eq_refl onion))), s.1),
)
  where
    other :
        (o : List ℕ)
        → contains o failed ≡ true
        → mentions o log ≡ false
        → mentions o (record { onion = onion; success = false } ∷ log) ≡ false
    other o k m = elim (Bool-cases (bytes_eq o onion)) [
      | inl same ↦
          absurd (ground (arith, h, k, ap (λ t. contains t failed) (bytes_eq_sound o onion same)))
      | inr differ ↦ rw differ m
    ]

ok_log :
    {d d' : Db} {l l' : List Sent}
    → ◌≡◌ {A = Result SyncError (Db × List Sent)} (ok (d, l)) (ok (d', l'))
    → l ≡ l'
ok_log e = ground (arith, e)

module _ (peer_onion : List ℕ → Option (List ℕ)) (send_record : OutboxRow → Bool) (now : ℕ) where
  drain_rows-Spares :
      (rows : List OutboxRow) (failed : List (List ℕ)) (db db' : Db) (log : List Sent)
      → drain_rows peer_onion send_record now rows failed db ≡ ok (db', log)
      → Spares failed log
  unfolding drain_rows
  drain_rows-Spares [] failed db db' log h =
      subst (λ l. Spares failed l) (ok_log h) (λ o k. refl, tt)
  drain_rows-Spares (row ∷ rows) failed db db' log h = elim (Option-cases (peer_onion row.rel_id)) [
    | inl gone ↦ drain_rows-Spares rows failed _ db' log (rw (gone, drain_rows) at h)
    | inr (onion, there) ↦ elim (Bool-cases (contains onion failed)) [
      | inl skip ↦ drain_rows-Spares rows failed _ db' log (rw (there, skip, drain_rows) at h)
      | inr try ↦ elim (Bool-cases (send_record row)) [
        | inl success ↦
            let (messages, marked, k) =
              >>=-eq-ok (mark_transmitted row.msg_id db.messages) _
                (rw (there, try, success, drain_rows) at h) in
            let (p, rest, e) = >>=-eq-ok _ _ k in
            subst (λ l. Spares failed l) (ok_log e)
              (Spares-success onion failed p.1 try (drain_rows-Spares rows failed _ p.0 p.1 rest))
        | inr failure ↦
            let (p, rest, e) = >>=-eq-ok _ _ (rw (there, try, failure, drain_rows) at h) in
            subst (λ l. Spares failed l) (ok_log e)
              (Spares-failure onion failed p.1 try
                (drain_rows-Spares rows (onion ∷ failed) _ p.0 p.1 rest))
      ]
    ]
  ]

  -- In a pass that ends without an error, after a send to a peer has failed no further send to the
  -- same peer is tried.
  pub drain_outbox-FailFast :
      (db db' : Db) (log : List Sent)
      → drain_outbox peer_onion send_record now db ≡ ok (db', log)
      → FailFast log
  unfolding drain_outbox
  drain_outbox-FailFast db db' log h =
      let (p, rest, e) =
        >>=-eq-ok (drain_rows peer_onion send_record now (due drain_batch now db.outbox) [] db) _
          h in
      subst FailFast (ok_log e)
        (drain_rows-Spares (due drain_batch now db.outbox) [] db p.0 p.1 rest).1
