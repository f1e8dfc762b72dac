-- ===== src/Sync/Resync/Verdict.antt =====
-- What a resync request may do to a row of the ledger, and the steps of the loop.
use s_chat6_core.Common.{
  ℕ, ◌≡◌, arith, subst, List, [], ◌∷◌, leb, true, false, Option, none, some, Result, ok, >>=-eq-ok,
  Bool-cases, inl, inr, All, Memᴰ,
}
use s_chat6_core.Messages.{MessageRow, acknowledged, is_past}
use s_chat6_core.Messages.Ledger.{message}
use s_chat6_core.Sync.View.{i64_key, is_missing}
use s_chat6_core.Sync.Outbox.{SyncError, transition, mark_acknowledged}
use s_chat6_core.Sync.Outbox.Laws.{acknowledged-stays}
use s_chat6_core.Sync.Resync.{
  Retransmit, unsettled, is_candidate, insert_by_seq, unacked_outbound, push_frame, through, answer,
}

abbrev pub frame_of : MessageRow → List ℕ → Retransmit
frame_of row frame = record { msg_id = row.msg_id; app_seq = row.app_seq; frame = frame }

module _ (stored : List ℕ → Option (List ℕ)) (now max : ℕ) (bitmap rel : List ℕ) where
  -- A frame that is sent again: it is the cached one of a row of the ledger that the request is about, that the
  -- peer's view lacks, and that has not expired.
  pub record IsDue (ledger : List MessageRow) (rt : Retransmit) : Type 0 where
    pub row : MessageRow
    pub held : Memᴰ row ledger
    pub asked : is_candidate rel (through max) row ≡ true
    pub missing : is_missing max bitmap row.app_seq ≡ true
    pub alive : is_past row.expires_at now ≡ false
    pub frame : List ℕ
    pub cached : stored row.msg_id ≡ some frame
    pub sent : rt ≡ frame_of row frame

  -- What has become of a row, in the ledger that the request leaves and in the frames that it sends.
  pub data Verdict (ledger' : List MessageRow) (out : List Retransmit) (row : MessageRow)
      : Type 0 where
    not_asked : is_candidate rel (through max) row ≡ false → Verdict ledger' out row
    acked :
        is_missing max bitmap row.app_seq ≡ false
        → (m : MessageRow) → message row.msg_id ledger' ≡ some m
        → m.state ≡ acknowledged
        → Verdict ledger' out row
    expired :
        is_missing max bitmap row.app_seq ≡ true
        → is_past row.expires_at now ≡ true
        → Verdict ledger' out row
    not_cached :
        is_missing max bitmap row.app_seq ≡ true
        → stored row.msg_id ≡ none
        → Verdict ledger' out row
    resent :
        is_missing max bitmap row.app_seq ≡ true
        → is_past row.expires_at now ≡ false
        → (frame : List ℕ) → stored row.msg_id ≡ some frame
        → Memᴰ (frame_of row frame) out
        → Verdict ledger' out row

  abbrev pub Asked : List MessageRow → MessageRow → Type 0
  Asked ledger row = Memᴰ row ledger × (is_candidate rel (through max) row ≡ true)

  insert_by_seq-All :
      (P : MessageRow → Type 0) (r : MessageRow) (xs : List MessageRow)
      → P r
      → All P xs
      → All P (insert_by_seq r xs)
  unfolding insert_by_seq
  insert_by_seq-All P r [] h a = (h, tt)
  insert_by_seq-All P r (x ∷ xs) h a =
      elim (Bool-cases (leb (i64_key r.app_seq) (i64_key x.app_seq))) [
        | inl before ↦ rw before (h, a)
        | inr after ↦ rw after (a.0, insert_by_seq-All P r xs h a.1)
      ]

  inserted-All :
      (P : MessageRow → Type 0) (r : MessageRow) (xs : List MessageRow)
      → All P (insert_by_seq r xs)
      → P r × All P xs
  unfolding insert_by_seq
  inserted-All P r [] a = a
  inserted-All P r (x ∷ xs) a = elim (Bool-cases (leb (i64_key r.app_seq) (i64_key x.app_seq))) [
    | inl before ↦ rw before at a
    | inr after ↦
        let (first, rest) = rw after at a in
        let (mine, others) = inserted-All P r xs rest in (mine, (first, others))
  ]

  -- The candidates are rows of the ledger.
  pub unacked-Asked :
      (ledger rows : List MessageRow)
      → All (λ r. Memᴰ r ledger) rows
      → All (Asked ledger) (unacked_outbound rel (through max) rows)
  unfolding unacked_outbound
  unacked-Asked ledger [] a = tt
  unacked-Asked ledger (r ∷ rs) a = elim (Bool-cases (is_candidate rel (through max) r)) [
    | inl is ↦ rw is (
        insert_by_seq-All (Asked ledger) r (unacked_outbound rel (through max) rs) (a.0, is)
          (unacked-Asked ledger rs a.1))
    | inr not_one ↦ rw not_one (unacked-Asked ledger rs a.1)
  ]

  -- The other rows are not asked about.
  pub unacked-Verdict :
      (ledger' : List MessageRow) (out : List Retransmit) (rows : List MessageRow)
      → All (Verdict ledger' out) (unacked_outbound rel (through max) rows)
      → All (Verdict ledger' out) rows
  unfolding unacked_outbound
  unacked-Verdict ledger' out [] a = tt
  unacked-Verdict ledger' out (r ∷ rs) a = elim (Bool-cases (is_candidate rel (through max) r)) [
    | inl is ↦
        let (mine, others) =
          inserted-All (Verdict ledger' out) r (unacked_outbound rel (through max) rs)
            (rw is at a) in
        (mine, unacked-Verdict ledger' out rs others)
    | inr not_one ↦ (not_asked not_one, unacked-Verdict ledger' out rs (rw not_one at a))
  ]

  pub ok_both :
      {l l' : List MessageRow} {o o' : List Retransmit}
      → ◌≡◌ {A = Result SyncError (List MessageRow × List Retransmit)} (ok (l, o)) (ok (l', o'))
      → (l ≡ l') × (o ≡ o')
  ok_both e = (ground (arith, e), ground (arith, e))

  pub asked-unsettled :
      (row : MessageRow) → is_candidate rel (through max) row ≡ true → unsettled row.state ≡ true
  unfolding is_candidate
  asked-unsettled row h = ground (arith, h)

  -- A frame more.
  pub pushed-Verdict :
      (ledger' : List MessageRow) (out : List Retransmit) (f : Option (List ℕ))
      (by row : MessageRow)
      → Verdict ledger' out row
      → Verdict ledger' (push_frame f by out) row
  unfolding push_frame
  pushed-Verdict ledger' out none by row v = v
  pushed-Verdict ledger' out (some frame) by row (not_asked a) = not_asked a
  pushed-Verdict ledger' out (some frame) by row (acked a m f k) = acked a m f k
  pushed-Verdict ledger' out (some frame) by row (expired a b) = expired a b
  pushed-Verdict ledger' out (some frame) by row (not_cached a b) = not_cached a b
  pushed-Verdict ledger' out (some frame) by row (resent a b f c m) = resent a b f c (Memᴰ.tail m)

  -- What is acknowledged stays so.
  pub answer-kept :
      (id : List ℕ) (rows ledger ledger' : List MessageRow) (out : List Retransmit) (m : MessageRow)
      → message id ledger ≡ some m
      → m.state ≡ acknowledged
      → answer stored now max bitmap rows ledger ≡ ok (ledger', out)
      → message id ledger' ≡ some m
  unfolding answer mark_acknowledged
  answer-kept id [] ledger ledger' out m f k h = subst (λ l. message id l ≡ some m) (ok_both h).0 f
  answer-kept id (row ∷ rows) ledger ledger' out m f k h =
      elim (Bool-cases (is_missing max bitmap row.app_seq)) [
        | inr covered ↦ elim (Bool-cases (unsettled row.state)) [
          | inl open_row ↦
              let (l, marked, rest) =
                >>=-eq-ok (transition row.msg_id acknowledged ledger) _
                  (rw (covered, open_row, answer) at h) in
              answer-kept id rows l ledger' out m
                (acknowledged-stays id row.msg_id acknowledged ledger l m f k marked) k rest
          | inr settled ↦
              answer-kept id rows ledger ledger' out m f k (rw (covered, settled, answer) at h)
        ]
        | inl lacks ↦ elim (Bool-cases (is_past row.expires_at now)) [
          | inl past ↦ answer-kept id rows ledger ledger' out m f k (rw (lacks, past, answer) at h)
          | inr alive ↦
              let (p, rest, e) =
                >>=-eq-ok (answer stored now max bitmap rows ledger) _
                  (rw (lacks, alive, answer) at h) in
              subst (λ l. message id l ≡ some m) (ok_both e).0
                (answer-kept id rows ledger p.0 p.1 m f k rest)
        ]
      ]
