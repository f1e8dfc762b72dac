-- ===== src/Sync/Resync/Answer.antt =====
-- The answer to a resync request, row by row.
use s_chat6_core.Common.{
  ℕ, ◌≡◌, ◌≢◌, refl, arith, subst, List, [], ◌∷◌, true, false, Option, none, some, ok, >>=-eq-ok,
  Bool-cases, inl, inr, All, Memᴰ, map-All, All-Memᴰ, Memᴰ-All,
}
use s_chat6_core.Messages.{MessageRow, acknowledged, is_past}
use s_chat6_core.Messages.Ledger.{message}
use s_chat6_core.Sync.View.{is_missing}
use s_chat6_core.Sync.Outbox.{transition, mark_acknowledged}
use s_chat6_core.Sync.Outbox.Laws.{in_state, transition-forward}
use s_chat6_core.Sync.Resync.{
  Retransmit, SessionState, broken, refuse_if_broken, is_candidate, unacked_outbound, push_frame,
  through, answer, handle_request,
}
use s_chat6_core.Sync.Resync.Verdict.{
  IsDue, Verdict, not_asked, acked, expired, not_cached, resent, Asked, unacked-Asked,
  unacked-Verdict, ok_both, asked-unsettled, pushed-Verdict, answer-kept,
}

module _ (stored : List ℕ → Option (List ℕ)) (now max : ℕ) (bitmap rel : List ℕ)
    (ledger : List MessageRow) where
  -- What is known of the answer for some of the candidates.
  abbrev IsAnswer : List MessageRow → List MessageRow → List Retransmit → Type 0
  IsAnswer rows ledger' out =
      All (IsDue stored now max bitmap rel ledger) out
      × All (Verdict stored now max bitmap rel ledger' out) rows

  pushed :
      (f : Option (List ℕ)) (row : MessageRow) (rows ledger' : List MessageRow)
      (out : List Retransmit)
      → stored row.msg_id ≡ f
      → Asked stored now max bitmap rel ledger row
      → is_missing max bitmap row.app_seq ≡ true
      → is_past row.expires_at now ≡ false
      → IsAnswer rows ledger' out
      → IsAnswer (row ∷ rows) ledger' (push_frame f row out)
  unfolding push_frame
  pushed none row rows ledger' out e h m p a = (a.0, (not_cached m e, a.1))
  pushed (some frame) row rows ledger' out e h m p a = (
    (
      record {
        row = row;
        held = h.0;
        asked = h.1;
        missing = m;
        alive = p;
        frame = frame;
        cached = e;
        sent = refl;
      },
      a.0,
    ),
    (
      resent m p frame e (Memᴰ.head refl),
      map-All (pushed-Verdict stored now max bitmap rel ledger' out (some frame) row) rows a.1,
    ),
  )

  answered :
      (rows now_ledger ledger' : List MessageRow) (out : List Retransmit)
      → All (Asked stored now max bitmap rel ledger) rows
      → answer stored now max bitmap rows now_ledger ≡ ok (ledger', out)
      → IsAnswer rows ledger' out
  unfolding answer mark_acknowledged
  answered [] now_ledger ledger' out a h = (
    subst (λ o. All (IsDue stored now max bitmap rel ledger) o)
        (ok_both stored now max bitmap rel h).1 tt,
    tt,
  )
  answered (row ∷ rows) now_ledger ledger' out a h =
      elim (Bool-cases (is_missing max bitmap row.app_seq)) [
        | inr covered ↦
            let open_row = asked-unsettled stored now max bitmap rel row a.0.1 in
            let (l, marked, rest) =
              >>=-eq-ok (transition row.msg_id acknowledged now_ledger) _
                (rw (covered, open_row, answer) at h) in
            let (before, found, written, _, _) =
              transition-forward row.msg_id acknowledged now_ledger l marked in
            let kept =
              answer-kept stored now max bitmap rel row.msg_id rows l ledger' out
                (in_state acknowledged before) written refl rest in
            let (due, verdicts) = answered rows l ledger' out a.1 rest in
            (due, (acked covered (in_state acknowledged before) kept refl, verdicts))
        | inl lacks ↦ elim (Bool-cases (is_past row.expires_at now)) [
          | inl past ↦
              let (due, verdicts) =
                answered rows now_ledger ledger' out a.1 (rw (lacks, past, answer) at h) in
              (due, (expired lacks past, verdicts))
          | inr alive ↦
              let (p, rest, e) =
                >>=-eq-ok (answer stored now max bitmap rows now_ledger) _
                  (rw (lacks, alive, answer) at h) in
              let (same, frames) = ok_both stored now max bitmap rel e in
              let ih =
                pushed (stored row.msg_id) row rows p.0 p.1 refl a.0 lacks alive
                  (answered rows now_ledger p.0 p.1 a.1 rest) in
              subst (λ o. IsAnswer (row ∷ rows) ledger' o) frames
                (subst (λ l. IsAnswer (row ∷ rows) l (push_frame (stored row.msg_id) row p.1)) same
                  ih)
        ]
      ]

  -- A request that is answered without an error comes from a relationship whose session is not broken. Every
  -- frame that is sent again is the cached one of a row of the ledger that is asked about, missing in the
  -- peer's view and not expired. And of every row of the ledger one of these holds: it is not asked about; the
  -- view covers it, and it is acknowledged in the ledger that results; it is missing and expired; it is missing
  -- and has no cached frame; or it is missing and alive, and its cached frame is sent. A row is asked about when
  -- it is outbound, of this relationship, queued or transmitted, and its seq is at most the last of the
  -- request's window, both as signed 64-bit numbers.
  pub handle_request-IsDue :
      (session_state : List ℕ → SessionState) (ledger' : List MessageRow) (out : List Retransmit)
      → handle_request stored now max bitmap session_state rel ledger ≡ ok (ledger', out)
      → (session_state rel ≢ broken)
        × All (IsDue stored now max bitmap rel ledger) out
        × All (Verdict stored now max bitmap rel ledger' out) ledger
  unfolding handle_request refuse_if_broken
  handle_request-IsDue session_state ledger' out h =
      let (done, whole, e) = >>=-eq-ok (refuse_if_broken (session_state rel)) _ h in
      let (due, verdicts) =
        answered (unacked_outbound rel (through max) ledger) ledger ledger' out
          (unacked-Asked stored now max bitmap rel ledger ledger (All-Memᴰ ledger)) e in
      (
        (λ b. absurd (ground (arith, whole, b))),
        due,
        unacked-Verdict stored now max bitmap rel ledger' out ledger verdicts,
      )

  -- A row that is asked about and that the view covers is acknowledged afterwards.
  pub covered-acked :
      (session_state : List ℕ → SessionState) (ledger' : List MessageRow) (out : List Retransmit)
      (row : MessageRow)
      → handle_request stored now max bitmap session_state rel ledger ≡ ok (ledger', out)
      → Memᴰ row ledger
      → is_candidate rel (through max) row ≡ true
      → is_missing max bitmap row.app_seq ≡ false
      → (m : MessageRow) × (message row.msg_id ledger' ≡ some m) × (m.state ≡ acknowledged)
  covered-acked session_state ledger' out row h there asked covered =
      let (_, _, verdicts) = handle_request-IsDue session_state ledger' out h in
      elim (Memᴰ-All (Verdict stored now max bitmap rel ledger' out) there verdicts) [
        | not_asked a ↦ absurd (ground (arith, a, asked))
        | acked a m f k ↦ (m, f, k)
        | expired a b ↦ absurd (ground (arith, a, covered))
        | not_cached a b ↦ absurd (ground (arith, a, covered))
        | resent a b frame c d ↦ absurd (ground (arith, a, covered))
      ]
