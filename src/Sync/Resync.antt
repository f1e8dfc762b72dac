-- ===== src/Sync/Resync.antt =====
-- The answer to a peer's resync request: `handle_request` of crates/core/src/sync/resync.rs, with
-- `unacked_outbound` of crates/core/src/store/messages.rs. The cached frames, by message, and
-- the state of a relationship's session are arguments: they only read tables of other parts.
pub mod Verdict
pub mod Answer
use s_chat6_core.Common.{
  ℕ, ◌+◌, ◌%◌, ◌^◌, List, [], ◌∷◌, bytes_eq, leb, Bool, true, false, not, ◌&&◌, if◌then◌else◌,
  Option, none, some, Result, ok, err, ◌>>=◌, ◌>>◌,
}
use s_chat6_core.Messages.{MessageRow, DeliveryState, queued, transmitted, is_in, is_past}
use s_chat6_core.Sync.View.{i64_key, is_missing, bitmap_bits}
use s_chat6_core.Sync.Outbox.{SyncError, session_broken, mark_acknowledged}

pub record Retransmit : Type 0 where
  pub msg_id : List ℕ
  pub app_seq : ℕ
  pub frame : List ℕ

-- `state IN ('queued', 'transmitted')`.
unfoldable pub unsettled : DeliveryState → Bool
unsettled queued = true
unsettled transmitted = true
unsettled s = false

-- The `WHERE` of `unacked_outbound`; the seqs are compared as `i64`.
unfoldable pub is_candidate : List ℕ → ℕ → MessageRow → Bool
unfolding unsettled
is_candidate rel through row =
    bytes_eq row.rel_id rel
    && not (is_in row.direction)
    && leb (i64_key row.app_seq) (i64_key through)
    && unsettled row.state

-- `ORDER BY app_seq ASC`.
unfoldable pub insert_by_seq : MessageRow → List MessageRow → List MessageRow
insert_by_seq r [] = r ∷ []
insert_by_seq r (x ∷ xs) =
    if leb (i64_key r.app_seq) (i64_key x.app_seq) then r ∷ x ∷ xs else x ∷ insert_by_seq r xs

unfoldable pub unacked_outbound : List ℕ → ℕ → List MessageRow → List MessageRow
unfolding is_candidate insert_by_seq
unacked_outbound rel through [] = []
unacked_outbound rel through (r ∷ rs) =
    if is_candidate rel through r
    then insert_by_seq r (unacked_outbound rel through rs)
    else unacked_outbound rel through rs

-- A cached frame, or none, which is logged and skipped.
unfoldable pub push_frame : Option (List ℕ) → MessageRow → List Retransmit → List Retransmit
push_frame none row out = out
push_frame (some frame) row out =
    record { msg_id = row.msg_id; app_seq = row.app_seq; frame = frame } ∷ out

-- `None`, `Active` and `Broken`.
pub data SessionState : Type 0 where
  no_session : SessionState
  active : SessionState
  broken : SessionState

unfoldable pub refuse_if_broken : SessionState → Result SyncError (Unit {0})
refuse_if_broken broken = err session_broken
refuse_if_broken no_session = ok tt
refuse_if_broken active = ok tt

-- The last seq that the peer's view covers; the sum wraps in a release build.
abbrev pub through : ℕ → ℕ
through max = (max + bitmap_bits) % 2 ^ 64

module _ (stored_ciphertext : List ℕ → Option (List ℕ)) (now max : ℕ) (bitmap : List ℕ) where
  -- The `for` loop over the candidates.
  unfoldable pub answer :
      List MessageRow → List MessageRow → Result SyncError (List MessageRow × List Retransmit)
  unfolding push_frame
  answer [] ledger = ok (ledger, [])
  answer (row ∷ rows) ledger =
      let covered = do
        ledger' ← (if unsettled row.state then mark_acknowledged row.msg_id ledger else ok ledger)
        answer rows ledger'
      in let skipped = answer rows ledger in
        let pushed = do
          (ledger', out) ← answer rows ledger
          ok (ledger', push_frame (stored_ciphertext row.msg_id) row out)
        in if not (is_missing max bitmap row.app_seq)
          then covered
          else if is_past row.expires_at now
          then skipped
          else pushed

  unfoldable pub handle_request :
      (List ℕ → SessionState)
      → List ℕ
      → List MessageRow
      → Result SyncError (List MessageRow × List Retransmit)
  unfolding refuse_if_broken answer unacked_outbound
  handle_request session_state rel ledger = do
    refuse_if_broken (session_state rel)
    answer (unacked_outbound rel (through max) ledger) ledger
