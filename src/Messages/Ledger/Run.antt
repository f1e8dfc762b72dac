-- ===== src/Messages/Ledger/Run.antt =====
-- What any run of inbound edits does to the ledger.
use s_chat6_core.Common.{
  subst, sym, ℕ, ◌+◌, max, ◌≡◌, refl, ap, arith, List, [], ◌∷◌, length, bytes_eq, bytes_eq_sound,
  Bool, true, if◌then◌else◌, Option, none, some, Bool-cases, inl, inr,
}
use s_chat6_core.Messages.{MessageRow, EditDecision, edit_decision, target_decision, mark_edited}
use s_chat6_core.Messages.Ledger.Edited.{Edited, Edited-refl, Related, Related-refl, Related-trans}
use s_chat6_core.Messages.Edits.{edit_decision-apply}
use s_chat6_core.Messages.EditDecision.{apply}
use s_chat6_core.Messages.Ledger.{message, update, EditIn, apply_decision, apply_edit, edit_target}
use s_chat6_core.Wire.Text.{max_body_bytes}

-- The edits of a connection, each with the time of its arrival.
abbrev pub run : List (EditIn × ℕ) → List MessageRow → List MessageRow
run [] rows = rows
run (e ∷ es) rows = run es (apply_edit e.0 e.1 rows).0

-- The id is the primary key of the table.
abbrev pub IdsUnique : List MessageRow → Type 0
IdsUnique [] = Unit {0}
IdsUnique (x ∷ xs) = (message x.msg_id xs ≡ none) × IdsUnique xs

update-absent :
    (id : List ℕ) (f : MessageRow → MessageRow) (xs : List MessageRow)
    → message id xs ≡ none
    → update id f xs ≡ xs
unfolding message update
update-absent id f [] h = refl
update-absent id f (x ∷ xs) h = ground (arith, update-absent id f xs)

update-Related :
    (id : List ℕ) (f : MessageRow → MessageRow) (xs : List MessageRow) (row : MessageRow)
    → IdsUnique xs
    → message id xs ≡ some row
    → Edited row (f row)
    → Related xs (update id f xs)
unfolding message update
update-Related id f [] row u h e = cc
update-Related id f (x ∷ xs) row u h e = elim (Bool-cases (bytes_eq x.msg_id id)) [
  | inl hit ↦
      let same : x ≡ row = ground (arith, h) in
      let absent : message id xs ≡ none = rw (bytes_eq_sound x.msg_id id hit) at u.0 in
      rw (hit, update-absent id f xs absent) (rw (← same) at e, Related-refl xs)
  | inr miss ↦
      let there : message id xs ≡ some row = ground (arith, h) in
      rw miss (Edited-refl x, update-Related id f xs row u.1 there e)
]

-- An edit that the decision applies changes the row as an edit may.
mark_edited-Edited :
    (row : MessageRow) (now seq bytes max : ℕ) (tombstoned : Bool) (cut : ℕ) (body : List ℕ)
    → edit_decision (some row) now seq bytes max tombstoned cut ≡ apply
    → Edited row (mark_edited row body seq)
unfolding mark_edited
mark_edited-Edited row now seq bytes max tombstoned cut body h =
    let (a, b, received, d, e, f, below, newer, i) =
      (edit_decision-apply row now seq bytes max tombstoned cut).0 h in
    let new = record row {
      payload = body;
      edited = true;
      edit_count = row.edit_count + 1;
      last_edit_seq = seq;
    } in
    elim (Bool-cases row.tombstone) [
      | inl gone ↦
          subst (λ r. Edited row r) (sym (ap (λ b. if b then row else new) gone)) (Edited-refl row)
      | inr there ↦
          subst (λ r. Edited row r) (sym (ap (λ b. if b then row else new) there))
            (record {
              id = refl;
              count = omega arith;
              seq = omega (arith, newer);
              cap = omega (arith, below);
              ours = inl received;
              deleted = inl there;
            })
    ]

-- Nothing is applied to a missing target.
missing-not_applied :
    (now seq bytes max : ℕ) (tombstoned : Bool) (cut : ℕ)
    → edit_decision none now seq bytes max tombstoned cut ≡ apply
    → ⊥
unfolding edit_decision target_decision
missing-not_applied now seq bytes max tombstoned cut h = ground (arith, h)

apply_decision-Related :
    (d : EditDecision) (id : List ℕ) (env : EditIn) (now : ℕ) (rows : List MessageRow)
    (t : Option MessageRow)
    → IdsUnique rows
    → message id rows ≡ t
    → edit_decision t now env.app_seq
        (length env.body)
        max_body_bytes
        env.tombstoned
        env.history_cut_seq
      ≡ d
    → Related rows (apply_decision d id env rows).0
unfolding apply_decision
apply_decision-Related apply id env now rows none u e h = absurd (
    missing-not_applied now env.app_seq (length env.body) max_body_bytes env.tombstoned
      env.history_cut_seq h)
apply_decision-Related apply id env now rows (some row) u e h =
    update-Related id (λ r. mark_edited r env.body env.app_seq) rows row u e
      (mark_edited-Edited row now env.app_seq (length env.body) max_body_bytes env.tombstoned
        env.history_cut_seq env.body h)
apply_decision-Related EditDecision.drop_tombstone id env now rows t u e h = Related-refl rows
apply_decision-Related EditDecision.drop_history_cut id env now rows t u e h = Related-refl rows
apply_decision-Related EditDecision.drop_missing id env now rows t u e h = Related-refl rows
apply_decision-Related EditDecision.drop_authorship id env now rows t u e h = Related-refl rows
apply_decision-Related EditDecision.drop_kind id env now rows t u e h = Related-refl rows
apply_decision-Related EditDecision.drop_expired id env now rows t u e h = Related-refl rows
apply_decision-Related EditDecision.drop_window id env now rows t u e h = Related-refl rows
apply_decision-Related EditDecision.drop_cap id env now rows t u e h = Related-refl rows
apply_decision-Related EditDecision.drop_stale_seq id env now rows t u e h = Related-refl rows
apply_decision-Related EditDecision.drop_too_large id env now rows t u e h = Related-refl rows

edit_target-Related :
    (ref : Option (List ℕ)) (env : EditIn) (now : ℕ) (rows : List MessageRow)
    → IdsUnique rows
    → Related rows (edit_target ref env now rows).0
unfolding edit_target
edit_target-Related none env now rows u = Related-refl rows
edit_target-Related (some id) env now rows u =
    apply_decision-Related _ id env now rows (message id rows) u refl refl

mark_edited-msg_id :
    (row : MessageRow) (body : List ℕ) (seq : ℕ) → (mark_edited row body seq).msg_id ≡ row.msg_id
unfolding mark_edited
mark_edited-msg_id row body seq = ground arith

message-update-none :
    (id id' : List ℕ) (body : List ℕ) (seq : ℕ) (xs : List MessageRow)
    → message id xs ≡ none
    → message id (update id' (λ r. mark_edited r body seq) xs) ≡ none
unfolding message update
message-update-none id id' body seq [] h = refl
message-update-none id id' body seq (x ∷ xs) h =
    ground (arith, message-update-none id id' body seq xs, mark_edited-msg_id x body seq)

update-IdsUnique :
    (id : List ℕ) (body : List ℕ) (seq : ℕ) (xs : List MessageRow)
    → IdsUnique xs
    → IdsUnique (update id (λ r. mark_edited r body seq) xs)
unfolding update
update-IdsUnique id body seq [] u = tt
update-IdsUnique id body seq (x ∷ xs) u =
    let rest = update-IdsUnique id body seq xs u.1 in
    let fresh = message-update-none x.msg_id id body seq xs u.0 in
    elim (Bool-cases (bytes_eq x.msg_id id)) [
      | inl hit ↦ rw (hit, mark_edited-msg_id x body seq) (fresh, rest)
      | inr miss ↦ rw miss (fresh, rest)
    ]

apply_decision-IdsUnique :
    (d : EditDecision) (id : List ℕ) (env : EditIn) (rows : List MessageRow)
    → IdsUnique rows
    → IdsUnique (apply_decision d id env rows).0
unfolding apply_decision
apply_decision-IdsUnique apply id env rows u = update-IdsUnique id env.body env.app_seq rows u
apply_decision-IdsUnique EditDecision.drop_tombstone id env rows u = u
apply_decision-IdsUnique EditDecision.drop_history_cut id env rows u = u
apply_decision-IdsUnique EditDecision.drop_missing id env rows u = u
apply_decision-IdsUnique EditDecision.drop_authorship id env rows u = u
apply_decision-IdsUnique EditDecision.drop_kind id env rows u = u
apply_decision-IdsUnique EditDecision.drop_expired id env rows u = u
apply_decision-IdsUnique EditDecision.drop_window id env rows u = u
apply_decision-IdsUnique EditDecision.drop_cap id env rows u = u
apply_decision-IdsUnique EditDecision.drop_stale_seq id env rows u = u
apply_decision-IdsUnique EditDecision.drop_too_large id env rows u = u

edit_target-IdsUnique :
    (ref : Option (List ℕ)) (env : EditIn) (now : ℕ) (rows : List MessageRow)
    → IdsUnique rows
    → IdsUnique (edit_target ref env now rows).0
unfolding edit_target
edit_target-IdsUnique none env now rows u = u
edit_target-IdsUnique (some id) env now rows u = apply_decision-IdsUnique _ id env rows u

-- In a ledger without two rows of one id, whatever edits arrive, in whatever order and at whatever
-- times, each row keeps its place, its number of edits and the seq of its last edit never fall, a
-- number that is at most 30 stays so, and a row that we sent or that is deleted stays as it is.
pub run-Related :
    (edits : List (EditIn × ℕ)) (rows : List MessageRow)
    → IdsUnique rows
    → Related rows (run edits rows)
unfolding apply_edit
run-Related [] rows u = Related-refl rows
run-Related (e ∷ es) rows u =
    let next = (edit_target e.0.ref_id e.0 e.1 rows).0 in
    Related-trans rows next (run es next) (edit_target-Related e.0.ref_id e.0 e.1 rows u)
      (run-Related es next (edit_target-IdsUnique e.0.ref_id e.0 e.1 rows u))
