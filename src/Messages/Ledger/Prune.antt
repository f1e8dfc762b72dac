-- ===== src/Messages/Ledger/Prune.antt =====
-- `prune_tombstones` and `tombstone_count` of crates/core/src/store/tombstones.rs. Of two tombstones with one
-- expiry, SQLite does not say which comes first; here it is the one that was recorded first.
use s_chat6_core.Common.{
  ℕ, zero, suc, ◌+◌, ◌≤◌, ◌≡◌, ◌++◌, take, take-append-drop, length-take, refl, ap, arith, List, [],
  ◌∷◌, length, drop, bytes_eq, bytes_eq_refl, leb, Bool, false, ◌&&◌, ◌||◌, if◌then◌else◌,
}
use s_chat6_core.Messages.Ledger.{Tombstone, is_tombstoned}

abbrev pub tombstone_cap : ℕ
tombstone_cap = 4_096

-- `DELETE … WHERE rel_id = ?1 AND expiry <= ?2`, with the number of rows that it removed.
unfoldable pub delete_expired : List ℕ → ℕ → List Tombstone → List Tombstone × ℕ
delete_expired rel now [] = ([], 0)
delete_expired rel now (t ∷ ts) =
    let (kept, n) = delete_expired rel now ts in
    if bytes_eq t.rel_id rel && leb t.expiry now then (kept, n + 1) else (t ∷ kept, n)

unfoldable insert_newest : Tombstone → List Tombstone → List Tombstone
insert_newest t [] = t ∷ []
insert_newest t (x ∷ xs) = if leb x.expiry t.expiry then t ∷ x ∷ xs else x ∷ insert_newest t xs

-- `SELECT … WHERE rel_id = ?1 ORDER BY expiry DESC`.
unfoldable newest_first : List ℕ → List Tombstone → List Tombstone
unfolding insert_newest
newest_first rel [] = []
newest_first rel (t ∷ ts) =
    let rest = newest_first rel ts in if bytes_eq t.rel_id rel then insert_newest t rest else rest

-- `ref_id IN (…)`.
unfoldable is_listed : List ℕ → List Tombstone → Bool
is_listed id [] = false
is_listed id (t ∷ ts) = bytes_eq t.ref_id id || is_listed id ts

-- `DELETE … WHERE rel_id = ?1 AND ref_id IN (…)`.
unfoldable delete_listed : List ℕ → List Tombstone → List Tombstone → List Tombstone × ℕ
unfolding is_listed
delete_listed rel listed [] = ([], 0)
delete_listed rel listed (t ∷ ts) =
    let (kept, n) = delete_listed rel listed ts in
    if bytes_eq t.rel_id rel && is_listed t.ref_id listed then (kept, n + 1) else (t ∷ kept, n)

-- `LIMIT -1 OFFSET ?2`: all but the newest.
unfoldable pub prune_tombstones : List ℕ → ℕ → List Tombstone → List Tombstone × ℕ
unfolding delete_expired newest_first delete_listed
prune_tombstones rel now stones =
    let (live, expired) = delete_expired rel now stones in
    let (kept, over) = delete_listed rel (drop tombstone_cap (newest_first rel live)) live in
    (kept, expired + over)

unfoldable pub tombstone_count : List ℕ → List Tombstone → ℕ
tombstone_count rel [] = 0
tombstone_count rel (t ∷ ts) =
    if bytes_eq t.rel_id rel then suc (tombstone_count rel ts) else tombstone_count rel ts

length-insert_newest :
    (t : Tombstone) (ts : List Tombstone) → length (insert_newest t ts) ≡ suc (length ts)
unfolding insert_newest
length-insert_newest t [] = refl
length-insert_newest t (x ∷ xs) = ground (arith, length-insert_newest t xs)

length-newest_first :
    (rel : List ℕ) (ts : List Tombstone) → length (newest_first rel ts) ≡ tombstone_count rel ts
unfolding newest_first tombstone_count
length-newest_first rel [] = refl
length-newest_first rel (t ∷ ts) =
    ground (arith, length-insert_newest t (newest_first rel ts), length-newest_first rel ts)

drop-all : (n : ℕ) (ts : List Tombstone) → length ts ≤ n → drop n ts ≡ []
drop-all zero [] h = refl
drop-all zero (t ∷ ts) h = absurd (omega arith)
drop-all (suc n) [] h = refl
drop-all (suc n) (t ∷ ts) h = drop-all n ts (omega arith)

delete_listed-nil : (rel : List ℕ) (ts : List Tombstone) → delete_listed rel [] ts ≡ (ts, 0)
unfolding delete_listed is_listed
delete_listed-nil rel [] = refl
delete_listed-nil rel (t ∷ ts) = ground (arith, delete_listed-nil rel ts)

-- An expired tombstone stops nothing, so that it may go.
is_tombstoned-delete_expired :
    (rel rel' id : List ℕ) (now later : ℕ) (ts : List Tombstone)
    → now ≤ later
    → is_tombstoned rel' id later (delete_expired rel now ts).0 ≡ is_tombstoned rel' id later ts
unfolding is_tombstoned delete_expired
is_tombstoned-delete_expired rel rel' id now later [] h = refl
is_tombstoned-delete_expired rel rel' id now later (t ∷ ts) h =
    ground (arith, is_tombstoned-delete_expired rel rel' id now later ts h)

-- When a relationship has at most 4096 tombstones that have not expired, pruning its tombstones
-- leaves the answer about every message of every relationship as it was, from then on.
pub prune-forgets_nothing :
    (rel rel' id : List ℕ) (now later : ℕ) (stones : List Tombstone)
    → now ≤ later
    → tombstone_count rel (delete_expired rel now stones).0 ≤ tombstone_cap
    → is_tombstoned rel' id later (prune_tombstones rel now stones).0
      ≡ is_tombstoned rel' id later stones
unfolding prune_tombstones
prune-forgets_nothing rel rel' id now later stones h few =
    let live = (delete_expired rel now stones).0 in
    let short = rw (← length-newest_first rel live) at few in
    let none_over = drop-all tombstone_cap (newest_first rel live) short in
    rw (none_over, delete_listed-nil rel live)
      (is_tombstoned-delete_expired rel rel' id now later stones h)

-- The tombstones that are not listed.
spared : List Tombstone → List Tombstone → ℕ
spared listed [] = 0
spared listed (t ∷ ts) =
    if is_listed t.ref_id listed then spared listed ts else suc (spared listed ts)

spared-insert_newest :
    (listed : List Tombstone) (t : Tombstone) (ts : List Tombstone)
    → spared listed (insert_newest t ts) ≡ spared listed (t ∷ ts)
unfolding insert_newest spared
spared-insert_newest listed t [] = refl
spared-insert_newest listed t (x ∷ xs) = ground (arith, spared-insert_newest listed t xs)

count-delete_listed :
    (rel : List ℕ) (listed ts : List Tombstone)
    → tombstone_count rel (delete_listed rel listed ts).0 ≡ spared listed (newest_first rel ts)
unfolding tombstone_count delete_listed newest_first spared
count-delete_listed rel listed [] = refl
count-delete_listed rel listed (t ∷ ts) =
    ground (
      arith,
      count-delete_listed rel listed ts,
      spared-insert_newest listed t (newest_first rel ts),
    )

spared-append :
    (listed xs ys : List Tombstone) → spared listed (xs ++ ys) ≡ spared listed xs + spared listed ys
unfolding spared
spared-append listed [] ys = omega arith
spared-append listed (x ∷ xs) ys = ground (arith, spared-append listed xs ys)

spared-le : (listed xs : List Tombstone) → spared listed xs ≤ length xs
unfolding spared
spared-le listed [] = omega arith
spared-le listed (x ∷ xs) = ground (arith, spared-le listed xs)

spared-cons :
    (t : Tombstone) (listed xs : List Tombstone) → spared (t ∷ listed) xs ≤ spared listed xs
unfolding spared is_listed
spared-cons t listed [] = omega arith
spared-cons t listed (x ∷ xs) = ground (arith, spared-cons t listed xs)

spared_self : (ts : List Tombstone) → spared ts ts ≡ 0
unfolding spared is_listed
spared_self [] = refl
spared_self (t ∷ ts) = ground (arith, bytes_eq_refl t.ref_id, spared_self ts, spared-cons t ts ts)

-- After a pruning, a relationship has at most 4096 tombstones, however many it had.
prune-within_cap :
    (rel : List ℕ) (now : ℕ) (stones : List Tombstone)
    → tombstone_count rel (prune_tombstones rel now stones).0 ≤ tombstone_cap
unfolding prune_tombstones
prune-within_cap rel now stones =
    let live = (delete_expired rel now stones).0 in
    let ordered = newest_first rel live in
    let over = drop tombstone_cap ordered in
    let parts = ap (spared over) (take-append-drop tombstone_cap ordered) in
    omega (
      arith,
      count-delete_listed rel over live,
      parts,
      spared-append over (take tombstone_cap ordered) over,
      spared_self over,
      spared-le over (take tombstone_cap ordered),
      length-take tombstone_cap ordered,
    )
