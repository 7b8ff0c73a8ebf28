-- ===== src/Store/Sync/History.antt =====
-- The transactions that src/store.ts sends, and any sequence of them. D1 runs one batch after
-- another, so the batches of concurrent requests interleave, and nothing finer does.
use gwsdb.Prelude.{
  ℕ, Text, Bool, Option, List, [], ◌∷◌, map, none, some, ◌≡◌, ◌⊎◌, inl, inr, Option-cases, arith,
}
use gwsdb.CheckRows.{CheckRow}
use gwsdb.Store.Schema.{Db}
use gwsdb.Store.Sql.{
  Stmt, bump_pool_revision, insert_recheck, update_checked, insert_checked, delete_old_checks,
  recount_history, mark_reset, delete_dead, exec, exec_delete_dead, batch, PtrCacheEntry,
}
use gwsdb.Store.Sql.Valid.{IsValid, batch-IsValid}
use gwsdb.Store.Writes.{insert_stmt, PoolChange, change_stmt, ptr_stmts}
use gwsdb.Store.Prune.{check_history_retention}
use gwsdb.Store.Sync.{Evolves, Evolves-refl}
use gwsdb.Store.Sync.Statements.{Ahead, IsStamping}
use gwsdb.Store.Sync.Ptr.{save-Ahead}
use gwsdb.Store.Sync.Batches.{
  IsGood, IsGood-trans, bump-Ahead, AllSilent, AllStamping, silent-IsGood, bumped-IsGood,
}

pub data IsSent : List Stmt → Type 0 where
  inserts :
      (cutoff : ℕ) (ips : List Text) (rows : List CheckRow)
      → IsSent (map (insert_stmt cutoff ips) rows)
  changes :
      (cutoff : ℕ) (cs : List PoolChange)
      → IsSent (bump_pool_revision ∷ map (change_stmt cutoff) cs)
  rechecks : (row : CheckRow) → IsSent (insert_recheck row ∷ [])
  checks :
      (ip : Text) (ok : Bool) (rtt : Option ℕ) (at : ℕ)
      → IsSent (bump_pool_revision ∷ update_checked ip ok rtt at ∷ [])
  discovers :
      (ip mode : Text) (rtt : Option ℕ) (at : ℕ)
      → IsSent (bump_pool_revision ∷ insert_checked ip mode rtt at ∷ [])
  answers : (es : List PtrCacheEntry) → IsSent (bump_pool_revision ∷ ptr_stmts es)
  prunes :
      (ips : List Text)
      → IsSent (delete_old_checks ips check_history_retention ∷ recount_history ips ∷ [])
  evicts : (ips : List Text) → IsSent (bump_pool_revision ∷ mark_reset ∷ delete_dead ips ∷ [])

pub data Reach (s : Db) : Db → Type 0 where
  here : Reach s s
  next : {t : Db} {b : List Stmt} → Reach s t → IsSent b → Reach s (batch b t)

insert_stmts-AllSilent :
    (cutoff : ℕ) (ips : List Text) (rows : List CheckRow)
    → AllSilent (map (insert_stmt cutoff ips) rows)
unfolding insert_stmt
insert_stmts-AllSilent cutoff ips [] = tt
insert_stmts-AllSilent cutoff ips (row ∷ rows) = (tt, insert_stmts-AllSilent cutoff ips rows)

change_stmts-AllStamping :
    (cutoff : ℕ) (cs : List PoolChange) → AllStamping (map (change_stmt cutoff) cs)
change_stmts-AllStamping cutoff [] = tt
change_stmts-AllStamping cutoff (c ∷ cs) =
    (stamping (Option-cases c.success), change_stmts-AllStamping cutoff cs)
  where
    stamping :
        (c.success ≡ none) ⊎ ((r : CheckRow) × (c.success ≡ some r))
        → IsStamping (change_stmt cutoff c)
    stamping (inl e) = unfold change_stmt in rw e tt
    stamping (inr (r, e)) = unfold change_stmt in rw e tt

ptr_stmts-Ahead :
    (es : List PtrCacheEntry) (s t : Db) → Ahead s t → Ahead s (batch (ptr_stmts es) t)
unfolding ptr_stmts batch
ptr_stmts-Ahead [] s t a = a
ptr_stmts-Ahead (e ∷ es) s t a = ptr_stmts-Ahead es s _ (save-Ahead s t e a)

answers-Evolves :
    (es : List PtrCacheEntry) (s : Db) → Evolves s (batch (bump_pool_revision ∷ ptr_stmts es) s)
unfolding batch
answers-Evolves es s = (ptr_stmts-Ahead es s (exec bump_pool_revision s) (bump-Ahead s)).evolves

-- Deleting dead rows bumps the version, and gives up the snapshots of before.
evicts-Evolves :
    (ips : List Text) (s : Db)
    → IsValid s
    → Evolves s (batch (bump_pool_revision ∷ mark_reset ∷ delete_dead ips ∷ []) s)
unfolding batch exec exec_delete_dead
evicts-Evolves ips s v = record {
  version_mono = omega arith;
  reset_mono = omega (arith, v.reset);
  reset_fresh = inr (omega arith);
  tracked = λ k. inl (inl (omega arith));
}

pub IsSent-IsGood : {b : List Stmt} → IsSent b → (s : Db) → IsValid s → IsGood s (batch b s)
IsSent-IsGood (inserts cutoff ips rows) s v =
    silent-IsGood _ s v (insert_stmts-AllSilent cutoff ips rows)
IsSent-IsGood (changes cutoff cs) s v = bumped-IsGood _ s v (change_stmts-AllStamping cutoff cs)
IsSent-IsGood (rechecks row) s v = silent-IsGood (insert_recheck row ∷ []) s v (tt, tt)
IsSent-IsGood (checks ip ok rtt at) s v =
    bumped-IsGood (update_checked ip ok rtt at ∷ []) s v (tt, tt)
IsSent-IsGood (discovers ip mode rtt at) s v =
    bumped-IsGood (insert_checked ip mode rtt at ∷ []) s v (tt, tt)
IsSent-IsGood (answers es) s v = record {
  valid = batch-IsValid (bump_pool_revision ∷ ptr_stmts es) s v;
  evolves = answers-Evolves es s;
}
IsSent-IsGood (prunes ips) s v =
    silent-IsGood (delete_old_checks ips check_history_retention ∷ recount_history ips ∷ []) s v
      (tt, (tt, tt))
IsSent-IsGood (evicts ips) s v = record {
  valid = batch-IsValid (bump_pool_revision ∷ mark_reset ∷ delete_dead ips ∷ []) s v;
  evolves = evicts-Evolves ips s v;
}

-- Any history keeps the invariant, and changes a public row only under a version of its own.
pub Reach-IsGood : {s t : Db} → Reach s t → IsValid s → IsGood s t
Reach-IsGood {s} here v = record { valid = v; evolves = Evolves-refl s }
Reach-IsGood {s} (next {t} {b} r sent) v =
    let before = Reach-IsGood r v in
    IsGood-trans s t (batch b t) before (IsSent-IsGood sent t before.valid)

pub Reach-trans : {s t u : Db} → Reach s t → Reach t u → Reach s u
Reach-trans r here = r
Reach-trans r (next q sent) = next (Reach-trans r q) sent

-- If in a database an address has at most one row in the pool and one in the PTR cache, no row is
-- stamped above the version that was allocated last, and neither is the reset version above it, then
-- so it is after whatever transactions of the store, in whatever order.
pub Reach-IsValid : {s t : Db} → Reach s t → IsValid s → IsValid t
Reach-IsValid r v = (Reach-IsGood r v).valid
