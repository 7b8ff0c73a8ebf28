-- ===== src/Store/Sync/Writers.antt =====
-- Each function of src/store.ts that writes the checks, the pool or the PTR cache is a history of
-- the transactions in Store/Sync/History.antt.
use gwsdb.Prelude.{
  ℕ, Text, Bool, true, false, Option, List, [], ◌∷◌, if◌then◌else◌, Bool-cases, inl, inr, map,
  is_some, chunks, unique,
}
use gwsdb.CheckRows.{CheckRow}
use gwsdb.Store.Schema.{Db}
use gwsdb.Store.Tables.{pool_row}
use gwsdb.Store.Sql.{
  Stmt, bump_pool_revision, update_checked, insert_checked, batch, batches, PtrCacheEntry,
}
use gwsdb.Store.Writes.{
  insert_check_rows, insert_check_rows_batches, update_pool_batch, update_pool_batches,
  save_recheck_result, update_pool_for_check, save_ptr, save_ptr_batch, save_ptr_batches, ptr_stmts,
  is_known_good, dedup_cutoff, successful_ips, max_batch, pool_upsert_chunk, pool_changes,
  ptr_batch_chunk,
}
use gwsdb.Store.Prune.{
  prune_over, evict, prune_chunk, prune_chunks, prune_check_history, over_limit, dead_ips,
  prune_ip_chunk,
}
use gwsdb.Store.Sync.History.{
  IsSent, inserts, changes, rechecks, checks, discovers, answers, prunes, evicts, Reach, here, next,
  Reach-trans,
}

-- One batch after another, each of which the program sends.
batches-Reach :
    {A : Type 0} (send : A → List Stmt)
    → ((a : A) → IsSent (send a))
    → (as_sent : List A) (s : Db) → Reach s (batches (map send as_sent) s)
unfolding batches
batches-Reach send h [] s = here
batches-Reach send h (a ∷ more) s =
    Reach-trans (next here (h a)) (batches-Reach send h more (batch (send a) s))

pub insert_check_rows-Reach :
    (now : ℕ) (rows : List CheckRow) (s : Db) → Reach s (insert_check_rows now rows s)
unfolding insert_check_rows insert_check_rows_batches
insert_check_rows-Reach now rows s =
    batches-Reach _ (λ b. inserts (dedup_cutoff now) (successful_ips rows) b)
      (chunks max_batch rows) s

pub update_pool_batch-Reach :
    (now : ℕ) (rows : List CheckRow) (s : Db) → Reach s (update_pool_batch now rows s)
unfolding update_pool_batch update_pool_batches
update_pool_batch-Reach now rows s =
    batches-Reach _ (λ b. changes (dedup_cutoff now) b)
      (chunks pool_upsert_chunk (pool_changes rows)) s

pub save_ptr_batch-Reach : (es : List PtrCacheEntry) (s : Db) → Reach s (save_ptr_batch es s)
unfolding save_ptr_batch save_ptr_batches
save_ptr_batch-Reach es s = batches-Reach _ (λ b. answers b) (chunks ptr_batch_chunk es) s

pub save_ptr-Reach : (e : PtrCacheEntry) (s : Db) → Reach s (save_ptr e s)
unfolding save_ptr ptr_stmts
save_ptr-Reach e s = next here (answers (e ∷ []))

pub save_recheck_result-Reach : (r : CheckRow) (s : Db) → Reach s (save_recheck_result r s)
unfolding save_recheck_result
save_recheck_result-Reach r s = elim (Bool-cases r.ok) [
  | inl e ↦ rw e (next here (rechecks _))
  | inr e ↦ rw e (elim (Bool-cases (is_known_good s r.ip)) [
    | inl known ↦ rw known (next here (rechecks _))
    | inr unknown ↦ rw unknown here
  ])
]

pub update_pool_for_check-Reach :
    (ip : Text) (ok : Bool) (rtt : Option ℕ) (at : ℕ) (mode : Text) (s : Db)
    → Reach s (update_pool_for_check ip ok rtt at mode s)
unfolding update_pool_for_check
update_pool_for_check-Reach ip ok rtt at mode s = elim (Bool-cases (is_some (pool_row ip s.pool))) [
  | inl e ↦ rw e (next here (checks ip ok rtt at))
  | inr e ↦ rw e (inserted ok)
]
  where
    inserted :
        (found : Bool)
        → Reach s (
            let t = batch (bump_pool_revision ∷ update_checked ip ok rtt at ∷ []) s in
            if found then batch (bump_pool_revision ∷ insert_checked ip mode rtt at ∷ []) t else t)
    inserted true = next (next here (checks ip ok rtt at)) (discovers ip mode rtt at)
    inserted false = next here (checks ip ok rtt at)

evict-Reach : (ips : List Text) (s : Db) → Reach s (evict ips s)
unfolding evict
evict-Reach [] s = here
evict-Reach (ip ∷ ips) s = next here (evicts (ip ∷ ips))

prune_over-Reach : (ips : List Text) (s : Db) → Reach s (prune_over ips s)
unfolding prune_over
prune_over-Reach [] s = here
prune_over-Reach (ip ∷ ips) s = next here (prunes (ip ∷ ips))

prune_chunks-Reach : (cs : List (List Text)) (s : Db) → Reach s (prune_chunks cs s)
unfolding prune_chunks prune_chunk
prune_chunks-Reach [] s = here
prune_chunks-Reach (c ∷ cs) s =
    let over = prune_over-Reach (over_limit c s) s in
    Reach-trans (Reach-trans over (evict-Reach (dead_ips c (prune_over (over_limit c s) s)) _))
      (prune_chunks-Reach cs _)

pub prune_check_history-Reach : (ips : List Text) (s : Db) → Reach s (prune_check_history ips s)
unfolding prune_check_history
prune_check_history-Reach ips s = prune_chunks-Reach (chunks prune_ip_chunk (unique ips)) s
