-- ===== src/Store/Prune.antt =====
-- `pruneCheckHistory` of src/store.ts: the retention of checks, and the eviction of dead rows.
pub mod Keeps
pub mod Window
pub mod Rounds
pub mod Retention
use gwsdb.Prelude.{ℕ, Text, ◌&&◌, not, List, [], ◌∷◌, map, ltb, leb, keep, mem_text, unique, chunks}
use gwsdb.Store.Schema.{Db}
use gwsdb.Store.Tables.{has_success}
use gwsdb.Store.Sql.{
  bump_pool_revision, delete_old_checks, recount_history, mark_reset, delete_dead, batch,
}

abbrev pub check_history_retention : ℕ
check_history_retention = 300

abbrev pub prune_ip_chunk : ℕ
prune_ip_chunk = 99

-- The first SELECT: the addresses of the chunk whose maintained count is over the limit.
unfoldable pub over_limit : List Text → Db → List Text
over_limit chunk db =
    map (λ r. r.ip)
      (keep (λ r. mem_text r.ip chunk && ltb check_history_retention r.history_count) db.pool)

-- The second SELECT: those with a full window and no success in it.
unfoldable pub dead_ips : List Text → Db → List Text
dead_ips chunk db =
    map (λ r. r.ip)
      (keep
        (λ r.
          mem_text r.ip chunk
          && (leb check_history_retention r.history_count && not (has_success r.ip db.checks)))
        db.pool)

unfoldable pub prune_over : List Text → Db → Db
unfolding batch
prune_over [] db = db
prune_over (ip ∷ ips) db =
    batch (delete_old_checks (ip ∷ ips) check_history_retention ∷ recount_history (ip ∷ ips) ∷ [])
      db

unfoldable pub evict : List Text → Db → Db
unfolding batch
evict [] db = db
evict (ip ∷ ips) db = batch (bump_pool_revision ∷ mark_reset ∷ delete_dead (ip ∷ ips) ∷ []) db

-- One round of the loop.
unfoldable pub prune_chunk : List Text → Db → Db
unfolding over_limit dead_ips prune_over evict
prune_chunk chunk db =
    let pruned = prune_over (over_limit chunk db) db in evict (dead_ips chunk pruned) pruned

unfoldable pub prune_chunks : List (List Text) → Db → Db
unfolding prune_chunk
prune_chunks [] db = db
prune_chunks (chunk ∷ rest) db = prune_chunks rest (prune_chunk chunk db)

unfoldable pub prune_check_history : List Text → Db → Db
unfolding prune_chunks unique chunks
prune_check_history ips db = prune_chunks (chunks prune_ip_chunk (unique ips)) db
