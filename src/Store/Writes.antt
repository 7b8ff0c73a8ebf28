-- ===== src/Store/Writes.antt =====
-- The functions of src/store.ts that record checks and PTR answers, as the batches that they send.
-- `now` is the clock, read once where the source reads `Date.now()` at the top of the function; it
-- stands past the first six hours of 1970, so that the cutoff is a subtraction.
pub mod Retry
pub mod Limits
pub mod Joins
use gwsdb.Prelude.{
  starts_with, ℕ, ◌-◌, ◌*◌, Text, codes, text_eq, Bool, ◌||◌, Option, none, some, List, [], ◌∷◌,
  ◌++◌, map, if◌then◌else◌, is_some, keep, mem_text, chunks,
}
use gwsdb.CheckRows.{CheckRow, coalesce_check_rows}
use gwsdb.Store.Schema.{Db}
use gwsdb.Store.Tables.{pool_row}
use gwsdb.Store.Sql.{
  PtrCacheEntry, Stmt, bump_pool_revision, insert_check, insert_recheck, upsert_pool, fail_pool,
  update_checked, insert_checked, upsert_ptr, stamp_ptr, batch, batches,
}

abbrev pub max_batch : ℕ
max_batch = 500

abbrev pub failure_dedup_window_ms : ℕ
failure_dedup_window_ms = 6 * 60 * 60 * 1000

abbrev pub dedup_cutoff : ℕ → ℕ
dedup_cutoff now = now - failure_dedup_window_ms

-- `new Set(rows.filter((row) => row.ok).map((row) => row.ip))`, of which only `has` is used.
abbrev pub successful_ips : List CheckRow → List Text
successful_ips rows = map (λ r. r.ip) (keep (λ r. r.ok) rows)

unfoldable pub insert_stmt : ℕ → List Text → CheckRow → Stmt
insert_stmt cutoff successful row = insert_check row (row.ok || mem_text row.ip successful) cutoff

-- The batches of `insertCheckRows`.
unfoldable pub insert_check_rows_batches : ℕ → List CheckRow → List (List Stmt)
unfolding insert_stmt chunks
insert_check_rows_batches now rows =
    map (map (insert_stmt (dedup_cutoff now) (successful_ips rows))) (chunks max_batch rows)

unfoldable pub insert_check_rows : ℕ → List CheckRow → Db → Db
unfolding insert_check_rows_batches batches
insert_check_rows now rows db = batches (insert_check_rows_batches now rows) db

abbrev pub pool_upsert_chunk : ℕ
pool_upsert_chunk = 400

-- The value of `byIP` of `updatePoolBatch` at one key.
pub record PoolChange : Type 0 where
  pub latest : CheckRow
  pub success : Option CheckRow

unfoldable pub note_change : CheckRow → List (Text × PoolChange) → List (Text × PoolChange)
unfolding text_eq
note_change row [] =
    (row.ip, record { latest = row; success = if row.ok then some row else none }) ∷ []
note_change row ((k, c) ∷ m) =
    if text_eq k row.ip
    then (k, record { latest = row; success = if row.ok then some row else c.success }) ∷ m
    else (k, c) ∷ note_change row m

unfoldable pub gather_changes : List CheckRow → List (Text × PoolChange) → List (Text × PoolChange)
unfolding note_change
gather_changes [] m = m
gather_changes (row ∷ rows) m = gather_changes rows (note_change row m)

unfoldable pub change_stmt : ℕ → PoolChange → Stmt
change_stmt cutoff c = elim c.success [
  | none ↦ fail_pool c.latest.ip c.latest.checked_at cutoff
  | some s ↦ upsert_pool c.latest s
]

-- `[...byIP.values()]`
unfoldable pub pool_changes : List CheckRow → List PoolChange
unfolding gather_changes
pool_changes rows =
    map (λ (p : Text × PoolChange). p.1) (gather_changes (coalesce_check_rows rows) [])

-- The batches of `updatePoolBatch`; an empty map sends none, since it has no slice.
unfoldable pub update_pool_batches : ℕ → List CheckRow → List (List Stmt)
unfolding pool_changes change_stmt chunks
update_pool_batches now rows =
    map (λ chunk. bump_pool_revision ∷ map (change_stmt (dedup_cutoff now)) chunk)
      (chunks pool_upsert_chunk (pool_changes rows))

unfoldable pub update_pool_batch : ℕ → List CheckRow → Db → Db
unfolding update_pool_batches batches
update_pool_batch now rows db = batches (update_pool_batches now rows) db

-- `isKnownGood`
unfoldable pub is_known_good : Db → Text → Bool
is_known_good db ip = is_some (pool_row ip db.pool)

abbrev pub null_if_empty : Option Text → Option Text
null_if_empty none = none
null_if_empty (some []) = none
null_if_empty (some (c ∷ s)) = some (c ∷ s)

-- The reason that a failed probe is recorded under.
unfoldable pub recheck_reason : Option Text → Text
unfolding starts_with
recheck_reason reason = elim (null_if_empty reason) [
  | none ↦ codes "recheck:unknown"
  | some s ↦
      if starts_with s (codes "recheck:") || starts_with s (codes "scan:")
      then s
      else codes "recheck:" ++ s
]

-- `saveRecheckResult`
unfoldable pub save_recheck_result : CheckRow → Db → Db
unfolding batch is_known_good recheck_reason
save_recheck_result r db =
    if r.ok
    then batch (insert_recheck (record r { reason = some (codes "recheck:ok") }) ∷ []) db
    else if is_known_good db r.ip
    then batch
        (insert_recheck (record r { rtt_ms = none; reason = some (recheck_reason r.reason) }) ∷ [])
        db
    else db

-- `updatePoolForCheck`: `meta.changes` of the UPDATE is the number of rows with that key.
unfoldable pub update_pool_for_check : Text → Bool → Option ℕ → ℕ → Text → Db → Db
unfolding batch
update_pool_for_check ip ok rtt at mode db =
    let updated = batch (bump_pool_revision ∷ update_checked ip ok rtt at ∷ []) db in
    if is_some (pool_row ip db.pool)
    then updated
    else if ok
    then batch (bump_pool_revision ∷ insert_checked ip mode rtt at ∷ []) updated
    else updated

-- `savePTR`
unfoldable pub save_ptr : PtrCacheEntry → Db → Db
unfolding batch
save_ptr e db = batch (bump_pool_revision ∷ upsert_ptr e ∷ stamp_ptr e.ip e.checked_at ∷ []) db

abbrev pub ptr_batch_chunk : ℕ
ptr_batch_chunk = 400

-- The `flatMap` of `savePTRBatch`.
unfoldable pub ptr_stmts : List PtrCacheEntry → List Stmt
ptr_stmts [] = []
ptr_stmts (e ∷ es) = upsert_ptr e ∷ stamp_ptr e.ip e.checked_at ∷ ptr_stmts es

-- The batches of `savePTRBatch`.
unfoldable pub save_ptr_batches : List PtrCacheEntry → List (List Stmt)
unfolding ptr_stmts chunks
save_ptr_batches entries =
    map (λ chunk. bump_pool_revision ∷ ptr_stmts chunk) (chunks ptr_batch_chunk entries)

unfoldable pub save_ptr_batch : List PtrCacheEntry → Db → Db
unfolding save_ptr_batches batches
save_ptr_batch entries db = batches (save_ptr_batches entries) db
