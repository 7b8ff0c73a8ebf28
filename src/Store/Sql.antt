-- ===== src/Store/Sql.antt =====
-- The statements that src/store.ts prepares, and what D1 does with each. `db.batch` runs its
-- statements in order, in one transaction. D1 answers every call: its outages are not modelled.
pub mod Valid
use gwsdb.Prelude.{
  ℕ, suc, ◌+◌, Text, codes, text_eq, Bool, true, false, not, ◌&&◌, ◌||◌, Option, none, some, List,
  [], ◌∷◌, ◌++◌, ltb, ◌==◌, if◌then◌else◌, length, keep, any, or_else, is_some, mem_text, join,
}
use gwsdb.CheckRows.{CheckRow}
use gwsdb.Store.Schema.{Check, PoolRow, PtrRow, Db}
use gwsdb.Store.Tables.{
  update, pool_row, ptr_row, before, is_true, count_checks, count_checks_after, has_success,
  add_check,
}

-- A lookup result for the PTR cache (src/types.ts).
pub record PtrCacheEntry : Type 0 where
  pub ip : Text
  pub ptr_hostnames : List Text
  pub lookup_ok : Bool
  pub ttl_seconds : ℕ
  pub checked_at : ℕ

pub data Stmt : Type 0 where
  bump_pool_revision : Stmt
  insert_check : CheckRow → Bool → ℕ → Stmt
  insert_recheck : CheckRow → Stmt
  upsert_pool : CheckRow → CheckRow → Stmt
  fail_pool : Text → ℕ → ℕ → Stmt
  update_checked : Text → Bool → Option ℕ → ℕ → Stmt
  insert_checked : Text → Text → Option ℕ → ℕ → Stmt
  delete_old_checks : List Text → ℕ → Stmt
  recount_history : List Text → Stmt
  mark_reset : Stmt
  delete_dead : List Text → Stmt
  upsert_ptr : PtrCacheEntry → Stmt
  stamp_ptr : Text → ℕ → Stmt

abbrev pub has_colon : Text → Bool
has_colon ip = any (λ c. c == b':') ip

abbrev pub join_strings : List Text → Text
join_strings values = join (codes "; ") values

-- `failureGateSQL`, on one row.
unfoldable pub failure_gate : ℕ → PoolRow → Bool
failure_gate cutoff r = is_true r.last_check_ok || before r.last_checked_at cutoff

-- The WHERE of `insertCheckSQL`: `force`, or a pool row for the address that passes the gate.
unfoldable pub passes_insert_gate : Text → Bool → ℕ → List PoolRow → Bool
unfolding failure_gate
passes_insert_gate ip force cutoff pool =
    force || any (λ r. text_eq r.ip ip && failure_gate cutoff r) pool

-- `historyCountIncrSQL`
unfoldable pub incremented_count : List Check → PoolRow → ℕ
incremented_count checks r = r.history_count + count_checks_after r.ip r.last_checked_at checks

unfoldable pub new_pool_row : Text → Text → ℕ → ℕ → ℕ → Bool → Db → PoolRow
new_pool_row ip scan_mode seen rtt checked ok db = record {
  ip = ip;
  is_ipv6 = has_colon ip;
  scan_mode = some scan_mode;
  first_seen = some seen;
  last_seen = some seen;
  last_rtt_ms = some rtt;
  times_seen = 1;
  last_checked_at = some checked;
  last_check_ok = some ok;
  ptr_checked_at = none;
  revision = db.version;
  history_count = count_checks ip db.checks;
}

-- `INSERT INTO ip_pool … ON CONFLICT(ip) DO UPDATE SET …`
unfoldable pub upsert_row : Text → PoolRow → (PoolRow → PoolRow) → List PoolRow → List PoolRow
unfolding update
upsert_row ip new f pool =
    if is_some (pool_row ip pool) then update (λ r. text_eq r.ip ip) f pool else pool ++ new ∷ []

-- The upsert of `updatePoolBatch`.
unfoldable pub exec_upsert_pool : CheckRow → CheckRow → Db → Db
unfolding upsert_row new_pool_row incremented_count
exec_upsert_pool latest success db =
    let rtt = or_else success.rtt_ms 0 in
    record db {
      pool =
          upsert_row latest.ip
            (new_pool_row latest.ip success.scan_mode success.checked_at rtt latest.checked_at
              latest.ok db)
            (λ r. record r {
              scan_mode = some success.scan_mode;
              last_seen = some success.checked_at;
              last_rtt_ms = some rtt;
              times_seen = r.times_seen + 1;
              last_checked_at = some latest.checked_at;
              last_check_ok = some latest.ok;
              revision = db.version;
              history_count = incremented_count db.checks r;
            })
            db.pool;
    }

-- The failure UPDATE of `updatePoolBatch`.
unfoldable pub exec_fail_pool : Text → ℕ → ℕ → Db → Db
unfolding update failure_gate incremented_count
exec_fail_pool ip at cutoff db = record db {
  pool =
      update (λ r. text_eq r.ip ip && failure_gate cutoff r)
        (λ r. record r {
          last_checked_at = some at;
          last_check_ok = some false;
          revision = db.version;
          history_count = incremented_count db.checks r;
        })
        db.pool;
}

-- The UPDATE of `updatePoolForCheck`.
unfoldable pub exec_update_checked : Text → Bool → Option ℕ → ℕ → Db → Db
unfolding update incremented_count
exec_update_checked ip ok rtt at db = record db {
  pool =
      update (λ r. text_eq r.ip ip)
        (λ r. record r {
          last_checked_at = some at;
          last_check_ok = some ok;
          last_rtt_ms = if ok then some (or_else rtt 0) else r.last_rtt_ms;
          last_seen = if ok then some at else r.last_seen;
          times_seen = if ok then r.times_seen + 1 else r.times_seen;
          history_count = incremented_count db.checks r;
          revision = db.version;
        })
        db.pool;
}

-- The INSERT of `updatePoolForCheck`.
unfoldable pub exec_insert_checked : Text → Text → Option ℕ → ℕ → Db → Db
unfolding upsert_row new_pool_row
exec_insert_checked ip scan_mode rtt at db = record db {
  pool =
      upsert_row ip (new_pool_row ip scan_mode at (or_else rtt 0) at true db)
        (λ r. record r {
          scan_mode = some scan_mode;
          last_seen = some at;
          last_rtt_ms = some (or_else rtt 0);
          times_seen = r.times_seen + 1;
          last_checked_at = some at;
          last_check_ok = some true;
          revision = db.version;
          history_count = count_checks ip db.checks;
        })
        db.pool;
}

-- `c` stands before `d` in ORDER BY checked_at DESC, id DESC.
unfoldable pub ranks_before : Check → Check → Bool
ranks_before c d =
    ltb d.checked_at c.checked_at || ((c.checked_at == d.checked_at) && ltb d.id c.id)

-- ROW_NUMBER() OVER (PARTITION BY ip ORDER BY checked_at DESC, id DESC)
unfoldable pub rank : Check → List Check → ℕ
unfolding ranks_before
rank d cs = suc (length (keep (λ c. text_eq c.ip d.ip && ranks_before c d) cs))

-- The DELETE of `pruneCheckHistory`.
unfoldable pub exec_delete_old_checks : List Text → ℕ → Db → Db
unfolding rank
exec_delete_old_checks ips limit db = record db {
  checks = keep (λ d. not (mem_text d.ip ips && ltb limit (rank d db.checks))) db.checks;
}

unfoldable pub exec_recount_history : List Text → Db → Db
unfolding update
exec_recount_history ips db = record db {
  pool =
      update (λ r. mem_text r.ip ips)
        (λ r. record r { history_count = count_checks r.ip db.checks }) db.pool;
}

unfoldable pub exec_delete_dead : List Text → Db → Db
exec_delete_dead ips db = record db {
  pool = keep (λ r. not (mem_text r.ip ips && not (has_success r.ip db.checks))) db.pool;
}

unfoldable pub new_ptr_row : PtrCacheEntry → PtrRow
new_ptr_row e = record {
  ip = e.ip;
  ptr_hostname = some (join_strings e.ptr_hostnames);
  lookup_ok = e.lookup_ok;
  ttl_seconds = e.ttl_seconds;
  checked_at = e.checked_at;
}

-- The upsert of `savePTR`: every column but the key is written anew.
unfoldable pub exec_upsert_ptr : PtrCacheEntry → Db → Db
unfolding update new_ptr_row
exec_upsert_ptr e db = record db {
  ptr_cache =
      if is_some (ptr_row e.ip db.ptr_cache)
      then update (λ r. text_eq r.ip e.ip)
          (λ r. record r {
            ptr_hostname = some (join_strings e.ptr_hostnames);
            lookup_ok = e.lookup_ok;
            ttl_seconds = e.ttl_seconds;
            checked_at = e.checked_at;
          })
          db.ptr_cache
      else db.ptr_cache ++ new_ptr_row e ∷ [];
}

unfoldable pub exec_stamp_ptr : Text → ℕ → Db → Db
unfolding update
exec_stamp_ptr ip at db = record db {
  pool =
      update (λ r. text_eq r.ip ip)
        (λ r. record r { ptr_checked_at = some at; revision = db.version }) db.pool;
}

unfoldable pub exec : Stmt → Db → Db
exec bump_pool_revision db = record db { version = db.version + 1 }
exec (insert_check row force cutoff) db =
    if passes_insert_gate row.ip force cutoff db.pool
    then record db { checks = add_check row db.checks }
    else db
exec (insert_recheck row) db = record db { checks = add_check row db.checks }
exec (upsert_pool latest success) db = exec_upsert_pool latest success db
exec (fail_pool ip at cutoff) db = exec_fail_pool ip at cutoff db
exec (update_checked ip ok rtt at) db = exec_update_checked ip ok rtt at db
exec (insert_checked ip mode rtt at) db = exec_insert_checked ip mode rtt at db
exec (delete_old_checks ips limit) db = exec_delete_old_checks ips limit db
exec (recount_history ips) db = exec_recount_history ips db
exec mark_reset db = record db { reset_version = db.version }
exec (delete_dead ips) db = exec_delete_dead ips db
exec (upsert_ptr e) db = exec_upsert_ptr e db
exec (stamp_ptr ip at) db = exec_stamp_ptr ip at db

-- `db.batch(statements)`
unfoldable pub batch : List Stmt → Db → Db
batch [] db = db
batch (s ∷ ss) db = batch ss (exec s db)

-- One `db.batch` after another.
unfoldable pub batches : List (List Stmt) → Db → Db
batches [] db = db
batches (b ∷ bs) db = batches bs (batch b db)
