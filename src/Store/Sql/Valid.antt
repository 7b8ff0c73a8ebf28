-- ===== src/Store/Sql/Valid.antt =====
-- The invariant of the database, and that every statement keeps it.
use gwsdb.Prelude.{
  All-mono, ℕ, ◌≤◌, Text, text_eq, Bool, List, [], ◌∷◌, ◌≡◌, refl, arith, All, Bool-cases,
  Option-cases, inl, inr, keep,
}
use gwsdb.Store.Schema.{Check, PoolRow, PtrRow, Db}
use gwsdb.Store.Tables.{update, pool_row, ptr_row}
use gwsdb.Store.Tables.Keys.{IsKeyed, update-IsKeyed, append-IsKeyed, keep-IsKeyed}
use gwsdb.Store.Tables.Rows.{All-update, All-append_one, All-keep}
use gwsdb.Store.Sql.{
  Stmt, bump_pool_revision, insert_check, insert_recheck, upsert_pool, fail_pool, update_checked,
  insert_checked, delete_old_checks, recount_history, mark_reset, delete_dead, upsert_ptr,
  stamp_ptr, exec, exec_upsert_pool, exec_fail_pool, exec_update_checked, exec_insert_checked,
  exec_delete_old_checks, exec_recount_history, exec_delete_dead, exec_upsert_ptr, exec_stamp_ptr,
  upsert_row, batch, batches, new_pool_row, new_ptr_row, PtrCacheEntry, passes_insert_gate,
}

abbrev pub IsStamped : ℕ → PoolRow → Type 0
IsStamped version r = r.revision ≤ version

abbrev pub pool_ip : PoolRow → Text
pool_ip r = r.ip

abbrev pub ptr_ip : PtrRow → Text
ptr_ip r = r.ip

-- The keys are unique, and no revision is above the version that was allocated last.
pub record IsValid (db : Db) : Type 0 where
  pub pool_keyed : IsKeyed pool_ip db.pool
  pub ptr_keyed : IsKeyed ptr_ip db.ptr_cache
  pub stamped : All (IsStamped db.version) db.pool
  pub reset : db.reset_version ≤ db.version

module _ (db : Db) (v : IsValid db) where
  bump-IsValid : IsValid (exec bump_pool_revision db)
  unfolding exec
  bump-IsValid = record {
    pool_keyed = v.pool_keyed;
    ptr_keyed = v.ptr_keyed;
    stamped = All-mono (IsStamped db.version) _ db.pool (λ r h. omega arith) v.stamped;
    reset = omega (arith, v.reset);
  }

  -- A statement that leaves the pool, the PTR cache and the revisions alone.
  checks-IsValid : (cs : List Check) → IsValid (record db { checks = cs })
  checks-IsValid cs = record {
    pool_keyed = v.pool_keyed;
    ptr_keyed = v.ptr_keyed;
    stamped = v.stamped;
    reset = v.reset;
  }

  -- One that rewrites the pool's rows, and stamps them with an allocated revision.
  pool-IsValid :
      (p : PoolRow → Bool) (f : PoolRow → PoolRow)
      → ((r : PoolRow) → (f r).ip ≡ r.ip)
      → ((r : PoolRow) → IsStamped db.version r → IsStamped db.version (f r))
      → IsValid (record db { pool = update p f db.pool })
  pool-IsValid p f same stamp = record {
    pool_keyed = update-IsKeyed pool_ip p f db.pool same v.pool_keyed;
    ptr_keyed = v.ptr_keyed;
    stamped = All-update (IsStamped db.version) p f db.pool stamp v.stamped;
    reset = v.reset;
  }

  upsert-IsValid :
      (new : PoolRow) (f : PoolRow → PoolRow)
      → ((r : PoolRow) → (f r).ip ≡ r.ip)
      → ((r : PoolRow) → IsStamped db.version r → IsStamped db.version (f r))
      → IsStamped db.version new
      → IsValid (record db { pool = upsert_row new.ip new f db.pool })
  unfolding upsert_row
  upsert-IsValid new f same stamp fresh = elim (Option-cases (pool_row new.ip db.pool)) [
    | inl e ↦ rw e (record {
      pool_keyed = append-IsKeyed pool_ip db.pool new v.pool_keyed e;
      ptr_keyed = v.ptr_keyed;
      stamped = All-append_one (IsStamped db.version) db.pool new v.stamped fresh;
      reset = v.reset;
    })
    | inr (r, e) ↦ rw e (pool-IsValid (λ q. text_eq q.ip new.ip) f same stamp)
  ]

  deletion-IsValid : (p : PoolRow → Bool) → IsValid (record db { pool = keep p db.pool })
  deletion-IsValid p = record {
    pool_keyed = keep-IsKeyed pool_ip p db.pool v.pool_keyed;
    ptr_keyed = v.ptr_keyed;
    stamped = All-keep (IsStamped db.version) p db.pool v.stamped;
    reset = v.reset;
  }

  ptr-IsValid : (e : PtrCacheEntry) → IsValid (exec_upsert_ptr e db)
  unfolding exec_upsert_ptr new_ptr_row
  ptr-IsValid e = elim (Option-cases (ptr_row e.ip db.ptr_cache)) [
    | inl no_row ↦ rw no_row (record {
      pool_keyed = v.pool_keyed;
      ptr_keyed = append-IsKeyed ptr_ip db.ptr_cache (new_ptr_row e) v.ptr_keyed no_row;
      stamped = v.stamped;
      reset = v.reset;
    })
    | inr (r, row) ↦ rw row (record {
      pool_keyed = v.pool_keyed;
      ptr_keyed = update-IsKeyed ptr_ip _ _ db.ptr_cache (λ r. refl) v.ptr_keyed;
      stamped = v.stamped;
      reset = v.reset;
    })
  ]

  pub exec-IsValid : (s : Stmt) → IsValid (exec s db)
  unfolding exec exec_upsert_pool exec_fail_pool exec_update_checked exec_insert_checked
      exec_delete_old_checks exec_recount_history exec_delete_dead exec_stamp_ptr new_pool_row
  exec-IsValid bump_pool_revision = bump-IsValid
  exec-IsValid (insert_check row force cutoff) =
      elim (Bool-cases (passes_insert_gate row.ip force cutoff db.pool)) [
        | inl e ↦ rw e (checks-IsValid _)
        | inr e ↦ rw e v
      ]
  exec-IsValid (insert_recheck row) = checks-IsValid _
  exec-IsValid (upsert_pool latest success) =
      upsert-IsValid _ _ (λ r. refl) (λ r h. omega arith) (omega arith)
  exec-IsValid (fail_pool ip at cutoff) = pool-IsValid _ _ (λ r. refl) (λ r h. omega arith)
  exec-IsValid (update_checked ip ok rtt at) = pool-IsValid _ _ (λ r. refl) (λ r h. omega arith)
  exec-IsValid (insert_checked ip mode rtt at) =
      upsert-IsValid _ _ (λ r. refl) (λ r h. omega arith) (omega arith)
  exec-IsValid (delete_old_checks ips limit) = checks-IsValid _
  exec-IsValid (recount_history ips) = pool-IsValid _ _ (λ r. refl) (λ r h. h)
  exec-IsValid mark_reset = record {
    pool_keyed = v.pool_keyed;
    ptr_keyed = v.ptr_keyed;
    stamped = v.stamped;
    reset = omega arith;
  }
  exec-IsValid (delete_dead ips) = deletion-IsValid _
  exec-IsValid (upsert_ptr e) = ptr-IsValid e
  exec-IsValid (stamp_ptr ip at) = pool-IsValid _ _ (λ r. refl) (λ r h. omega arith)

pub batch-IsValid : (ss : List Stmt) (db : Db) → IsValid db → IsValid (batch ss db)
unfolding batch
batch-IsValid [] db v = v
batch-IsValid (s ∷ ss) db v = batch-IsValid ss (exec s db) (exec-IsValid db v s)

pub batches-IsValid : (bs : List (List Stmt)) (db : Db) → IsValid db → IsValid (batches bs db)
unfolding batches
batches-IsValid [] db v = v
batches-IsValid (b ∷ bs) db v = batches-IsValid bs (batch b db) (batch-IsValid b db v)
