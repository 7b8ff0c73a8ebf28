-- ===== src/Store/Sync/Ptr.antt =====
-- The two statements of a PTR answer: the cache row, and the stamp on the pool's row.
use gwsdb.Prelude.{
  Text, text_eq, text_eq_iff, Bool, false, some, [], ◌∷◌, ◌≡◌, refl, arith, Bool-cases,
  Option-cases, inl, inr,
}
use gwsdb.Store.Schema.{PoolRow, Db}
use gwsdb.Store.Tables.{pool_row, ptr_row}
use gwsdb.Store.Tables.Keys.{by_key-update, by_key-append, by_key-update_ne}
use gwsdb.Store.Sql.{
  upsert_ptr, stamp_ptr, exec, exec_upsert_ptr, exec_stamp_ptr, PtrCacheEntry, new_ptr_row,
}
use gwsdb.Store.Sql.Valid.{pool_ip, ptr_ip}
use gwsdb.Store.Reads.{joined_status}
use gwsdb.Store.Sync.{view}
use gwsdb.Store.Sync.Statements.{Ahead, Restamped, restamped}

-- The cache rows of other addresses stay.
ptr_row-upsert_ne :
    (e : PtrCacheEntry) (t : Db) (k : Text)
    → text_eq e.ip k ≡ false
    → ptr_row k (exec (upsert_ptr e) t).ptr_cache ≡ ptr_row k t.ptr_cache
unfolding exec exec_upsert_ptr new_ptr_row
ptr_row-upsert_ne e t k h = elim (Option-cases (ptr_row e.ip t.ptr_cache)) [
  | inl no_row ↦ rw no_row (ground (arith, by_key-append ptr_ip k t.ptr_cache (new_ptr_row e ∷ [])))
  | inr (r, row) ↦ rw row (by_key-update_ne ptr_ip e.ip k _ t.ptr_cache (λ r. refl) h)
]

-- The view of every address is as before, or its row carries the version of the batch.
saved-Restamped :
    (e : PtrCacheEntry) (t : Db) (ip : Text)
    → Restamped t (exec (stamp_ptr e.ip e.checked_at) (exec (upsert_ptr e) t)) ip
unfolding exec exec_stamp_ptr exec_upsert_ptr view joined_status
saved-Restamped e t ip = elim (Option-cases (pool_row ip t.pool)) [
  | inl no_row ↦ inl (ground (arith, by_key-update pool_ip ip touched stamp t.pool (λ r. refl)))
  | inr (r, row) ↦ elim (Bool-cases (text_eq r.ip e.ip)) [
    | inl hit ↦ inr (
      joined_status (exec (upsert_ptr e) t).ptr_cache (stamp r),
      ground (arith, by_key-update pool_ip ip touched stamp t.pool (λ r. refl)),
      refl,
    )
    | inr miss ↦ inl (
        ground (
          arith,
          by_key-update pool_ip ip touched stamp t.pool (λ r. refl),
          ptr_row-upsert_ne e t r.ip (ground (arith, text_eq_iff e.ip r.ip, text_eq_iff r.ip e.ip)),
        ))
  ]
]
  where
    touched : PoolRow → Bool
    touched r = text_eq r.ip e.ip

    stamp : PoolRow → PoolRow
    stamp r = record r { ptr_checked_at = some e.checked_at; revision = t.version }

pub save-Ahead :
    (s t : Db) (e : PtrCacheEntry)
    → Ahead s t
    → Ahead s (exec (stamp_ptr e.ip e.checked_at) (exec (upsert_ptr e) t))
unfolding exec exec_stamp_ptr exec_upsert_ptr
save-Ahead s t e a = restamped s t _ a refl refl (saved-Restamped e t)
