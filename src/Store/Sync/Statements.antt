-- ===== src/Store/Sync/Statements.antt =====
-- What each statement does to the view: those that change it run after the bump of their batch.
use gwsdb.Prelude.{
  ◌<◌, Text, text_eq, text_eq_iff, Bool, true, false, none, some, List, [], ◌∷◌, ◌++◌, ◌≡◌, ◌⊎◌,
  refl, ◌∙◌, arith, Bool-cases, Option-cases, inl, inr, keep, subst, mem_text,
}
use gwsdb.Store.Schema.{PoolRow, Db}
use gwsdb.Store.Tables.{update, pool_row, count_checks}
use gwsdb.Store.Tables.Keys.{by_key-update, by_key-append, by_key-keep}
use gwsdb.Store.Sql.{
  Stmt, upsert_pool, fail_pool, update_checked, insert_checked, recount_history, exec,
  exec_upsert_pool, exec_fail_pool, exec_update_checked, exec_insert_checked, exec_recount_history,
  upsert_row, new_pool_row,
}
use gwsdb.Store.Sql.Valid.{pool_ip, IsValid}
use gwsdb.Store.Reads.{IpStatus, joined_status}
use gwsdb.Store.Sync.{view, Moved, Evolves}

-- The writes of a batch, after its bump: `t` has evolved from `s` and has a newer version.
pub record Ahead (s t : Db) : Type 0 where
  pub evolves : Evolves s t
  pub newer : s.version < t.version

-- The view of an address is as before, or its row carries the current version.
abbrev pub Restamped : Db → Db → Text → Type 0
Restamped t t' ip =
    (view t' ip ≡ view t ip) ⊎ ((r : IpStatus) × (view t' ip ≡ some r) × (r.revision ≡ t.version))

pub restamped :
    (s t u : Db)
    → Ahead s t
    → u.version ≡ t.version
    → u.reset_version ≡ t.reset_version
    → ((ip : Text) → Restamped t u ip)
    → Ahead s u
restamped s t u a same_version same_reset h = record {
  evolves = record {
    version_mono = omega (arith, a.evolves.version_mono);
    reset_mono = omega (arith, a.evolves.reset_mono);
    reset_fresh = rw same_reset a.evolves.reset_fresh;
    tracked = λ ip. track ip (a.evolves.tracked ip) (h ip);
  };
  newer = omega (arith, a.newer);
}
  where
    track :
        (ip : Text)
        → Moved s t ip ⊎ (view t ip ≡ view s ip)
        → Restamped t u ip
        → Moved s u ip ⊎ (view u ip ≡ view s ip)
    track ip (inl (inl m)) r = inl (inl (omega arith))
    track ip (inl (inr (q, e, m))) (inl same) = inl (inr (q, same ∙ e, m))
    track ip (inr e) (inl same) = inr (same ∙ e)
    track ip x (inr (r, e, stamp)) = inl (inr (r, e, omega (arith, a.newer)))

-- An update that stamps the rows that it touches.
update-Restamped :
    (t : Db) (p : PoolRow → Bool) (f : PoolRow → PoolRow)
    → ((r : PoolRow) → (f r).ip ≡ r.ip)
    → ((r : PoolRow) → (f r).revision ≡ t.version)
    → (ip : Text) → Restamped t (record t { pool = update p f t.pool }) ip
unfolding view joined_status
update-Restamped t p f same stamp ip = elim (Option-cases (pool_row ip t.pool)) [
  | inl e ↦ inl (ground (arith, by_key-update pool_ip ip p f t.pool same))
  | inr (r, e) ↦ elim (Bool-cases (p r)) [
    | inl hit ↦ inr (
      joined_status t.ptr_cache (f r),
      ground (arith, by_key-update pool_ip ip p f t.pool same),
      stamp r,
    )
    | inr miss ↦ inl (ground (arith, by_key-update pool_ip ip p f t.pool same))
  ]
]

upsert-Restamped :
    (t : Db) (new : PoolRow) (f : PoolRow → PoolRow)
    → ((r : PoolRow) → (f r).ip ≡ r.ip)
    → ((r : PoolRow) → (f r).revision ≡ t.version)
    → new.revision ≡ t.version
    → (ip : Text) → Restamped t (record t { pool = upsert_row new.ip new f t.pool }) ip
unfolding upsert_row view joined_status
upsert-Restamped t new f same stamp fresh ip = elim (Option-cases (pool_row new.ip t.pool)) [
  | inl e ↦ rw e (appended (Bool-cases (text_eq new.ip ip)) e)
  | inr (r, e) ↦ rw e (update-Restamped t (λ q. text_eq q.ip new.ip) f same stamp ip)
]
  where
    appended :
        (text_eq new.ip ip ≡ true) ⊎ (text_eq new.ip ip ≡ false)
        → pool_row new.ip t.pool ≡ none
        → Restamped t (record t { pool = t.pool ++ new ∷ [] }) ip
    appended (inl hit) e =
        let absent : pool_row ip t.pool ≡ none =
          subst (λ (k : Text). pool_row k t.pool ≡ none) ((text_eq_iff new.ip ip).0 hit) e in
        inr (
          joined_status t.ptr_cache new,
          ground (arith, absent, by_key-append pool_ip ip t.pool (new ∷ [])),
          fresh,
        )
    appended (inr miss) e = inl (ground (arith, by_key-append pool_ip ip t.pool (new ∷ [])))

-- The recount changes no column that a reader sees.
pub recount-view :
    (t : Db) (ips : List Text) (ip : Text) → view (exec (recount_history ips) t) ip ≡ view t ip
unfolding exec exec_recount_history view joined_status
recount-view t ips ip = ground (
  arith,
  by_key-update pool_ip ip (λ r. mem_text r.ip ips)
      (λ r. record r { history_count = count_checks r.ip t.checks }) t.pool (λ r. refl),
)

-- A row that is deleted is missing from the view; the others stand.
pub deletion-view :
    (t : Db) (p : PoolRow → Bool) (ip : Text)
    → IsValid t
    → (view (record t { pool = keep p t.pool }) ip ≡ none)
      ⊎ (view (record t { pool = keep p t.pool }) ip ≡ view t ip)
unfolding view
deletion-view t p ip v = elim (Option-cases (pool_row ip t.pool)) [
  | inl e ↦ inl (ground (arith, by_key-keep pool_ip ip p t.pool v.pool_keyed))
  | inr (r, e) ↦ elim (Bool-cases (p r)) [
    | inl kept ↦ inr (ground (arith, by_key-keep pool_ip ip p t.pool v.pool_keyed))
    | inr gone ↦ inl (ground (arith, by_key-keep pool_ip ip p t.pool v.pool_keyed))
  ]
]

-- The statements that write the pool, and stamp what they write.
abbrev pub IsStamping : Stmt → Type 0
IsStamping (upsert_pool latest success) = Unit
IsStamping (fail_pool ip at cutoff) = Unit
IsStamping (update_checked ip ok rtt at) = Unit
IsStamping (insert_checked ip mode rtt at) = Unit
IsStamping _ = ⊥

pub stamping-Ahead : (s t : Db) (c : Stmt) → IsStamping c → Ahead s t → Ahead s (exec c t)
unfolding exec exec_upsert_pool exec_fail_pool exec_update_checked exec_insert_checked new_pool_row
stamping-Ahead s t (upsert_pool latest success) w a =
    restamped s t _ a refl refl (upsert-Restamped t _ _ (λ r. refl) (λ r. refl) refl)
stamping-Ahead s t (fail_pool ip at cutoff) w a =
    restamped s t _ a refl refl (update-Restamped t _ _ (λ r. refl) (λ r. refl))
stamping-Ahead s t (update_checked ip ok rtt at) w a =
    restamped s t _ a refl refl (update-Restamped t _ _ (λ r. refl) (λ r. refl))
stamping-Ahead s t (insert_checked ip mode rtt at) w a =
    restamped s t _ a refl refl (upsert-Restamped t _ _ (λ r. refl) (λ r. refl) refl)
stamping-Ahead s t _ w a = absurd w
