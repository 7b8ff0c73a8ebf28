-- ===== src/Store/Writes/Joins.antt =====
-- Which addresses `updatePoolBatch` brings into the pool.
use gwsdb.Prelude.{
  subst, ◌⊎◌, ℕ, Text, text_eq, text_eq_iff, Bool, true, false, ◌&&◌, ◌||◌, List, [], ◌∷◌, ◌≡◌,
  refl, sym, ap, ◌∙◌, map, arith, Bool-cases, Option-cases, inl, inr, any, any-append, All, is_some,
  chunks, concat, concat-chunks,
}
use gwsdb.CheckRows.{CheckRow, coalesce_check_rows}
use gwsdb.CheckRows.Successes.{succeeded, coalesce-succeeded}
use gwsdb.Store.Schema.{PoolRow, Db}
use gwsdb.Store.Tables.{pool_row}
use gwsdb.Store.Sql.{
  bump_pool_revision, exec, exec_upsert_pool, exec_fail_pool, upsert_row, batch, batches,
}
use gwsdb.Store.Writes.{
  PoolChange, note_change, gather_changes, change_stmt, pool_changes, update_pool_batches,
  update_pool_batch, dedup_cutoff, pool_upsert_chunk,
}
use gwsdb.Store.Prune.Keeps.{in_pool, any-update}

abbrev Changes : Type 0
Changes = List (Text × PoolChange)

-- The change brings the address into the pool.
abbrev joins : Text → PoolChange → Bool
joins ip c = text_eq c.latest.ip ip && is_some c.success

abbrev IsFiledChange : Text × PoolChange → Type 0
IsFiledChange (k, c) = c.latest.ip ≡ k

note_change-IsFiled :
    (row : CheckRow) (m : Changes) → All IsFiledChange m → All IsFiledChange (note_change row m)
unfolding note_change
note_change-IsFiled row [] a = (refl, tt)
note_change-IsFiled row ((k, c) ∷ m) (x, a) = elim (Bool-cases (text_eq k row.ip)) [
  | inl same ↦ rw same (sym ((text_eq_iff k row.ip).0 same), a)
  | inr other ↦ rw other (x, note_change-IsFiled row m a)
]

note_change-joins :
    (ip : Text) (row : CheckRow) (m : Changes)
    → All IsFiledChange m
    → any (λ (p : Text × PoolChange). joins ip p.1) (note_change row m)
      ≡ (succeeded ip row || any (λ (p : Text × PoolChange). joins ip p.1) m)
unfolding note_change
note_change-joins ip row [] a = elim (Bool-cases row.ok) [
  | inl ok ↦ rw ok (ground arith)
  | inr ok ↦ rw ok (ground arith)
]
note_change-joins ip row ((k, c) ∷ m) (x, a) = elim (Bool-cases (text_eq k row.ip)) [
  | inr other ↦ rw other (ground (arith, note_change-joins ip row m a))
  | inl same ↦
      let one = ap (λ t. text_eq t ip) (x ∙ (text_eq_iff k row.ip).0 same) in
      elim (Bool-cases row.ok) [
        | inl ok ↦ rw (same, ok) (ground (arith, one))
        | inr ok ↦ rw (same, ok) (ground (arith, one))
      ]
]

gather_changes-joins :
    (ip : Text) (rows : List CheckRow) (m : Changes)
    → All IsFiledChange m
    → any (λ (p : Text × PoolChange). joins ip p.1) (gather_changes rows m)
      ≡ (any (λ (p : Text × PoolChange). joins ip p.1) m || any (succeeded ip) rows)
unfolding gather_changes
gather_changes-joins ip [] m a = ground arith
gather_changes-joins ip (row ∷ rows) m a = ground (
  arith,
  gather_changes-joins ip rows (note_change row m) (note_change-IsFiled row m a),
  note_change-joins ip row m a,
)

any-values :
    (ip : Text) (m : Changes)
    → any (joins ip) (map (λ (p : Text × PoolChange). p.1) m)
      ≡ any (λ (p : Text × PoolChange). joins ip p.1) m
any-values ip [] = refl
any-values ip (p ∷ m) = ap (λ b. joins ip p.1 || b) (any-values ip m)

pool_changes-joins :
    (ip : Text) (rows : List CheckRow)
    → any (joins ip) (pool_changes rows) ≡ any (succeeded ip) rows
unfolding pool_changes
pool_changes-joins ip rows =
    any-values ip _
    ∙ gather_changes-joins ip (coalesce_check_rows rows) [] tt
    ∙ coalesce-succeeded ip rows

is_some-pool_row :
    (ip : Text) (pool : List PoolRow)
    → is_some (pool_row ip pool) ≡ any (λ (r : PoolRow). text_eq r.ip ip) pool
is_some-pool_row ip [] = refl
is_some-pool_row ip (r ∷ pool) = ground (arith, is_some-pool_row ip pool)

in_pool-upsert_row :
    (ip k : Text) (new : PoolRow) (f : PoolRow → PoolRow) (pool : List PoolRow)
    → new.ip ≡ k
    → ((r : PoolRow) → (f r).ip ≡ r.ip)
    → any (λ (r : PoolRow). text_eq r.ip ip) (upsert_row k new f pool)
      ≡ (any (λ (r : PoolRow). text_eq r.ip ip) pool || text_eq k ip)
unfolding upsert_row
in_pool-upsert_row ip k new f pool e h = elim (Bool-cases (is_some (pool_row k pool))) [
  | inr absent ↦ rw absent (
      any-append (λ (r : PoolRow). text_eq r.ip ip) pool (new ∷ [])
      ∙ ground (arith, ap (λ t. text_eq t ip) e))
  | inl found ↦ rw found (
      any-update (λ (r : PoolRow). text_eq r.ip ip) _ f pool (λ r. ap (λ t. text_eq t ip) (h r))
      ∙ already (Bool-cases (text_eq k ip)) found)
]
  where
    already :
        (text_eq k ip ≡ true) ⊎ (text_eq k ip ≡ false)
        → is_some (pool_row k pool) ≡ true
        → any (λ (r : PoolRow). text_eq r.ip ip) pool
          ≡ (any (λ (r : PoolRow). text_eq r.ip ip) pool || text_eq k ip)
    already (inr other) found = ground arith
    already (inl same) found =
        let there : is_some (pool_row ip pool) ≡ true =
          subst (λ t. is_some (pool_row t pool) ≡ true) ((text_eq_iff k ip).0 same) found in
        ground (arith, is_some-pool_row ip pool)

exec-joins :
    (ip : Text) (cutoff : ℕ) (c : PoolChange) (db : Db)
    → in_pool ip (exec (change_stmt cutoff c) db) ≡ (in_pool ip db || joins ip c)
unfolding change_stmt exec exec_upsert_pool exec_fail_pool
exec-joins ip cutoff c db = elim (Option-cases c.success) [
  | inl failed ↦
      rw failed
        (any-update (λ (r : PoolRow). text_eq r.ip ip) _ _ db.pool (λ r. refl) ∙ ground arith)
  | inr (s, won) ↦
      rw won (in_pool-upsert_row ip c.latest.ip _ _ db.pool refl (λ r. refl) ∙ ground arith)
]

batch-joins :
    (ip : Text) (cutoff : ℕ) (cs : List PoolChange) (db : Db)
    → in_pool ip (batch (map (change_stmt cutoff) cs) db) ≡ (in_pool ip db || any (joins ip) cs)
unfolding batch
batch-joins ip cutoff [] db = ground arith
batch-joins ip cutoff (c ∷ cs) db =
    ground
      (arith, batch-joins ip cutoff cs (exec (change_stmt cutoff c) db), exec-joins ip cutoff c db)

batches-joins :
    (ip : Text) (cutoff : ℕ) (css : List (List PoolChange)) (db : Db)
    → in_pool ip
        (batches (map (λ chunk. bump_pool_revision ∷ map (change_stmt cutoff) chunk) css) db)
      ≡ (in_pool ip db || any (joins ip) (concat css))
unfolding batches batch exec
batches-joins ip cutoff [] db = ground arith
batches-joins ip cutoff (cs ∷ css) db =
    let bumped = exec bump_pool_revision db in
    ground (
      arith,
      batches-joins ip cutoff css (batch (map (change_stmt cutoff) cs) bumped),
      batch-joins ip cutoff cs bumped,
      any-append (joins ip) cs (concat css),
    )

-- After `updatePoolBatch` of any rows the pool has the addresses that it had before, and those with a
-- success among the rows; no other.
pub update_pool_batch-joins :
    (now : ℕ) (rows : List CheckRow) (ip : Text) (db : Db)
    → in_pool ip (update_pool_batch now rows db) ≡ (in_pool ip db || any (succeeded ip) rows)
unfolding update_pool_batch update_pool_batches
update_pool_batch-joins now rows ip db =
    batches-joins ip (dedup_cutoff now) (chunks pool_upsert_chunk (pool_changes rows)) db
    ∙ ap (λ b. in_pool ip db || b)
        (ap (any (joins ip)) (concat-chunks pool_upsert_chunk (pool_changes rows) (omega arith))
          ∙ pool_changes-joins ip rows)
