-- ===== src/Store/Writes/Limits.antt =====
-- The batches that the writers of src/store.ts send, beside D1's cap of 1,000 statements.
use mathlib.Core.List.{map-append}
use gwsdb.Prelude.{
  ℕ, suc, ◌+◌, ◌≤◌, List, [], ◌∷◌, ◌++◌, ◌≡◌, refl, sym, ap, ◌∙◌, map, All, All-mono, concat,
  concat-chunks, chunks, chunks-le, length, arith,
}
use gwsdb.CheckRows.{CheckRow}
use gwsdb.Store.Sql.{Stmt, bump_pool_revision, PtrCacheEntry}
use gwsdb.Store.Writes.{
  insert_check_rows_batches, update_pool_batches, save_ptr_batches, insert_stmt, change_stmt,
  ptr_stmts, dedup_cutoff, successful_ips, max_batch, pool_upsert_chunk, ptr_batch_chunk,
  pool_changes,
}

-- The most statements of a batch on D1's free plan.
abbrev batch_cap : ℕ
batch_cap = 1000

length-map : {A B : Type 0} (f : A → B) (xs : List A) → length (map f xs) ≡ length xs
length-map f [] = refl
length-map f (x ∷ xs) = ap suc (length-map f xs)

All-map :
    {A B : Type 0} (P : B → Type 0) (f : A → B) (xs : List A)
    → All (λ x. P (f x)) xs
    → All P (map f xs)
All-map P f [] a = tt
All-map P f (x ∷ xs) (h, a) = (h, All-map P f xs a)

concat-map-map :
    {A B : Type 0} (f : A → B) (xss : List (List A)) → concat (map (map f) xss) ≡ map f (concat xss)
concat-map-map f [] = refl
concat-map-map f (xs ∷ xss) =
    ap (λ ys. map f xs ++ ys) (concat-map-map f xss) ∙ sym (map-append f xs (concat xss))

-- Slices of at most `n` entries, each sent as a batch whose size the slice bounds, stay in the cap.
sliced :
    {A : Type 0} (send : List A → List Stmt) (n : ℕ) (xs : List A)
    → ((ys : List A) → length ys ≤ n → length (send ys) ≤ batch_cap)
    → All (λ b. length b ≤ batch_cap) (map send (chunks n xs))
sliced send n xs h =
    All-map (λ b. length b ≤ batch_cap) send (chunks n xs)
      (All-mono (λ ys. length ys ≤ n) _ (chunks n xs) h (chunks-le n xs))

length-ptr_stmts : (es : List PtrCacheEntry) → length (ptr_stmts es) ≡ length es + length es
unfolding ptr_stmts
length-ptr_stmts [] = refl
length-ptr_stmts (e ∷ es) = omega (arith, length-ptr_stmts es)

-- No batch that a flush or a PTR refresh sends has more than 1,000 statements, however large the
-- flush is and however many answers came.
batches-within_cap :
    (now : ℕ) (rows : List CheckRow) (answers : List PtrCacheEntry)
    → All (λ b. length b ≤ batch_cap) (insert_check_rows_batches now rows)
      × All (λ b. length b ≤ batch_cap) (update_pool_batches now rows)
      × All (λ b. length b ≤ batch_cap) (save_ptr_batches answers)
unfolding insert_check_rows_batches update_pool_batches save_ptr_batches
batches-within_cap now rows answers = (
  sliced (map (insert_stmt (dedup_cutoff now) (successful_ips rows))) max_batch rows
      (λ ys h. omega (arith, length-map (insert_stmt (dedup_cutoff now) (successful_ips rows)) ys)),
  sliced (λ c. bump_pool_revision ∷ map (change_stmt (dedup_cutoff now)) c) pool_upsert_chunk
      (pool_changes rows) (λ ys h. omega (arith, length-map (change_stmt (dedup_cutoff now)) ys)),
  sliced (λ c. bump_pool_revision ∷ ptr_stmts c) ptr_batch_chunk answers
      (λ ys h. omega (arith, length-ptr_stmts ys)),
)

-- The batches of a flush hold the insert of every row, once and in the order of the rows.
insert_check_rows-whole :
    (now : ℕ) (rows : List CheckRow)
    → concat (insert_check_rows_batches now rows)
      ≡ map (insert_stmt (dedup_cutoff now) (successful_ips rows)) rows
unfolding insert_check_rows_batches
insert_check_rows-whole now rows =
    concat-map-map (insert_stmt (dedup_cutoff now) (successful_ips rows)) (chunks max_batch rows)
    ∙ ap (map (insert_stmt (dedup_cutoff now) (successful_ips rows)))
        (concat-chunks max_batch rows (omega arith))
