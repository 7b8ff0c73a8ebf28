-- ===== src/Store/Writes/Retry.antt =====
-- Retries of `insertCheckRows`, which rest on its unique index: a call that died between two batches is
-- made again.
mod Adding
use Adding.{add_if, add_all, add_all-append, add_all-retry, add_all-gates}
use mathlib.Core.List.{append_assoc}
use gwsdb.Prelude.{
  subst, ℕ, zero, suc, ◌<◌, Text, text_eq, Bool, true, false, ◌&&◌, ◌||◌, Option, List, [], ◌∷◌,
  ◌++◌, ◌≡◌, refl, ap, sym, ◌∙◌, ◌⊎◌, inl, inr, map, if◌then◌else◌, arith, ◌==◌, any, take, drop,
  take-map, concat-take-drop, All, Bool-cases, concat, chunks, concat-chunks, mem_text,
  text_eq_refl, ==_iff,
}
use gwsdb.CheckRows.{CheckRow}
use gwsdb.Store.Schema.{Check, PoolRow, Db}
use gwsdb.Store.Tables.{has_check, add_check, new_check, max_id}
use gwsdb.Store.Sql.{Stmt, insert_check, exec, batch, batches, passes_insert_gate}
use gwsdb.Store.Writes.{
  insert_stmt, insert_check_rows, insert_check_rows_batches, successful_ips, dedup_cutoff,
  max_batch,
}

abbrev row_gate : ℕ → List Text → List PoolRow → CheckRow → Bool
row_gate cutoff ips pool row = passes_insert_gate row.ip (row.ok || mem_text row.ip ips) cutoff pool

abbrev with_checks : Db → List Check → Db
with_checks db cs = record db { checks = cs }

batch-inserts :
    (cutoff : ℕ) (ips : List Text) (rows : List CheckRow) (db : Db)
    → batch (map (insert_stmt cutoff ips) rows) db
      ≡ with_checks db (add_all (row_gate cutoff ips db.pool) rows db.checks)
unfolding batch insert_stmt add_all
batch-inserts cutoff ips [] db = refl
batch-inserts cutoff ips (row ∷ rows) db =
    ap (batch (map (insert_stmt cutoff ips) rows)) (one (row_gate cutoff ips db.pool row) refl)
    ∙ batch-inserts cutoff ips rows
        (with_checks db (add_if (row_gate cutoff ips db.pool) row db.checks))
  where
    one :
        (b : Bool)
        → row_gate cutoff ips db.pool row ≡ b
        → exec (insert_stmt cutoff ips row) db
          ≡ with_checks db (add_if (row_gate cutoff ips db.pool) row db.checks)
    one true e = unfold exec in rw (e) refl
    one false e = unfold exec in rw (e) refl

batches-inserts :
    (cutoff : ℕ) (ips : List Text) (bs : List (List CheckRow)) (db : Db)
    → batches (map (map (insert_stmt cutoff ips)) bs) db
      ≡ with_checks db (add_all (row_gate cutoff ips db.pool) (concat bs) db.checks)
unfolding batches add_all
batches-inserts cutoff ips [] db = refl
batches-inserts cutoff ips (b ∷ bs) db =
    ap (batches (map (map (insert_stmt cutoff ips)) bs)) (batch-inserts cutoff ips b db)
    ∙ batches-inserts cutoff ips bs _
    ∙ ap (with_checks db)
        (sym (add_all-append (row_gate cutoff ips db.pool) b (concat bs) db.checks))

insert_check_rows-checks :
    (now : ℕ) (rows : List CheckRow) (db : Db)
    → insert_check_rows now rows db
      ≡ with_checks db
          (add_all (row_gate (dedup_cutoff now) (successful_ips rows) db.pool) rows db.checks)
unfolding insert_check_rows insert_check_rows_batches
insert_check_rows-checks now rows db =
    batches-inserts (dedup_cutoff now) (successful_ips rows) (chunks max_batch rows) db
    ∙ ap
        (λ xs.
          with_checks db
            (add_all (row_gate (dedup_cutoff now) (successful_ips rows) db.pool) xs db.checks))
        (concat-chunks max_batch rows (omega arith))

-- The gate of the flush's rows answers the same at both times.
abbrev pub SameGates : ℕ → ℕ → List CheckRow → Db → Type 0
SameGates now later rows db =
    All
      (λ row.
        row_gate (dedup_cutoff later) (successful_ips rows) db.pool row
        ≡ row_gate (dedup_cutoff now) (successful_ips rows) db.pool row)
      rows

-- A call of `insertCheckRows` that died after any number of its batches, and that is made again with the
-- same rows, at a time when the gate answers the same for them, leaves exactly the database of one
-- undisturbed call. The other writes of a flush are not meant: a retry counts them again.
pub insert_check_rows-retry :
    (now later j : ℕ) (rows : List CheckRow) (db : Db)
    → SameGates now later rows db
    → insert_check_rows later rows (batches (take j (insert_check_rows_batches now rows)) db)
      ≡ insert_check_rows now rows db
insert_check_rows-retry now later j rows db same =
    ap (insert_check_rows later rows) interrupted
    ∙ insert_check_rows-checks later rows _
    ∙ ap (with_checks db) (add_all-gates gate' gate rows _ same ∙ again)
    ∙ sym (insert_check_rows-checks now rows db)
  where
    gate : CheckRow → Bool
    gate = row_gate (dedup_cutoff now) (successful_ips rows) db.pool

    gate' : CheckRow → Bool
    gate' = row_gate (dedup_cutoff later) (successful_ips rows) db.pool

    done : List CheckRow
    done = concat (take j (chunks max_batch rows))

    left : List CheckRow
    left = concat (drop j (chunks max_batch rows))

    whole : done ++ left ≡ rows
    whole = concat-take-drop j (chunks max_batch rows) ∙ concat-chunks max_batch rows (omega arith)

    interrupted :
        batches (take j (insert_check_rows_batches now rows)) db
        ≡ with_checks db (add_all gate done db.checks)
    interrupted =
        unfold insert_check_rows_batches in
        ap (λ bs. batches bs db)
          (take-map (map (insert_stmt (dedup_cutoff now) (successful_ips rows))) j
            (chunks max_batch rows))
        ∙ batches-inserts (dedup_cutoff now) (successful_ips rows) (take j (chunks max_batch rows))
            db

    again : add_all gate rows (add_all gate done db.checks) ≡ add_all gate rows db.checks
    again =
        subst (λ xs. add_all gate xs (add_all gate done db.checks) ≡ add_all gate xs db.checks)
          whole (add_all-retry gate done left db.checks)
