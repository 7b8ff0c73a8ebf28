-- ===== src/Tests/Flush.antt =====
-- Flushes: a retry after a crash before the first batch, and after it.
use gwsdb.Prelude.{◌+◌, ◌≡◌, refl, take, List, [], ◌∷◌, text_eq}
use gwsdb.CheckRows.{CheckRow}
use gwsdb.Store.Sql.{batches, passes_insert_gate}
use gwsdb.Store.Writes.{insert_check_rows, insert_check_rows_batches}
use gwsdb.Store.Writes.Retry.{insert_check_rows-retry}
use gwsdb.Tests.Fixtures.{noon, google, passed, failed, empty_db}

abbrev flush : List CheckRow
flush = passed google noon ∷ failed google (noon + 5) ∷ []

insert_check_rows-retry_example :
    insert_check_rows
      (noon + 60_000)
      flush
      (batches (take 1 (insert_check_rows_batches noon flush)) empty_db)
    ≡ insert_check_rows noon flush empty_db
unfolding passes_insert_gate text_eq
insert_check_rows-retry_example =
    insert_check_rows-retry noon (noon + 60_000) 1 flush empty_db (refl, (refl, tt))
