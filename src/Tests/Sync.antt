-- ===== src/Tests/Sync.antt =====
-- The delta protocol, from an empty pool over one flush of the scanner.
use gwsdb.Prelude.{Text, ◌≡◌, refl, none, some, [], ◌∷◌, arith}
use gwsdb.CheckRows.{coalesce_check_rows}
use gwsdb.Store.Schema.{Db}
use gwsdb.Store.Sql.{batch, exec, exec_upsert_pool}
use gwsdb.Store.Sql.Valid.{IsValid}
use gwsdb.Store.Writes.{update_pool_batch}
use gwsdb.Store.Reads.{list_known_ips_changed, overview}
use gwsdb.Store.Sync.{view}
use gwsdb.Store.Sync.History.{here, Reach-IsValid}
use gwsdb.Store.Sync.Writers.{update_pool_batch-Reach}
use gwsdb.Client.{apply_changes}
use gwsdb.Api.Changes.{Body, changes_get, delta, unchanged}
use gwsdb.Api.Changes.Delta.{delta_sync}
use gwsdb.Tests.Fixtures.{noon, google, passed, empty_db}

abbrev flushed : Db
flushed = update_pool_batch noon (passed google noon ∷ []) empty_db

abbrev first_delta : Body
first_delta = record {
  version = 6;
  ips = list_known_ips_changed flushed 5 6;
  stats = overview none flushed;
}

empty_db-IsValid : IsValid empty_db
empty_db-IsValid = record { pool_keyed = tt; ptr_keyed = tt; stamped = tt; reset = omega arith }

answers_delta :
    changes_get (λ a b. none) none (some 5) flushed flushed flushed flushed ≡ delta first_delta
unfolding changes_get update_pool_batch coalesce_check_rows batch exec exec_upsert_pool
answers_delta = refl

delta_sync_example :
    (first_delta.version ≡ flushed.version)
    × ((k : Text) → apply_changes first_delta.ips (view empty_db) k ≡ view flushed k)
delta_sync_example =
    delta_sync (λ a b. none) none empty_db flushed flushed flushed flushed (view empty_db)
      first_delta empty_db-IsValid (update_pool_batch-Reach noon (passed google noon ∷ []) empty_db)
      here here here (λ k. refl) answers_delta

answers_unchanged :
    changes_get (λ a b. none) none (some 5) empty_db empty_db empty_db empty_db ≡ unchanged 5
unfolding changes_get
answers_unchanged = refl

Reach-IsValid_example : IsValid flushed
Reach-IsValid_example =
    Reach-IsValid (update_pool_batch-Reach noon (passed google noon ∷ []) empty_db) empty_db-IsValid
