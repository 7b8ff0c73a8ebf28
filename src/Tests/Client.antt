-- ===== src/Tests/Client.antt =====
-- The page's stores over one flush of the scanner, and a load of the table.
use gwsdb.Prelude.{
  ℕ, Text, codes, Option, none, some, false, List, [], ◌∷◌, ◌≡◌, refl, inl, inr, arith,
}
use gwsdb.CheckRows.{coalesce_check_rows}
use gwsdb.Store.Sql.{batch, exec, exec_upsert_pool}
use gwsdb.Store.Schema.{Db}
use gwsdb.Store.Sql.Valid.{IsValid}
use gwsdb.Store.Writes.{update_pool_batch}
use gwsdb.Store.Listing.{LoadPoolOptions, load_pool}
use gwsdb.Store.Listing.Loads.{HoldsRows, of_family, load_pool-HoldsRows}
use gwsdb.Store.Reads.{list_known_ips_changed, overview}
use gwsdb.Store.Sync.{view}
use gwsdb.Store.Sync.History.{Reach, Reach-IsValid, here}
use gwsdb.Store.Sync.Writers.{update_pool_batch-Reach}
use gwsdb.Api.Changes.{Body, changes_get}
use gwsdb.Api.Pool.{pool_get, load_full, full, family_of}
use gwsdb.Api.Pool.Full.{of_family_only, pool_get-family}
use gwsdb.Client.{Cache, put_all, sync_cache, take_changes, changes_reply, apply_delta, sent_body}
use gwsdb.Client.Sync.{Holds}
use gwsdb.Client.Sync.Whole.{asked_changes, asked_pool, sync_cache-Holds}
use gwsdb.Client.Sync.Quiet.{quiet_changes, quiet_pool}
use gwsdb.Client.Load.{load_page}
use gwsdb.Client.Load.Quiet.{ShowsPool, load_page-quiet}
use gwsdb.Tests.Fixtures.{noon, google, passed, empty_db}

abbrev flushed : Db
flushed = update_pool_batch noon (passed google noon ∷ []) empty_db

abbrev first_delta : Body
first_delta = record {
  version = 6;
  ips = list_known_ips_changed flushed 5 6;
  stats = overview none flushed;
}

abbrev no_country : List Text → Text
no_country names = []

abbrev first_visit : Cache
first_visit = record { rows = λ k. none; meta = none }

empty_db-IsValid : IsValid empty_db
empty_db-IsValid = record { pool_keyed = tt; ptr_keyed = tt; stamped = tt; reset = omega arith }

flush-Reach : Reach empty_db flushed
flush-Reach = update_pool_batch-Reach noon (passed google noon ∷ []) empty_db

load_page-quiet_example : ShowsPool flushed (
    load_page
      (quiet_changes no_country none empty_db flushed)
      (quiet_pool no_country none empty_db flushed)
      (some first_visit))
load_page-quiet_example =
    load_page-quiet no_country none empty_db flushed (some first_visit) empty_db-IsValid flush-Reach
      (λ store h. inl (ground (arith, h)))

flushed-IsValid : IsValid flushed
flushed-IsValid = Reach-IsValid flush-Reach empty_db-IsValid

abbrev by_country : LoadPoolOptions
by_country = record {
  sort_by_key = some (codes "country");
  sort_desc = some false;
  family = some 4;
}

load_pool-HoldsRows_example :
    HoldsRows
      (of_family (some 4))
      flushed
      (load_pool no_country none by_country flushed flushed).ips
load_pool-HoldsRows_example =
    load_pool-HoldsRows flushed flushed-IsValid no_country none by_country flushed

abbrev no_pool : Option ℕ → ℕ → Option Body
no_pool family version = none

abbrev whole_pool : Body
whole_pool = record {
  version = 6;
  ips =
      (load_pool no_country none (record { sort_by_key = none; sort_desc = none; family = none })
        flushed flushed).ips;
  stats = overview none flushed;
}

answers_full :
    pool_get no_country none no_pool none flushed flushed flushed flushed ≡ full whole_pool
unfolding pool_get load_full load_pool update_pool_batch coalesce_check_rows batch exec
    exec_upsert_pool
answers_full = refl

-- A page of the other family gets no row.
abbrev no_rows : Body
no_rows = record whole_pool { ips = [] }

answers_none :
    pool_get no_country none no_pool (some (codes "6")) flushed flushed flushed flushed
    ≡ full no_rows
unfolding pool_get load_full load_pool update_pool_batch coalesce_check_rows batch exec
    exec_upsert_pool
answers_none = refl

pool_get-family_example :
    (no_rows.version ≡ flushed.version)
    × ((ip : Text)
        → put_all no_rows.ips (λ k. none) ip
          ≡ of_family_only (family_of (some (codes "6"))) (view flushed ip))
pool_get-family_example =
    pool_get-family no_country none no_pool (some (codes "6")) flushed flushed flushed flushed
      no_rows flushed-IsValid here here here answers_none

-- A page that was in step before the flush.
abbrev in_step : Cache
in_step = record { rows = view empty_db; meta = some (record { version = 5; stats = none }) }

abbrev brought_up : Cache
brought_up = apply_delta (sent_body first_delta) in_step

syncs :
    sync_cache
      (asked_changes no_country none no_pool
        (λ a b. none)
        empty_db
        flushed
        flushed
        flushed
        flushed
        flushed
        flushed
        flushed
        flushed)
      (asked_pool no_country none no_pool
        (λ a b. none)
        empty_db
        flushed
        flushed
        flushed
        flushed
        flushed
        flushed
        flushed
        flushed)
      in_step
    ≡ some brought_up
unfolding sync_cache take_changes changes_reply changes_get update_pool_batch coalesce_check_rows
    batch exec exec_upsert_pool
syncs = refl

sync_cache-Holds_example : (d : Db) × Reach flushed d × Reach d flushed × Holds brought_up d
sync_cache-Holds_example =
    sync_cache-Holds no_country none no_pool (λ a b. none) empty_db flushed flushed flushed flushed
      flushed flushed flushed flushed in_step brought_up empty_db-IsValid flush-Reach here here here
      here here here here (λ b h. absurd (ground arith)) (λ b h. absurd (ground arith))
      (inr ((_, refl, refl), λ ip. refl)) syncs
