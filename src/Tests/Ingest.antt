-- ===== src/Tests/Ingest.antt =====
-- Flushes: coalescing, the pool after them, and a request that is accepted.
use gwsdb.Prelude.{◌||◌, ◌+◌, ◌≤◌, codes, true, some, List, [], ◌∷◌, ◌≡◌, refl, any, length, All}
use gwsdb.CheckRows.{CheckRow, coalesce_check_rows}
use gwsdb.CheckRows.Coalesce.{covers, coalesce-covers}
use gwsdb.CheckRows.Count.{rows_of, coalesce-count}
use gwsdb.Store.Writes.{update_pool_batch}
use gwsdb.Store.Writes.Joins.{update_pool_batch-joins}
use gwsdb.Store.Prune.Keeps.{in_pool}
use gwsdb.CheckRows.Successes.{succeeded}
use gwsdb.Api.Ingest.{IngestBody, handle_ingest}
use gwsdb.Api.Ingest.Outcomes.{IsOutcome, is_well_formed, handle_ingest-IsOutcome}
use gwsdb.Tests.Fixtures.{noon, google, passed, failed, empty_db}

abbrev flush : List CheckRow
flush = passed google noon ∷ failed google (noon + 5) ∷ passed google (noon + 2) ∷ []

coalesced : coalesce_check_rows flush ≡ passed google (noon + 2) ∷ failed google (noon + 5) ∷ []
unfolding coalesce_check_rows
coalesced = refl

coalesce-covers_example : All (λ r. any (covers r) (coalesce_check_rows flush) ≡ true) flush
coalesce-covers_example = coalesce-covers flush

coalesce-count_example : length (rows_of google (coalesce_check_rows flush)) ≤ 2
coalesce-count_example = coalesce-count google flush

update_pool_batch-joins_example :
    in_pool google (update_pool_batch noon flush empty_db)
    ≡ (in_pool google empty_db || any (succeeded google) flush)
update_pool_batch-joins_example = update_pool_batch-joins noon flush google empty_db

abbrev sent : IngestBody
sent = record {
  checks = some (
      record {
        ip = codes "2001:4860:0::8888";
        ok = true;
        rtt_ms = 40;
        reason = [];
        detail = [];
        checked_at = noon;
        scan_mode = codes "SNI";
      }
      ∷ []);
  maintenance = some true;
  prune_ips = some (google ∷ []);
}

handle_ingest-IsOutcome_example :
    IsOutcome empty_db (is_well_formed sent) (handle_ingest noon sent empty_db)
handle_ingest-IsOutcome_example = handle_ingest-IsOutcome noon sent empty_db
