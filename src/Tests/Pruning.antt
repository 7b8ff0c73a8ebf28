-- ===== src/Tests/Pruning.antt =====
-- Pruning an address that has succeeded.
use gwsdb.Prelude.{
  ℕ, text_eq, false, zero, suc, ◌+◌, ◌≤◌, none, [], ◌∷◌, List, ◌≡◌, refl, arith, codes, keep,
  length, ◌==◌,
}
use gwsdb.Store.Schema.{Check, Db}
use gwsdb.Store.Tables.{has_success, count_checks, add_check}
use gwsdb.Store.Sql.{exec, exec_upsert_pool, passes_insert_gate}
use gwsdb.CheckRows.{coalesce_check_rows}
use gwsdb.Store.Writes.{update_pool_batch, insert_check_rows}
use gwsdb.Store.Prune.{prune_check_history}
use gwsdb.Store.Prune.Window.{HasIds}
use gwsdb.Store.Prune.Retention.{prune_check_history-bounds}
use gwsdb.Store.Prune.Keeps.{in_pool, prune_check_history-keeps}
use gwsdb.Tests.Fixtures.{noon, google, passed, empty_db}

abbrev stored : Db
stored =
    update_pool_batch noon (passed google noon ∷ [])
      (insert_check_rows noon (passed google noon ∷ []) empty_db)

prune_check_history-keeps_example :
    in_pool google (prune_check_history (google ∷ []) stored) ≡ in_pool google stored
unfolding prune_check_history update_pool_batch insert_check_rows has_success coalesce_check_rows
    exec exec_upsert_pool passes_insert_gate count_checks add_check
prune_check_history-keeps_example = prune_check_history-keeps google (google ∷ []) stored refl

-- Checks of one address, a millisecond apart.
abbrev series : ℕ → List Check
series zero = []
series (suc n) =
    record {
      id = n;
      ip = google;
      ok = false;
      rtt_ms = none;
      reason = none;
      detail = none;
      checked_at = noon + n;
      scan_mode = codes "SNI";
    }
    ∷ series n

later_ids : (n k : ℕ) → k ≤ n → length (keep (λ c. c.id == n) (series k)) ≡ 0
later_ids n zero h = refl
later_ids n (suc k) h = ground (arith, later_ids n k)

series-HasIds : (k : ℕ) → HasIds (series k)
series-HasIds zero n = omega arith
series-HasIds (suc k) n = ground (arith, series-HasIds k n, later_ids n k)

abbrev crowded : Db
crowded = record empty_db {
  checks = series 303;
  pool =
      record {
        ip = google;
        is_ipv6 = false;
        scan_mode = none;
        first_seen = none;
        last_seen = none;
        last_rtt_ms = none;
        times_seen = 3;
        last_checked_at = none;
        last_check_ok = none;
        ptr_checked_at = none;
        revision = 1;
        history_count = 303;
      }
      ∷ [];
}

prune_check_history-bounds_example :
    count_checks google (prune_check_history (google ∷ []) crowded).checks ≤ 300
unfolding count_checks text_eq
prune_check_history-bounds_example =
    prune_check_history-bounds google (google ∷ []) crowded refl (series-HasIds 303) refl
