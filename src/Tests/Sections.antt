-- ===== src/Tests/Sections.antt =====
-- The history section of the page, while a check of another address is stored.
use gwsdb.Prelude.{
  ℕ, suc, Text, codes, All, Option, none, some, true, false, List, [], ◌∷◌, ◌≡◌, ◌≢◌, ◌⊎◌, refl,
}
use gwsdb.IpAddr.{normalize_ip_address}
use gwsdb.Store.Schema.{Db}
use gwsdb.Store.Sql.{Stmt, insert_recheck, batch}
use gwsdb.Api.History.{IpCheckHistoryRow, HistoryBody, history_get, ip_history_version}
use gwsdb.Api.History.Steady.{keeps_checks}
use gwsdb.HistoryPage.{Snapshot, HistorySection, sync_history, history_sent, since_of, build_row}
use gwsdb.HistoryPage.Answers.{IsTrueEdge}
use gwsdb.HistoryPage.Sync.{IsCurrent, IsAhead, sync_history-Outcome}
use gwsdb.Tests.Fixtures.{noon, google, passed, failed, empty_db}

abbrev checked : Db
checked = batch (insert_recheck (passed google noon) ∷ []) empty_db

abbrev another : List Stmt
another = insert_recheck (failed (codes "8.8.4.4") (suc noon)) ∷ []

abbrev no_edge : Text → ℕ → Option HistoryBody
no_edge ip v = none

adds : All (λ s. keeps_checks s ≡ true) another
unfolding keeps_checks
adds = (refl, tt)

no_edge-IsTrueEdge : IsTrueEdge google checked no_edge
unfolding IsTrueEdge
no_edge-IsTrueEdge b held = cc

-- The page has nothing yet.
abbrev new_section : HistorySection
new_section = record { db = true; stored = none; cache = none; checks = []; page = 1 }

sync_history-Outcome_example :
    ((ip_history_version google (batch another (batch another checked))
        ≢ ip_history_version google checked)
      × (sync_history
            (history_sent (
              history_get no_edge google
                (since_of none)
                checked
                (batch another checked)
                (batch another (batch another checked))))
            new_section
          ≡ none))
    ⊎ ((h1 : HistorySection) × (sync_history
            (history_sent (
              history_get no_edge google
                (since_of none)
                checked
                (batch another checked)
                (batch another (batch another checked))))
            new_section
          ≡ some h1)
        × (IsCurrent google checked h1
            ⊎ ((s : Snapshot) × IsAhead google checked new_section h1 s)))
unfolding normalize_ip_address
sync_history-Outcome_example =
    sync_history-Outcome no_edge google google new_section checked another another refl adds adds
      no_edge-IsTrueEdge (λ c h. cc)

abbrev slow : IpCheckHistoryRow
slow = record {
  ip = google;
  ok = false;
  rtt_ms = 0;
  reason = codes "scan:ping";
  detail = codes "rtt_too_low 3";
  checked_at = noon;
  scan_mode = codes "SNI";
}

labelled : (build_row slow).reason ≡ codes "[scan] icmp: RTT too low"
unfolding build_row
labelled = refl

dated : (build_row slow).time ≡ codes "2027-01-15 08:00:00"
unfolding build_row
dated = refl
