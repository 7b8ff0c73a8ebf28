-- ===== src/Tests/Histories.antt =====
-- The history of an address while a recheck of another is stored.
use gwsdb.Prelude.{
  suc, Text, codes, text_eq, All, none, some, true, false, List, [], ◌∷◌, ◌≡◌, refl,
}
use gwsdb.IpAddr.{normalize_ip_address}
use gwsdb.Store.Schema.{Db}
use gwsdb.Store.Tables.{add_check}
use gwsdb.Store.Sql.{Stmt, insert_recheck, delete_old_checks, batch, exec, exec_delete_old_checks}
use gwsdb.Store.Prune.{check_history_retention}
use gwsdb.Api.History.{HistoryBody, history, history_get, ip_history, ip_history_version}
use gwsdb.Api.History.Steady.{keeps_checks, history_get-steady}
use gwsdb.Tests.Fixtures.{noon, google, passed, failed, empty_db}

abbrev one_check : Db
one_check = batch (insert_recheck (passed google noon) ∷ []) empty_db

abbrev another : List Stmt
another = insert_recheck (failed (codes "8.8.4.4") (suc noon)) ∷ []

abbrev first_page : HistoryBody
first_page = record {
  version = 1;
  reset = false;
  checks = ip_history google check_history_retention 0 (batch another one_check);
}

answers_history :
    history_get
      (λ ip v. none)
      google
      none
      one_check
      (batch another one_check)
      (batch another (batch another one_check))
    ≡ history first_page
unfolding history_get batch exec add_check text_eq
answers_history = refl

adds : All (λ s. keeps_checks s ≡ true) another
unfolding keeps_checks
adds = (refl, tt)

history_get-steady_example :
    (address : Text) × (normalize_ip_address google ≡ some address)
    × (first_page.version ≡ ip_history_version address one_check)
    × (first_page.checks ≡ ip_history address check_history_retention 0 one_check)
history_get-steady_example =
    history_get-steady (λ ip v. none) google none one_check another another first_page adds adds
      answers_history

-- A check that came late has the highest id; when pruning deletes it, the version falls back, and the
-- next check gets the id again.
abbrev late : List Stmt
late = insert_recheck (passed google 1000) ∷ []

version_after_late : ip_history_version google (batch late one_check) ≡ 2
unfolding ip_history_version batch exec add_check text_eq
version_after_late = refl

version_after_pruning :
    ip_history_version google
      (batch (delete_old_checks (google ∷ []) 1 ∷ []) (batch late one_check))
    ≡ 1
unfolding ip_history_version batch exec exec_delete_old_checks add_check text_eq
version_after_pruning = refl
