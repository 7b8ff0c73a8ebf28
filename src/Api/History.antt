-- ===== src/Api/History.antt =====
-- GET /api/history (functions/api/history.ts), with `ipHistoryVersion` and `ipHistory` of
-- src/store.ts. The handler awaits the database three times, and is given the database of each of
-- those moments. `since` is the parameter: `none` where it is missing, and `some none` where it is no
-- non-negative safe integer.
pub mod Steady
use gwsdb.Prelude.{
  ℕ, suc, ◌+◌, Text, text_eq, Bool, true, false, not, ◌&&◌, ◌||◌, Option, none, some, List, [], ◌∷◌,
  map, ltb, ◌==◌, if◌then◌else◌, or_else, keep, take, drop,
}
use gwsdb.IpAddr.{normalize_ip_address}
use gwsdb.Store.Schema.{Check, Db}
use gwsdb.Store.Tables.{max_id}
use gwsdb.Store.Reads.{sort_by}
use gwsdb.Store.Prune.{check_history_retention}

-- `SELECT COALESCE(MAX(id), 0) FROM ip_checks WHERE ip = ?`
unfoldable pub ip_history_version : Text → Db → ℕ
unfolding max_id
ip_history_version ip db = max_id (keep (λ c. text_eq c.ip ip) db.checks)

pub record IpCheckHistoryRow : Type 0 where
  pub ip : Text
  pub ok : Bool
  pub rtt_ms : ℕ
  pub reason : Text
  pub detail : Text
  pub checked_at : ℕ
  pub scan_mode : Text

unfoldable pub history_row : Check → IpCheckHistoryRow
history_row c = record {
  ip = c.ip;
  ok = c.ok;
  rtt_ms = or_else c.rtt_ms 0;
  reason = or_else c.reason [];
  detail = or_else c.detail [];
  checked_at = c.checked_at;
  scan_mode = c.scan_mode;
}

-- ORDER BY checked_at DESC, id DESC
unfoldable pub newest_first : Check → Check → Bool
newest_first a b =
    ltb b.checked_at a.checked_at || ((a.checked_at == b.checked_at) && ltb b.id a.id)

unfoldable pub ip_history : Text → ℕ → ℕ → Db → List IpCheckHistoryRow
unfolding sort_by newest_first history_row
ip_history ip limit offset db =
    map history_row
      (take limit (drop offset (sort_by newest_first (keep (λ c. text_eq c.ip ip) db.checks))))

pub record HistoryBody : Type 0 where
  pub version : ℕ
  pub reset : Bool
  pub checks : List IpCheckHistoryRow

pub data HistoryReply : Type 0 where
  invalid_ip bad_since changed_meanwhile : HistoryReply
  nothing_new : ℕ → HistoryReply
  cached_history : HistoryBody → HistoryReply
  history : HistoryBody → HistoryReply

-- What follows the cache.
unfoldable pub load_history : Text → ℕ → Bool → Db → Db → HistoryReply
unfolding ip_history ip_history_version
load_history ip version reset at_load at_end =
    if ip_history_version ip at_end == version
    then history (record {
      version = version;
      reset = reset;
      checks = ip_history ip check_history_retention 0 at_load;
    })
    else changed_meanwhile

-- `since === version`, and `since !== null && since > version`
abbrev pub is_version : Option ℕ → ℕ → Bool
is_version none version = false
is_version (some s) version = s == version

abbrev pub is_above : Option ℕ → ℕ → Bool
is_above none version = false
is_above (some s) version = ltb version s

unfoldable pub versioned_history :
    (Text → ℕ → Option HistoryBody) → Text → Option ℕ → ℕ → Db → Db → HistoryReply
unfolding load_history
versioned_history cache ip since version at_load at_end =
    let reset = is_above since version in
    let load = load_history ip version reset at_load at_end in
    if is_version since version
    then nothing_new version
    else if reset
    then load
    else elim (cache ip version) [ some body ↦ cached_history body | none ↦ load ]

abbrev pub given_since : Option (Option ℕ) → Option (Option ℕ)
given_since none = some none
given_since (some none) = none
given_since (some (some n)) = some (some n)

unfoldable pub history_get :
    (Text → ℕ → Option HistoryBody) → Text → Option (Option ℕ) → Db → Db → Db → HistoryReply
unfolding normalize_ip_address versioned_history ip_history_version
history_get cache ip since at_version at_load at_end = elim (normalize_ip_address ip) [
  | none ↦ invalid_ip
  | some ip ↦ elim (given_since since) [
    | none ↦ bad_since
    | some n ↦ versioned_history cache ip n (ip_history_version ip at_version) at_load at_end
  ]
]
