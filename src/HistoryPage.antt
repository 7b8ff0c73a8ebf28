-- ===== src/HistoryPage.antt =====
-- The history section of the query page (public/static/query.js): its snapshot in IndexedDB, its
-- synchronisation with /api/history, its rows and its pages. The store holds one snapshot for the
-- page's address; what IndexedDB and the page's elements do beyond that is outside.
pub mod Answers
pub mod Sync
use gwsdb.Prelude.{
  ℕ, ◌+◌, ◌-◌, ◌*◌, ◌/◌, Text, codes, text_eq, starts_with, Bool, true, false, not, ◌&&◌, ◌||◌,
  Option, none, some, List, [], ◌∷◌, ◌++◌, map, any, ltb, ◌==◌, if◌then◌else◌, length, take, drop,
}
use gwsdb.Dns.Asn.{decimal_text}
use gwsdb.Dns.Caching.{contains}
use gwsdb.Geo.Names.{trim}
use gwsdb.Html.Time.{format_time}
use gwsdb.Api.History.{
  IpCheckHistoryRow, HistoryReply, invalid_ip, bad_since, changed_meanwhile, nothing_new,
  cached_history, history,
}

pub record Snapshot : Type 0 where
  pub version : ℕ
  pub checks : List IpCheckHistoryRow

-- The JSON of an answer.
pub record SentHistory : Type 0 where
  pub version : ℕ
  pub reset : Bool
  pub checks : List IpCheckHistoryRow

-- The section's variables. `db` says that the database is open, and `stored` is what it holds.
pub record HistorySection : Type 0 where
  pub db : Bool
  pub stored : Option Snapshot
  pub cache : Option Snapshot
  pub checks : List IpCheckHistoryRow
  pub page : ℕ

-- `writeCache`: what the store holds then, and what the call resolves to.
unfoldable pub write_cache : Snapshot → Bool → Option Snapshot → Option Snapshot × Snapshot
write_cache snapshot force none = (some snapshot, snapshot)
write_cache snapshot force (some current) =
    if not force && ltb snapshot.version current.version
    then (some current, current)
    else (some snapshot, snapshot)

-- The snapshot that an answer leads to, where the page does not keep its own.
unfoldable pub save_snapshot : SentHistory → HistorySection → HistorySection × Snapshot
unfolding write_cache
save_snapshot sent h =
    let snapshot : Snapshot = record { version = sent.version; checks = sent.checks } in
    let (stored, saved) = write_cache snapshot sent.reset h.stored in
    if h.db then (record h { stored = stored }, saved) else (h, snapshot)

unfoldable pub take_sent : SentHistory → HistorySection → HistorySection × Snapshot
unfolding save_snapshot
take_sent sent h = elim h.cache [
  | none ↦ save_snapshot sent h
  | some c ↦
      let saved = save_snapshot sent h in
      if sent.version == c.version
      then (h, c)
      else if not sent.reset && ltb sent.version c.version
      then (h, c)
      else saved
]

-- The section after an answer: a snapshot of another version is shown from its first page.
unfoldable pub show_fresh : HistorySection × Snapshot → HistorySection
show_fresh (h, fresh) =
    let shown = record h { cache = some fresh; checks = fresh.checks; page = 1 } in
    elim h.cache [ none ↦ shown | some c ↦ if fresh.version == c.version then h else shown ]

-- `sync`, from the answer that `fetchJSON` gives: `none` where it throws, and the section stays.
unfoldable pub sync_history : Option SentHistory → HistorySection → Option HistorySection
unfolding take_sent show_fresh
sync_history none h = none
sync_history (some sent) h = some (show_fresh (take_sent sent h))

-- What `fetchJSON` makes of the handler's replies.
unfoldable pub history_sent : HistoryReply → Option SentHistory
history_sent (nothing_new version) = some (record { version = version; reset = false; checks = [] })
history_sent (cached_history b) =
    some (record { version = b.version; reset = b.reset; checks = b.checks })
history_sent (history b) = some (record { version = b.version; reset = b.reset; checks = b.checks })
history_sent _ = none

-- The parameter `since` of the request.
unfoldable pub since_of : Option Snapshot → Option (Option ℕ)
since_of none = none
since_of (some c) = some (some c.version)

-- The start of the section, once the store has been read; with no database it starts empty.
unfoldable pub start_section : Bool → Option Snapshot → HistorySection
start_section false stored = record {
  db = false;
  stored = stored;
  cache = none;
  checks = [];
  page = 1;
}
start_section true none = record { db = true; stored = none; cache = none; checks = []; page = 1 }
start_section true (some s) = record {
  db = true;
  stored = some s;
  cache = some s;
  checks = s.checks;
  page = 1;
}

abbrev pub history_page_size : ℕ
history_page_size = 100

-- `render`: the page that is settled on, and its rows.
unfoldable pub history_pages : List IpCheckHistoryRow → ℕ
history_pages checks =
    let pages = (length checks + (history_page_size - 1)) / history_page_size in
    if ltb pages 1 then 1 else pages

unfoldable pub render_history : HistorySection → HistorySection × List IpCheckHistoryRow
unfolding history_pages
render_history h =
    let total = history_pages h.checks in
    let below = if ltb total h.page then total else h.page in
    let settled = if ltb below 1 then 1 else below in
    let rows = take history_page_size (drop ((settled - 1) * history_page_size) h.checks) in
    elim h.checks [ [] ↦ (h, []) | c ∷ cs ↦ (record h { page = settled }, rows) ]

-- The section's two buttons.
unfoldable pub history_prev : HistorySection → HistorySection × List IpCheckHistoryRow
unfolding render_history
history_prev h = render_history (record h { page = h.page - 1 })

unfoldable pub history_next : HistorySection → HistorySection × List IpCheckHistoryRow
unfolding render_history
history_next h = render_history (record h { page = h.page + 1 })

pub record OriginTag : Type 0 where
  pub tag : Text
  pub reason : Text

-- A character that `.` of a regular expression does not match.
abbrev ends_line : ℕ → Bool
ends_line c = (c == 10) || ((c == 13) || ((c == 8232) || (c == 8233)))

-- The match of /^(scan|recheck):(.*)$/.
unfoldable pub origin_tag : Text → OriginTag
unfolding starts_with
origin_tag reason =
    let scan_rest = drop 5 reason in
    let recheck_rest = drop 8 reason in
    if starts_with reason (codes "scan:") && not (any ends_line scan_rest)
    then record { tag = codes "[scan] "; reason = scan_rest }
    else if starts_with reason (codes "recheck:") && not (any ends_line recheck_rest)
    then record { tag = codes "[recheck] "; reason = recheck_rest }
    else record { tag = []; reason = reason }

-- `reasonLabels[reason] || reason`; the keys of Object.prototype are no reasons.
unfoldable pub reason_text : Text → Text
unfolding text_eq
reason_text reason =
    if text_eq reason (codes "dial")
    then codes "tcp: TCP dial timeout"
    else if text_eq reason (codes "handshake")
    then codes "tls: TLS handshake failed"
    else if text_eq reason (codes "cn")
    then codes "tls: Certificate CN mismatch"
    else if text_eq reason (codes "http")
    then codes "http: HTTP timeout"
    else if text_eq reason (codes "status")
    then codes "http: HTTP status code mismatch"
    else if text_eq reason (codes "ping")
    then codes "icmp: ICMP ping timeout"
    else if text_eq reason (codes "rtt")
    then codes "rtt: RTT out of range"
    else reason

unfoldable pub reason_label : IpCheckHistoryRow → Text
unfolding origin_tag reason_text contains text_eq
reason_label check =
    let origin = origin_tag check.reason in
    let ping =
      if contains (codes "rtt_too_low") check.detail
      then codes "icmp: RTT too low"
      else codes "icmp: ICMP ping timeout" in
    if text_eq origin.reason (codes "ping")
    then origin.tag ++ ping
    else origin.tag ++ reason_text origin.reason

-- What a row of the table says. `reason` and `detail` stand in one cell, which is a dash where both are
-- empty.
pub record HistoryCells : Type 0 where
  pub unreachable : Bool
  pub time : Text
  pub result : Text
  pub reason : Text
  pub detail : Text
  pub rtt : Text

unfoldable pub build_row : IpCheckHistoryRow → HistoryCells
unfolding format_time origin_tag reason_label trim decimal_text
build_row check =
    let label = if check.ok then trim (origin_tag check.reason).tag else reason_label check in
    record {
      unreachable = not check.ok;
      time = format_time (some check.checked_at);
      result = if check.ok then codes "✓" else codes "✗";
      reason = if text_eq label [] && text_eq check.detail [] then codes "-" else label;
      detail = check.detail;
      rtt = if check.rtt_ms == 0 then codes "-" else decimal_text check.rtt_ms ++ codes " ms";
    }
