-- ===== src/Store/Publishing.antt =====
-- `topIPsForPublish` and `pendingIPsForPTRRefresh` of src/store.ts.
use gwsdb.Prelude.{
  ℕ, ◌-◌, ◌*◌, ◌/◌, Text, Bool, true, false, not, ◌&&◌, ◌||◌, List, ◌++◌, map, ltb, leb, ◌==◌,
  if◌then◌else◌, is_some, or_else, length, take, keep,
}
use gwsdb.Store.Schema.{PoolRow, Db}
use gwsdb.Store.Tables.{before, is_true}
use gwsdb.Store.Reads.{sort_by}

-- ORDER BY times_seen DESC, last_rtt_ms ASC, of rows whose last_rtt_ms is not NULL.
unfoldable pub by_times_seen : PoolRow → PoolRow → Bool
by_times_seen a b =
    ltb b.times_seen a.times_seen
    || ((a.times_seen == b.times_seen) && ltb (or_else a.last_rtt_ms 0) (or_else b.last_rtt_ms 0))

abbrev same_family : Bool → Bool → Bool
same_family true b = b
same_family false b = not b

-- The WHERE of `topIPsForPublish`: `is_ipv6 = ?` AND last_check_ok = 1 AND last_rtt_ms IS NOT NULL.
unfoldable pub is_publishable : Bool → PoolRow → Bool
is_publishable v6 r = same_family v6 r.is_ipv6 && (is_true r.last_check_ok && is_some r.last_rtt_ms)

unfoldable pub top_ips_for_publish : Db → Bool → ℕ → List Text
unfolding sort_by by_times_seen is_publishable
top_ips_for_publish db v6 limit =
    map (λ r. r.ip) (take limit (sort_by by_times_seen (keep (is_publishable v6) db.pool)))

abbrev pub thirty_days_ms : ℕ
thirty_days_ms = 30 * 24 * 60 * 60 * 1000

abbrev day_ms : ℕ
day_ms = 24 * 60 * 60 * 1000

-- `ptr_checked_at < datetime('now', '-30 days')` compares the ISO text `YYYY-MM-DDT…` with the text
-- `YYYY-MM-DD …`; a space sorts before `T`, so a time of the cutoff's own day is not before it.
unfoldable pub refresh_cutoff : ℕ → ℕ
refresh_cutoff now = (now - thirty_days_ms) / day_ms * day_ms

-- ORDER BY ptr_checked_at ASC
unfoldable pub by_ptr_checked : PoolRow → PoolRow → Bool
by_ptr_checked a b = ltb (or_else a.ptr_checked_at 0) (or_else b.ptr_checked_at 0)

-- The two SELECTs: the rows never checked, and those checked before the cutoff.
unfoldable pub never_checked : Db → ℕ → List Text
never_checked db limit =
    map (λ r. r.ip) (take limit (keep (λ r. not (is_some r.ptr_checked_at)) db.pool))

unfoldable pub checked_before : Db → ℕ → ℕ → List Text
unfolding sort_by by_ptr_checked
checked_before db cutoff limit =
    map (λ r. r.ip)
      (take limit (sort_by by_ptr_checked (keep (λ r. before r.ptr_checked_at cutoff) db.pool)))

unfoldable pub pending_ips_for_ptr_refresh : Db → ℕ → ℕ → List Text
unfolding never_checked checked_before refresh_cutoff
pending_ips_for_ptr_refresh db limit now =
    let unchecked = never_checked db limit in
    if leb limit (length unchecked)
    then unchecked
    else unchecked ++ checked_before db (refresh_cutoff now) (limit - length unchecked)
