-- ===== src/Store/Reads.antt =====
-- The reads of src/store.ts over the pool, and the row that they return (src/types.ts).
use gwsdb.Prelude.{
  ℕ, ◌+◌, length, Text, codes, text_lt, Bool, ◌&&◌, ◌||◌, Option, none, some, List, [], ◌∷◌, map,
  ltb, leb, ◌==◌, if◌then◌else◌, is_some, or_else, keep, split,
}
use gwsdb.Store.Schema.{Check, PoolRow, PtrRow, Db}
use gwsdb.Store.Tables.{pool_row, ptr_row, is_true}

pub record IpStatus : Type 0 where
  pub ip : Text
  pub revision : ℕ
  pub is_ipv6 : Bool
  pub scan_mode : Text
  pub first_seen : Option ℕ
  pub last_seen : Option ℕ
  pub last_rtt_ms : ℕ
  pub times_seen : ℕ
  pub last_checked_at : Option ℕ
  pub last_check_ok : Bool
  pub has_check : Bool
  pub ptr_hostname : List Text

unfoldable pub split_strings : Text → List Text
unfolding split
split_strings [] = []
split_strings (c ∷ s) = split (codes "; ") (c ∷ s)

abbrev pub ptr_text : Option PtrRow → Option Text
ptr_text none = none
ptr_text (some r) = r.ptr_hostname

-- `rowToIPStatus`, of a pool row and the `ptr_hostname` beside it.
unfoldable pub row_to_ip_status : PoolRow → Option Text → IpStatus
row_to_ip_status r ptr = record {
  ip = r.ip;
  revision = r.revision;
  is_ipv6 = r.is_ipv6;
  scan_mode = or_else r.scan_mode [];
  first_seen = r.first_seen;
  last_seen = r.last_seen;
  last_rtt_ms = or_else r.last_rtt_ms 0;
  times_seen = r.times_seen;
  last_checked_at = r.last_checked_at;
  last_check_ok = is_true r.last_check_ok;
  has_check = is_some r.last_check_ok;
  ptr_hostname = split_strings (or_else ptr []);
}

-- LEFT JOIN ptr_cache, COALESCE(ptr_hostname, ''), and `rowToIPStatus`.
unfoldable pub joined_status : List PtrRow → PoolRow → IpStatus
unfolding row_to_ip_status
joined_status ptrs r = row_to_ip_status r (some (or_else (ptr_text (ptr_row r.ip ptrs)) []))

abbrev pub map_option : {A B : Type 0} → (A → B) → Option A → Option B
map_option f none = none
map_option f (some a) = some (f a)

-- `ipStatusFor`, whose statement does not join the PTR cache.
unfoldable pub ip_status_for : Db → Text → Option IpStatus
unfolding row_to_ip_status
ip_status_for db ip = map_option (λ r. row_to_ip_status r none) (pool_row ip db.pool)

-- ORDER BY, for an order given by its strict test; rows that tie keep the table's order.
unfoldable pub insert_by : {A : Type 0} → (A → A → Bool) → A → List A → List A
insert_by lt x [] = x ∷ []
insert_by lt x (y ∷ ys) = if lt y x then y ∷ insert_by lt x ys else x ∷ y ∷ ys

unfoldable pub sort_by : {A : Type 0} → (A → A → Bool) → List A → List A
unfolding insert_by
sort_by lt [] = []
sort_by lt (x ∷ xs) = insert_by lt x (sort_by lt xs)

-- ORDER BY revision ASC, ip ASC
unfoldable pub by_revision : PoolRow → PoolRow → Bool
unfolding text_lt
by_revision a b = ltb a.revision b.revision || ((a.revision == b.revision) && text_lt a.ip b.ip)

unfoldable pub list_known_ips_changed : Db → ℕ → ℕ → List IpStatus
unfolding joined_status sort_by by_revision
list_known_ips_changed db after_revision through_revision = map (joined_status db.ptr_cache) (
    sort_by by_revision
      (keep (λ r. ltb after_revision r.revision && leb r.revision through_revision) db.pool))

unfoldable pub pool_version : Db → ℕ
pool_version db = db.version

unfoldable pub pool_reset_version : Db → ℕ
pool_reset_version db = db.reset_version

unfoldable pub all_known_good_ips : Db → List Text
all_known_good_ips db = map (λ r. r.ip) db.pool

-- `Stats` of src/types.ts.
pub record Stats : Type 0 where
  pub total_known_ips : ℕ
  pub total_checks : ℕ
  pub last_check_at : Option ℕ
  pub scan_mode : Text

unfoldable pub sum_times_seen : List PoolRow → ℕ
sum_times_seen [] = 0
sum_times_seen (r ∷ rs) = r.times_seen + sum_times_seen rs

-- `cachedOverviewAggregates`: the entry of the edge cache, where it has one.
unfoldable pub cached_overview_aggregates : Option (ℕ × ℕ) → Db → ℕ × ℕ
unfolding sum_times_seen
cached_overview_aggregates (some hit) db = hit
cached_overview_aggregates none db = (length db.pool, sum_times_seen db.pool)

-- ORDER BY id DESC LIMIT 1
unfoldable pub newest_check : List Check → Option Check
newest_check [] = none
newest_check (c ∷ cs) =
    let rest = newest_check cs in
    elim rest [ none ↦ some c | some d ↦ if ltb c.id d.id then some d else some c ]

unfoldable pub overview : Option (ℕ × ℕ) → Db → Stats
unfolding cached_overview_aggregates newest_check
overview cached db =
    let agg = cached_overview_aggregates cached db in
    let last = newest_check db.checks in
    record {
      total_known_ips = agg.0;
      total_checks = agg.1;
      last_check_at = map_option (λ c. c.checked_at) last;
      scan_mode = elim last [ none ↦ [] | some c ↦ c.scan_mode ];
    }
