-- ===== src/Store/Caches.antt =====
-- The look-up caches of src/store.ts: `getPTR`, `getHost` and `saveHost`, `getASN` and `saveASN`, with
-- their row types and the entries of src/types.ts. A range's bounds are the numbers that their texts
-- write (IpAddr).
pub mod Lists
pub mod Hosts
pub mod Prefixes
use gwsdb.Prelude.{
  ℕ, ◌+◌, ◌*◌, Text, codes, text_eq, Bool, not, ◌&&◌, Option, none, some, List, [], ◌∷◌, ◌++◌, ltb,
  leb, ◌==◌, if◌then◌else◌, or_else, is_some, keep, find, any,
}
use gwsdb.IpAddr.{IpRange, ip_to_hex, prefix_to_range}
use gwsdb.Store.Schema.{PtrRow, Db}
use gwsdb.Store.Tables.{update, ptr_row}
use gwsdb.Store.Sql.{PtrCacheEntry, join_strings}
use gwsdb.Store.Reads.{split_strings}

pub record HostCacheEntry : Type 0 where
  pub hostname : Text
  pub ipv4 : List Text
  pub ipv6 : List Text
  pub lookup_ok : Bool
  pub ttl_seconds : ℕ
  pub checked_at : ℕ

-- A row of `host_cache`.
pub record HostRow : Type 0 where
  pub hostname : Text
  pub ipv4 : Option Text
  pub ipv6 : Option Text
  pub lookup_ok : Bool
  pub ttl_seconds : ℕ
  pub checked_at : ℕ

pub record AsnCacheEntry : Type 0 where
  pub ip : Text
  pub asn : ℕ
  pub as_name : Text
  pub prefix : Text
  pub country : Text
  pub lookup_ok : Bool
  pub ttl_seconds : ℕ
  pub checked_at : ℕ

-- A row of `asn_cache`.
pub record AsnRow : Type 0 where
  pub prefix : Text
  pub is_ipv6 : Bool
  pub range_start : ℕ
  pub range_end : ℕ
  pub prefix_len : ℕ
  pub asn : Option ℕ
  pub as_name : Option Text
  pub country : Option Text
  pub lookup_ok : Bool
  pub ttl_seconds : ℕ
  pub checked_at : ℕ

-- `Date.now() - checkedAt.getTime() > row.ttl_seconds * 1000`
unfoldable pub is_expired : ℕ → ℕ → ℕ → Bool
is_expired now checked_at ttl_seconds = ltb (checked_at + ttl_seconds * 1000) now

unfoldable pub ptr_entry : ℕ → PtrRow → Option PtrCacheEntry
unfolding is_expired split_strings
ptr_entry now row =
    if is_expired now row.checked_at row.ttl_seconds
    then none
    else some (record {
      ip = row.ip;
      ptr_hostnames = split_strings (or_else row.ptr_hostname []);
      lookup_ok = row.lookup_ok;
      ttl_seconds = row.ttl_seconds;
      checked_at = row.checked_at;
    })

unfoldable pub get_ptr : ℕ → Text → Db → Option PtrCacheEntry
unfolding ptr_entry
get_ptr now ip db = elim (ptr_row ip db.ptr_cache) [ none ↦ none | some row ↦ ptr_entry now row ]

abbrev pub host_row : Text → List HostRow → Option HostRow
host_row hostname = find (λ r. text_eq r.hostname hostname)

unfoldable pub host_entry : ℕ → HostRow → Option HostCacheEntry
unfolding is_expired split_strings
host_entry now row =
    if is_expired now row.checked_at row.ttl_seconds
    then none
    else some (record {
      hostname = row.hostname;
      ipv4 = split_strings (or_else row.ipv4 []);
      ipv6 = split_strings (or_else row.ipv6 []);
      lookup_ok = row.lookup_ok;
      ttl_seconds = row.ttl_seconds;
      checked_at = row.checked_at;
    })

unfoldable pub get_host : ℕ → Text → List HostRow → Option HostCacheEntry
unfolding host_entry
get_host now hostname hosts = elim (host_row hostname hosts) [
  | none ↦ none
  | some row ↦ host_entry now row
]

-- The columns that `saveHost` writes.
unfoldable pub set_host : HostCacheEntry → Text → HostRow
set_host e hostname = record {
  hostname = hostname;
  ipv4 = some (join_strings e.ipv4);
  ipv6 = some (join_strings e.ipv6);
  lookup_ok = e.lookup_ok;
  ttl_seconds = e.ttl_seconds;
  checked_at = e.checked_at;
}

unfoldable pub save_host : HostCacheEntry → List HostRow → List HostRow
unfolding set_host update
save_host e hosts =
    if is_some (host_row e.hostname hosts)
    then update (λ r. text_eq r.hostname e.hostname) (λ r. set_host e r.hostname) hosts
    else hosts ++ set_host e e.hostname ∷ []

-- `WHERE is_ipv6 = ? AND range_start <= ? AND range_end >= ?`
unfoldable pub covers : Bool → ℕ → AsnRow → Bool
covers v6 point r =
    (if v6 then r.is_ipv6 else not r.is_ipv6) && (leb r.range_start point && leb point r.range_end)

-- `ORDER BY prefix_len DESC LIMIT 1`
unfoldable pub most_specific : List AsnRow → Option AsnRow
most_specific [] = none
most_specific (r ∷ rs) =
    let rest = most_specific rs in
    elim rest [ none ↦ some r | some q ↦ if ltb r.prefix_len q.prefix_len then some q else some r ]

unfoldable pub asn_entry : ℕ → Text → AsnRow → Option AsnCacheEntry
unfolding is_expired
asn_entry now ip row =
    if is_expired now row.checked_at row.ttl_seconds
    then none
    else some (record {
      ip = ip;
      asn = or_else row.asn 0;
      as_name = or_else row.as_name [];
      prefix = row.prefix;
      country = or_else row.country [];
      lookup_ok = row.lookup_ok;
      ttl_seconds = row.ttl_seconds;
      checked_at = row.checked_at;
    })

-- The row that `getASN` reads.
unfoldable pub asn_row : Text → List AsnRow → Option AsnRow
unfolding ip_to_hex covers most_specific
asn_row ip asns = elim (ip_to_hex ip) [
  | none ↦ none
  | some point ↦ most_specific (keep (covers (any (λ c. c == b':') ip) point) asns)
]

unfoldable pub get_asn : ℕ → Text → List AsnRow → Option AsnCacheEntry
unfolding asn_row asn_entry
get_asn now ip asns = elim (asn_row ip asns) [ none ↦ none | some row ↦ asn_entry now ip row ]

-- `value || null`
abbrev pub or_null : Text → Option Text
or_null [] = none
or_null (c ∷ s) = some (c ∷ s)

abbrev pub number_or_null : ℕ → Option ℕ
number_or_null n = if n == 0 then none else some n

-- The columns that `saveASN` writes anew where the prefix is there.
unfoldable pub refresh_asn : AsnCacheEntry → AsnRow → AsnRow
refresh_asn e r = record r {
  asn = number_or_null e.asn;
  as_name = or_null e.as_name;
  country = or_null e.country;
  lookup_ok = e.lookup_ok;
  ttl_seconds = e.ttl_seconds;
  checked_at = e.checked_at;
}

unfoldable pub new_asn_row : AsnCacheEntry → IpRange → AsnRow
new_asn_row e range = record {
  prefix = e.prefix;
  is_ipv6 = range.is_ipv6;
  range_start = range.start;
  range_end = range.end_;
  prefix_len = range.prefix_len;
  asn = number_or_null e.asn;
  as_name = or_null e.as_name;
  country = or_null e.country;
  lookup_ok = e.lookup_ok;
  ttl_seconds = e.ttl_seconds;
  checked_at = e.checked_at;
}

unfoldable pub save_asn : (Text → Option ℕ) → AsnCacheEntry → List AsnRow → List AsnRow
unfolding prefix_to_range refresh_asn new_asn_row update
save_asn number e asns = elim (prefix_to_range number e.prefix) [
  | none ↦ asns
  | some range ↦
      if any (λ r. text_eq r.prefix e.prefix) asns
      then update (λ r. text_eq r.prefix e.prefix) (refresh_asn e) asns
      else asns ++ new_asn_row e range ∷ []
]
