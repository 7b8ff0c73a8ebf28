-- ===== src/Dns/Caching.antt =====
-- src/dnsCache.ts: the live look-ups with the caches of src/store.ts around them, and the gate on the
-- AS that functions/check.ts builds of them. Its `clampTTL` is that of src/ptrRefresh.ts. The clock
-- is read where an entry is made; a look-up that throws is `none`.
pub mod Gate
pub mod Hosts
use gwsdb.Prelude.{
  ℕ, ◌-◌, Text, codes, text_eq, starts_with, Bool, true, false, not, ◌&&◌, ◌||◌, Option, none, some,
  List, [], ◌∷◌, map, leb, if◌then◌else◌, length, ◌==◌,
}
use gwsdb.Geo.{Location, decode}
use gwsdb.Store.Schema.{Db}
use gwsdb.Store.Sql.{PtrCacheEntry}
use gwsdb.Store.Writes.{save_ptr}
use gwsdb.Store.Caches.{
  HostCacheEntry, HostRow, AsnCacheEntry, AsnRow, save_host, get_asn, save_asn,
}
use gwsdb.Dns.Refresh.{clamp_ttl}
use gwsdb.Dns.Lookups.{Resolver, PtrLookup, HostLookup, lookup_ptr, lookup_host}
use gwsdb.Dns.Asn.{AsnInfo, AsnLookup, lookup_asn}

-- `conflictingLocations`, whose answer is only logged: the place seen first, if any, and the rest.
unfoldable pub conflicting_from : Option Location → List Text → Bool
unfolding decode text_eq
conflicting_from seen [] = false
conflicting_from seen (h ∷ hostnames) =
    let loc = decode h in
    let rest = conflicting_from seen hostnames in
    let from_here = conflicting_from (some loc) hostnames in
    if not loc.matched || text_eq loc.city [] then rest else elim seen [
      | none ↦ from_here
      | some first ↦
          if not (text_eq loc.city first.city) || not (text_eq loc.country first.country)
          then true
          else rest
    ]

unfoldable pub conflicting_locations : List Text → Bool
unfolding conflicting_from
conflicting_locations hostnames = conflicting_from none hostnames

unfoldable pub fresh_ptr : ℕ → Text → PtrLookup → PtrCacheEntry
unfolding clamp_ttl
fresh_ptr now ip found = record {
  ip = ip;
  ptr_hostnames = found.hostnames;
  lookup_ok = found.ok;
  ttl_seconds = clamp_ttl found.ttl_seconds;
  checked_at = now;
}

unfoldable pub resolve_and_cache_ptr : Resolver → ℕ → Text → Db → Option (Db × (List Text × Bool))
unfolding lookup_ptr fresh_ptr save_ptr
resolve_and_cache_ptr resolver now ip db = elim (lookup_ptr resolver ip) [
  | none ↦ none
  | some found ↦ some (save_ptr (fresh_ptr now ip found) db, (found.hostnames, found.ok))
]

unfoldable pub fresh_host : ℕ → Text → HostLookup → HostCacheEntry
unfolding clamp_ttl
fresh_host now hostname found = record {
  hostname = hostname;
  ipv4 = found.ipv4;
  ipv6 = found.ipv6;
  lookup_ok = found.ok;
  ttl_seconds = clamp_ttl found.ttl_seconds;
  checked_at = now;
}

-- `!ok || (ipv4.length === 0 && ipv6.length === 0)`
unfoldable pub found_nothing : HostLookup → Bool
found_nothing found = not found.ok || ((length found.ipv4 == 0) && (length found.ipv6 == 0))

unfoldable pub resolve_and_cache_host :
    Resolver → ℕ → Text → List HostRow → Option (List HostRow × (List Text × List Text))
unfolding lookup_host found_nothing fresh_host save_host
resolve_and_cache_host resolver now hostname hosts = elim (lookup_host resolver hostname) [
  | none ↦ none
  | some found ↦
      let kept =
        if found_nothing found then hosts else save_host (fresh_host now hostname found) hosts in
      some (kept, (found.ipv4, found.ipv6))
]

-- `s.includes(part)`
unfoldable pub contains : Text → Text → Bool
unfolding starts_with
contains part [] = starts_with [] part
contains part (c ∷ s) = starts_with (c ∷ s) part || contains part s

-- `toUpperCase` of ASCII letters; no other letter has one of GOOGLE for its upper case.
abbrev upper : ℕ → ℕ
upper c = if leb b'a' c && leb c b'z' then c - 32 else c

unfoldable pub is_google_name : Text → Bool
unfolding contains
is_google_name name = contains (codes "GOOGLE") (map upper name)

unfoldable pub is_google_asn : AsnInfo → Bool
unfolding is_google_name
is_google_asn info = is_google_name info.as_name

unfoldable pub fresh_asn : ℕ → Text → AsnLookup → AsnCacheEntry
unfolding clamp_ttl
fresh_asn now ip found = record {
  ip = ip;
  asn = found.info.asn;
  as_name = found.info.as_name;
  prefix = found.info.prefix;
  country = found.info.country;
  lookup_ok = found.ok;
  ttl_seconds = clamp_ttl found.ttl_seconds;
  checked_at = now;
}

unfoldable pub info_of : AsnCacheEntry → AsnInfo
info_of e = record { asn = e.asn; as_name = e.as_name; prefix = e.prefix; country = e.country }

-- What follows a miss.
unfoldable pub keep_google :
    (Text → Option ℕ) → ℕ → Text → AsnLookup → List AsnRow → List AsnRow × (AsnInfo × Bool)
unfolding is_google_asn fresh_asn save_asn
keep_google number now ip found asns =
    let kept =
      if not found.ok || not (is_google_asn found.info)
      then asns
      else save_asn number (fresh_asn now ip found) asns in
    (kept, (found.info, found.ok))

-- `number` is JavaScript's `Number` of a prefix length (IpAddr). The clock is that of the cache's read,
-- and of the entry.
unfoldable pub lookup_google_asn :
    (Text → Option ℕ)
    → Resolver
    → ℕ
    → ℕ
    → Text
    → List AsnRow
    → Option (List AsnRow × (AsnInfo × Bool))
unfolding get_asn lookup_asn keep_google info_of
lookup_google_asn number resolver asked now ip asns = elim (get_asn asked ip asns) [
  | some cached ↦ some (asns, (info_of cached, cached.lookup_ok))
  | none ↦ elim (lookup_asn resolver ip) [
    | none ↦ none
    | some found ↦ some (keep_google number now ip found asns)
  ]
]

-- What `lookupGoogleASN` and `isGoogleASN` say of an address; a failed look-up throws.
pub data AsnGate : Type 0 where
  lookup_failed not_google is_google : AsnGate

-- The gate of functions/check.ts.
unfoldable pub asn_gate : Option (List AsnRow × (AsnInfo × Bool)) → AsnGate
unfolding is_google_asn
asn_gate none = lookup_failed
asn_gate (some (asns, (info, ok))) =
    if not ok || not (is_google_asn info) then not_google else is_google
