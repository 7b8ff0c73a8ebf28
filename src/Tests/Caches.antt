-- ===== src/Tests/Caches.antt =====
-- The look-up caches, with a resolver of fixed answers.
use gwsdb.Prelude.{
  ℕ, Text, codes, true, false, Option, none, some, List, [], ◌∷◌, ◌≡◌, ◌≤◌, ◌+◌, ◌*◌, refl, arith,
  All, In, if◌then◌else◌, any, text_eq, ◌==◌, starts_with,
}
use gwsdb.IpAddr.{IpRange, ip_to_hex, prefix_to_range}
use gwsdb.IpAddr.Hex.{decimal_value}
use gwsdb.Store.Caches.{
  HostCacheEntry, HostRow, AsnCacheEntry, AsnRow, get_host, save_host, get_asn, save_asn, asn_entry,
  covers, is_expired,
}
use gwsdb.Store.Caches.Hosts.{save_host-get_host}
use gwsdb.Store.Caches.Prefixes.{get_asn-Longest, save_asn-get_asn}
use gwsdb.Dns.Lookups.{Resolver, body, DohAnswer, HostLookup, lookup_host, type_a, type_txt}
use gwsdb.Dns.Caching.{
  resolve_and_cache_host, lookup_google_asn, asn_gate, found_nothing, fresh_host, is_google_name,
}
use gwsdb.Dns.Caching.Hosts.{resolve_and_cache_host-get_host}
use gwsdb.Dns.Caching.Gate.{IsGoogleRow, lookup_google_asn-IsGoogleRow}
use gwsdb.Dns.Caching.{is_google}
use gwsdb.Tests.Fixtures.{noon, google}

abbrev dns_google : Text
dns_google = codes "dfw06s16-in-f31.1e100.net"

abbrev answer : ℕ → Text → DohAnswer
answer type text = record { name = []; type = type; ttl = 300; data_ = text }

-- Answers for one host, and for the AS of 8.8.8.0/24.
abbrev fixed : Resolver
fixed name type =
    if (type == type_a)
    then body 0 (some (answer type_a google ∷ []))
    else if type == type_txt
    then body 0 (
        some (
          answer type_txt (
            if starts_with name (codes "AS")
            then codes "\"15169 | US | arin | 2000-03-30 | GOOGLE, US\""
            else codes "\"15169 | 8.8.8.0/24 | US | arin | 2023-12-28\"")
          ∷ []))
    else body 3 none

abbrev number : Text → Option ℕ
number t = some (decimal_value t)

found_asn : asn_gate (lookup_google_asn number fixed noon noon google []) ≡ is_google
unfolding lookup_google_asn asn_gate
found_asn = refl

abbrev google_entry : AsnCacheEntry
google_entry = record {
  ip = google;
  asn = 15169;
  as_name = codes "GOOGLE, US";
  prefix = codes "8.8.8.0/24";
  country = codes "US";
  lookup_ok = true;
  ttl_seconds = 3600;
  checked_at = noon;
}

abbrev google_range : IpRange
google_range = record { start = 134744064; end_ = 134744319; prefix_len = 24; is_ipv6 = false }

google_prefix : prefix_to_range number google_entry.prefix ≡ some google_range
unfolding prefix_to_range
google_prefix = refl

google_point : ip_to_hex (codes "8.8.8.4") ≡ some 134744068
unfolding ip_to_hex
google_point = refl

save_asn-get_asn_example :
    get_asn (noon + 1000) (codes "8.8.8.4") (save_asn number google_entry [])
    ≡ some (record google_entry { ip = codes "8.8.8.4" })
save_asn-get_asn_example =
    save_asn-get_asn number (noon + 1000) google_entry [] google_range (codes "8.8.8.4") 134744068
      google_prefix refl google_point refl (omega arith) (omega arith) tt (omega arith)

abbrev google_rows : List AsnRow
google_rows =
    record {
      prefix = codes "8.8.8.0/24";
      is_ipv6 = false;
      range_start = 134744064;
      range_end = 134744319;
      prefix_len = 24;
      asn = some 15169;
      as_name = some (codes "GOOGLE, US");
      country = some (codes "US");
      lookup_ok = true;
      ttl_seconds = 3600;
      checked_at = noon;
    }
    ∷ []

cached_google : get_asn noon google google_rows ≡ some google_entry
unfolding get_asn
cached_google = refl

google_rows-AllGoogle : All IsGoogleRow google_rows
unfolding is_google_name
google_rows-AllGoogle = ((refl, refl), tt)

get_asn-Longest_example :
    (r : AsnRow) × (point : ℕ) × (ip_to_hex google ≡ some point)
    × In r google_rows
    × (covers (any (λ c. c == b':') google) point r ≡ true)
    × All
        (λ q. covers (any (λ c. c == b':') google) point q ≡ true → q.prefix_len ≤ r.prefix_len)
        google_rows
    × (asn_entry noon google r ≡ some google_entry)
    × (noon ≤ r.checked_at + r.ttl_seconds * 1000)
get_asn-Longest_example = get_asn-Longest noon google google_rows google_entry cached_google

looked_google :
    lookup_google_asn number fixed noon noon google []
    ≡ some (
      google_rows,
      (
        record {
          asn = 15169;
          as_name = codes "GOOGLE, US";
          prefix = codes "8.8.8.0/24";
          country = codes "US";
        },
        true,
      ),
    )
unfolding lookup_google_asn
looked_google = refl

lookup_google_asn-IsGoogleRow_example : All IsGoogleRow google_rows
lookup_google_asn-IsGoogleRow_example =
    lookup_google_asn-IsGoogleRow number fixed noon noon google [] google_rows _ tt looked_google

abbrev dns_entry : HostCacheEntry
dns_entry = record {
  hostname = dns_google;
  ipv4 = google ∷ codes "8.8.4.4" ∷ [];
  ipv6 = [];
  lookup_ok = true;
  ttl_seconds = 3600;
  checked_at = noon;
}

save_host-get_host_example :
    (get_host noon dns_google (save_host dns_entry [])
      ≡ (if is_expired noon noon 3600 then none else some dns_entry))
    × ((h : Text)
        → text_eq dns_google h ≡ false
        → get_host noon h (save_host dns_entry []) ≡ get_host noon h [])
save_host-get_host_example =
    save_host-get_host dns_entry [] noon ((omega arith, refl), ((omega arith, refl), tt)) tt

abbrev dns_lookup : HostLookup
dns_lookup = record { ipv4 = google ∷ []; ipv6 = []; ttl_seconds = 300; ok = true }

looked_host : lookup_host fixed dns_google ≡ some dns_lookup
unfolding lookup_host
looked_host = refl

resolve_and_cache_host-get_host_example :
    (kept : List HostRow) × (resolve_and_cache_host fixed noon dns_google []
      ≡ some (kept, (google ∷ [], [])))
    × (get_host (noon + 60_000) dns_google kept ≡ (
        if found_nothing dns_lookup
        then get_host (noon + 60_000) dns_google []
        else some (fresh_host noon dns_google dns_lookup)))
resolve_and_cache_host-get_host_example =
    resolve_and_cache_host-get_host fixed noon (noon + 60_000) dns_google [] dns_lookup looked_host
      ((omega arith, refl), tt) tt (omega arith)
