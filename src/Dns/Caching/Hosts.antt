-- ===== src/Dns/Caching/Hosts.antt =====
-- A host's addresses, as they are looked up and as the cache gives them back (src/dnsCache.ts).
use gwsdb.Prelude.{
  ℕ, ◌+◌, ◌≤◌, Text, false, some, List, ◌≡◌, ◌∙◌, arith, All, Bool-cases, inl, inr, if◌then◌else◌,
}
use gwsdb.Store.Caches.{HostRow, get_host, save_host, is_expired}
use gwsdb.Store.Caches.Lists.{IsItem}
use gwsdb.Store.Caches.Hosts.{save_host-get_host}
use gwsdb.Dns.Refresh.{clamp_ttl}
use gwsdb.Dns.Lookups.{Resolver, HostLookup, lookup_host}
use gwsdb.Dns.Caching.{resolve_and_cache_host, fresh_host, found_nothing}

fresh_host-live :
    (now later : ℕ) (hostname : Text) (found : HostLookup)
    → later ≤ now + 3_600_000
    → is_expired later
        (fresh_host now hostname found).checked_at
        (fresh_host now hostname found).ttl_seconds
      ≡ false
unfolding is_expired fresh_host clamp_ttl
fresh_host-live now later hostname found soon = ground arith

fresh_host-served :
    (now later : ℕ) (hostname : Text) (hosts : List HostRow) (found : HostLookup)
    → All IsItem found.ipv4
    → All IsItem found.ipv6
    → later ≤ now + 3_600_000
    → get_host later hostname (save_host (fresh_host now hostname found) hosts)
      ≡ some (fresh_host now hostname found)
unfolding fresh_host
fresh_host-served now later hostname hosts found v4 v6 soon =
    (save_host-get_host (fresh_host now hostname found) hosts later v4 v6).0
    ∙ rw (fresh_host-live now later hostname found soon)

-- A look-up of a host has been answered, with addresses that are no empty texts and hold no
-- semicolon. If it found any, then the cache answers with them for an hour, whatever the TTL; if it
-- found none, then the cache answers as before.
pub resolve_and_cache_host-get_host :
    (resolver : Resolver) (now later : ℕ) (hostname : Text) (hosts : List HostRow)
    (found : HostLookup)
    → lookup_host resolver hostname ≡ some found
    → All IsItem found.ipv4
    → All IsItem found.ipv6
    → later ≤ now + 3_600_000
    → (kept : List HostRow) × (resolve_and_cache_host resolver now hostname hosts
        ≡ some (kept, (found.ipv4, found.ipv6)))
      × (get_host later hostname kept ≡ (
          if found_nothing found
          then get_host later hostname hosts
          else some (fresh_host now hostname found)))
unfolding resolve_and_cache_host
resolve_and_cache_host-get_host resolver now later hostname hosts found looked v4 v6 soon =
    elim (Bool-cases (found_nothing found)) [
      | inl empty ↦ (hosts, rw (looked, resolve_and_cache_host, empty), rw empty)
      | inr some_found ↦ (
        save_host (fresh_host now hostname found) hosts,
        rw (looked, resolve_and_cache_host, some_found),
        rw some_found (fresh_host-served now later hostname hosts found v4 v6 soon),
      )
    ]
