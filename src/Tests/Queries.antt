-- ===== src/Tests/Queries.antt =====
-- GET /query of an address that the pool knows, with the gate open and with the look-up failing.
use gwsdb.Prelude.{codes, Bool, true, false, none, some, [], ◌∷◌, ◌≡◌, refl, arith}
use gwsdb.Store.Schema.{PoolRow}
use gwsdb.Geo.Names.{trim}
use gwsdb.Dns.Lookups.{Resolver, no_response}
use gwsdb.Dns.Caching.{asn_gate, lookup_google_asn}
use gwsdb.Dns.Caching.{lookup_failed, is_google}
use gwsdb.Api.Query.{World, QueryReply, redirect, page, query_get}
use gwsdb.Api.Query.Gated.{IsClosed, IsUntouched, query_get-IsClosed}
use gwsdb.Tests.Fixtures.{number, of_google, noon, google, empty_db}

abbrev silent : Resolver
silent name type = no_response

abbrev known : PoolRow
known = record {
  ip = google;
  is_ipv6 = false;
  scan_mode = some (codes "SNI");
  first_seen = some noon;
  last_seen = some noon;
  last_rtt_ms = some 40;
  times_seen = 3;
  last_checked_at = some noon;
  last_check_ok = some true;
  ptr_checked_at = none;
  revision = 5;
  history_count = 1;
}

abbrev unsure : World
unsure = record { db = record empty_db { pool = known ∷ [] }; hosts = []; asns = [] }

abbrev sure : World
sure = record unsure { asns = of_google ∷ [] }

abbrev shows_history : QueryReply → Bool
shows_history (redirect t) = false
shows_history (page d) = d.has_history

open_page : shows_history (query_get number silent noon [] false (codes " 8.8.8.8 ") sure).1 ≡ true
unfolding query_get
open_page = refl

shut_gate : asn_gate (lookup_google_asn number silent noon noon google []) ≡ lookup_failed
unfolding asn_gate lookup_google_asn
shut_gate = refl

-- The address in its other form is redirected.
other_form :
    (query_get number silent noon [] false (codes "2001:DB8::1") unsure).1
    ≡ redirect (codes "2001:db8::1")
unfolding query_get
other_form = refl

not_open :
    ¬ (asn_gate (lookup_google_asn number silent noon noon (trim google) unsure.asns) ≡ is_google)
unfolding asn_gate lookup_google_asn trim
not_open h = absurd (ground arith)

query_get-IsClosed_example :
    IsClosed (query_get number silent noon (codes "192.0.2.1") true google unsure).1
    × IsUntouched unsure.db
        (query_get number silent noon (codes "192.0.2.1") true google unsure).0.db
query_get-IsClosed_example =
    query_get-IsClosed number silent noon (codes "192.0.2.1") true google unsure not_open
