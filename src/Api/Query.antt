-- ===== src/Api/Query.antt =====
-- GET /query (functions/query.ts): what it looks up and shows. The page's markup is left out, and
-- times are kept as they are stored, where the page holds their text. One clock stands for every
-- reading of it in a request; the rate limit's read does not fail.
pub mod Gated
pub mod Page
use gwsdb.Prelude.{
  ℕ, Text, codes, text_eq, Bool, true, false, not, ◌||◌, Option, none, some, List, [], ◌∷◌, ◌++◌,
  map, if◌then◌else◌, or_else, join,
}
use gwsdb.IpAddr.{is_ip_address, normalize_ip_address}
use gwsdb.Store.Schema.{Db, query}
use gwsdb.Store.Reads.{IpStatus, ip_status_for}
use gwsdb.Store.RateLimit.{check_rate_limit}
use gwsdb.Store.Caches.{HostRow, AsnRow, get_ptr, get_host}
use gwsdb.Geo.{Location, decode, decode_best}
use gwsdb.Geo.Names.{trim}
use gwsdb.Geo.Sibling.{is_hostname, sibling_hostname}
use gwsdb.Dns.Lookups.{Resolver}
use gwsdb.Dns.Asn.{AsnInfo}
use gwsdb.Dns.Caching.{
  resolve_and_cache_ptr, resolve_and_cache_host, is_google_asn, lookup_google_asn,
}

-- The database with the two caches that it keeps beside the pool.
pub record World : Type 0 where
  pub db : Db
  pub hosts : List HostRow
  pub asns : List AsnRow

pub record AddrStatus : Type 0 where
  pub addr : Text
  pub status : Text

pub record HostnameForm : Type 0 where
  pub hostname : Text
  pub ipv4 : List AddrStatus
  pub ipv6 : List AddrStatus
  pub failed : Bool

pub record QueryData : Type 0 where
  pub query : Text
  pub submitted : Bool
  pub error : Text
  pub ptr_hostnames : List Text
  pub ptr_failed : Bool
  pub matched : Bool
  pub airport_code : Text
  pub city : Text
  pub country : Text
  pub has_history : Bool
  pub status : Text
  pub first_seen : Option ℕ
  pub last_seen : Option ℕ
  pub times_seen : ℕ
  pub last_rtt_ms : ℕ
  pub query_is_hostname : Bool
  pub hostname_forms : List HostnameForm
  pub can_probe : Bool

unfoldable pub empty_data : Text → QueryData
empty_data q = record {
  query = q;
  submitted = false;
  error = [];
  ptr_hostnames = [];
  ptr_failed = false;
  matched = false;
  airport_code = [];
  city = [];
  country = [];
  has_history = false;
  status = [];
  first_seen = none;
  last_seen = none;
  times_seen = 0;
  last_rtt_ms = 0;
  query_is_hostname = false;
  hostname_forms = [];
  can_probe = false;
}

unfoldable pub reachability_status : Option IpStatus → Text
reachability_status none = codes "-"
reachability_status (some st) =
    if not st.has_check
    then codes "-"
    else if st.last_check_ok
    then codes "Reachable"
    else codes "Unreachable"

unfoldable pub status_for_ip : Db → Text → Text
unfolding reachability_status ip_status_for
status_for_ip db ip = reachability_status (ip_status_for db ip)

abbrev addr_status : Db → Text → AddrStatus
addr_status db addr = record { addr = addr; status = status_for_ip db addr }

unfoldable pub form_of : Db → Text → List Text × List Text → HostnameForm
unfolding status_for_ip normalize_ip_address
form_of db hostname (v4, v6) = record {
  hostname = hostname;
  ipv4 = map (addr_status db) v4;
  ipv6 = map (λ a. addr_status db (or_else (normalize_ip_address a) a)) v6;
  failed = false;
}

unfoldable pub resolve_hostname_form : Resolver → ℕ → Text → World → World × HostnameForm
unfolding get_host resolve_and_cache_host form_of
resolve_hostname_form resolver now hostname w = elim (get_host now hostname w.hosts) [
  | some cached ↦ (w, form_of w.db hostname (cached.ipv4, cached.ipv6))
  | none ↦ elim (resolve_and_cache_host resolver now hostname w.hosts) [
    | none ↦ (w, record { hostname = hostname; ipv4 = []; ipv6 = []; failed = true })
    | some (hosts, found) ↦ (record w { hosts = hosts }, form_of w.db hostname found)
  ]
]

-- The place that a location gives the page.
unfoldable pub with_location : Location → QueryData → QueryData
with_location loc data_ = record data_ {
  matched = loc.matched;
  airport_code = loc.airport_code;
  city = loc.city;
  country = loc.country;
}

unfoldable pub lookup_hostname_query : Resolver → ℕ → Text → World → QueryData → World × QueryData
unfolding decode with_location resolve_hostname_form sibling_hostname
lookup_hostname_query resolver now hostname w data_ =
    let (w1, form) = resolve_hostname_form resolver now hostname w in
    let placed = with_location (decode hostname) data_ in
    elim (sibling_hostname hostname) [
      | none ↦ (w1, record placed { hostname_forms = form ∷ [] })
      | some sibling ↦
          let (w2, other) = resolve_hostname_form resolver now sibling w1 in
          (w2, record placed { hostname_forms = form ∷ other ∷ [] })
    ]

-- The PTR names, from the cache or live: `none` where the look-up throws.
unfoldable pub ptr_names : Resolver → ℕ → Text → Db → Db × Option (List Text × Bool)
unfolding get_ptr resolve_and_cache_ptr
ptr_names resolver now ip db = elim (get_ptr now ip db) [
  | some cached ↦ (db, some (cached.ptr_hostnames, cached.lookup_ok))
  | none ↦ elim (resolve_and_cache_ptr resolver now ip db) [
    | none ↦ (db, none)
    | some (db1, found) ↦ (db1, some found)
  ]
]

unfoldable pub with_names : Option (List Text × Bool) → QueryData → QueryData
unfolding decode_best with_location
with_names none data_ = record data_ { ptr_failed = true }
with_names (some (hostnames, false)) data_ = data_
with_names (some (hostnames, true)) data_ =
    with_location (decode_best hostnames) (record data_ { ptr_hostnames = hostnames })

unfoldable pub with_status : Option IpStatus → QueryData → QueryData
unfolding reachability_status
with_status none data_ = record data_ { status = reachability_status none }
with_status (some st) data_ = record data_ {
  has_history = true;
  first_seen = st.first_seen;
  last_seen = st.last_seen;
  times_seen = st.times_seen;
  last_rtt_ms = st.last_rtt_ms;
  status = reachability_status (some st);
}

unfoldable pub lookup_ip_query : Resolver → ℕ → Text → World → QueryData → World × QueryData
unfolding ptr_names with_names with_status ip_status_for
lookup_ip_query resolver now ip w data_ =
    let (db, names) = ptr_names resolver now ip w.db in
    (record w { db = db }, with_status (ip_status_for db ip) (with_names names data_))

abbrev pub query_rate_limit_per_hour : ℕ
query_rate_limit_per_hour = 100

abbrev too_many : Text
too_many = codes "Too many queries from your network; please try again later"

-- `underQueryRateLimit`; a missing client header is the empty text.
unfoldable pub under_query_rate_limit : ℕ → Text → Db → Db × Bool
unfolding check_rate_limit
under_query_rate_limit now [] db = (db, true)
under_query_rate_limit now (c ∷ s) db =
    check_rate_limit query (c ∷ s) query_rate_limit_per_hour 3_600_000 now db

-- The gate on the AS, and the look-up behind it.
unfoldable pub gated_query :
    Resolver
    → ℕ
    → Text
    → Option (List AsnRow × (AsnInfo × Bool))
    → World
    → QueryData
    → World × QueryData
unfolding is_google_asn lookup_ip_query
gated_query resolver now q none w data_ = (
  w,
  record data_ {
    error = codes "Could not verify this IP's ASN right now (the lookup failed); please try again";
  },
)
gated_query resolver now q (some (asns, (info, ok))) w data_ =
    let shown = lookup_ip_query resolver now q (record w { asns = asns }) data_ in
    if not ok || not (is_google_asn info)
    then (
      record w { asns = asns },
      record data_ { error = codes "This IP does not belong to a Google ASN" },
    )
    else shown

-- A redirect names the address that `ip` of the new location is set to.
pub data QueryReply : Type 0 where
  redirect : Text → QueryReply
  page : QueryData → QueryReply

unfoldable pub start_data : Bool → Text → QueryData
unfolding empty_data
start_data can_probe q = record (empty_data q) { can_probe = can_probe }

unfoldable pub submit_address :
    (Text → Option ℕ) → Resolver → ℕ → Text → Bool → Text → World → World × QueryData
unfolding start_data under_query_rate_limit lookup_google_asn gated_query
submit_address number resolver now client can_probe q w =
    let data_ = record (start_data can_probe q) { submitted = true } in
    let (db, under) = under_query_rate_limit now client w.db in
    let w1 = record w { db = db } in
    let shown =
      gated_query resolver now q (lookup_google_asn number resolver now now q w.asns) w1 data_ in
    if under then shown else (w1, record data_ { error = too_many })

unfoldable pub submit_hostname : Resolver → ℕ → Text → Bool → Text → World → World × QueryData
unfolding start_data under_query_rate_limit lookup_hostname_query
submit_hostname resolver now client can_probe q w =
    let data_ = record (start_data can_probe q) { submitted = true; query_is_hostname = true } in
    let (db, under) = under_query_rate_limit now client w.db in
    let w1 = record w { db = db } in
    let shown = lookup_hostname_query resolver now q w1 data_ in
    if under then shown else (w1, record data_ { error = too_many })

-- What is submitted that is not an address.
unfoldable pub submit_other : Resolver → ℕ → Text → Bool → Text → World → World × QueryData
unfolding start_data submit_hostname is_hostname
submit_other resolver now client can_probe [] w = (w, start_data can_probe [])
submit_other resolver now client can_probe (c ∷ s) w =
    let named = submit_hostname resolver now client can_probe (c ∷ s) w in
    if is_hostname (c ∷ s) then named else (
      w,
      record (start_data can_probe (c ∷ s)) {
        submitted = true;
        error = codes "Not a valid IP address or 1e100.net hostname";
      },
    )

-- `number` is JavaScript's `Number`; `can_probe` says that the client's country is CN.
unfoldable pub query_get :
    (Text → Option ℕ) → Resolver → ℕ → Text → Bool → Text → World → World × QueryReply
unfolding is_ip_address normalize_ip_address submit_address submit_other trim
query_get number resolver now client can_probe typed w =
    let q = trim typed in
    let normalized = or_else (normalize_ip_address q) q in
    let address = submit_address number resolver now client can_probe q w in
    let other = submit_other resolver now client can_probe q w in
    if is_ip_address q
    then if text_eq normalized q then (address.0, page address.1) else (w, redirect normalized)
    else (other.0, page other.1)
