-- ===== src/Api/Query/Gated.antt =====
-- What GET /query shows, and what it leaves alone, where the gate on the AS is shut.
use gwsdb.Prelude.{
  ℕ, Text, Bool, true, false, not, ◌||◌, Option, none, some, List, [], ◌∷◌, ◌≡◌, ◌⊎◌, inl, inr,
  refl, arith, text_eq, or_else, if◌then◌else◌, ◌∙◌, sym, subst,
}
use gwsdb.IpAddr.{is_ip_address, normalize_ip_address}
use gwsdb.Store.Schema.{Db}
use gwsdb.Store.RateLimit.{check_rate_limit}
use gwsdb.Store.Caches.{AsnRow}
use gwsdb.Geo.{decode}
use gwsdb.Geo.Names.{trim}
use gwsdb.Geo.Sibling.{is_hostname, sibling_hostname}
use gwsdb.Dns.Lookups.{Resolver}
use gwsdb.Dns.Asn.{AsnInfo}
use gwsdb.Dns.Caching.{is_google_asn, lookup_google_asn, asn_gate}
use gwsdb.Dns.Caching.{not_google, is_google}
use gwsdb.Api.Query.{
  World, HostnameForm, QueryData, with_location, QueryReply, redirect, page, resolve_hostname_form,
  lookup_hostname_query, under_query_rate_limit, gated_query, start_data, submit_address,
  submit_hostname, submit_other, query_get,
}

-- The page shows no history, no PTR name and no status of what was asked for, and the addresses of a
-- host name, with their statuses, only if a host name was asked for; a redirect shows nothing.
pub IsClosed : QueryReply → Type 0
IsClosed (redirect t) = true ≡ true
IsClosed (page d) =
    (d.has_history ≡ false)
    × (d.ptr_hostnames ≡ [])
    × (d.status ≡ [])
    × ((d.query_is_hostname ≡ true) ⊎ (d.hostname_forms ≡ []))

-- All but the rate limit's rows are the same.
pub IsUntouched : Db → Db → Type 0
IsUntouched db after =
    (after.pool ≡ db.pool)
    × (after.checks ≡ db.checks)
    × (after.version ≡ db.version)
    × (after.ptr_cache ≡ db.ptr_cache)

under_query_rate_limit-IsUntouched :
    (now : ℕ) (client : Text) (db : Db) → IsUntouched db (under_query_rate_limit now client db).0
unfolding under_query_rate_limit check_rate_limit IsUntouched
under_query_rate_limit-IsUntouched now [] db = (refl, refl, refl, refl)
under_query_rate_limit-IsUntouched now (c ∷ s) db =
    (ground arith, ground arith, ground arith, ground arith)

resolve_hostname_form-db :
    (resolver : Resolver) (now : ℕ) (hostname : Text) (w : World)
    → (resolve_hostname_form resolver now hostname w).0.db ≡ w.db
unfolding resolve_hostname_form
resolve_hostname_form-db resolver now hostname w = ground arith

-- What an outcome of a request must be, where the gate is shut.
abbrev IsSealed : World → World × QueryData → Type 0
IsSealed w r = IsClosed (page r.1) × IsUntouched w.db r.0.db

if_both : {A : Type 0} (P : A → Type 0) (b : Bool) (x y : A) → P x → P y → P (if b then x else y)
if_both P true x y px py = px
if_both P false x y px py = py

-- The branch that a shut gate takes.
if_shut :
    {A : Type 0} (P : A → Type 0) (b : Bool) (x y : A)
    → ¬ ((if b then not_google else is_google) ≡ is_google)
    → P x
    → P (if b then x else y)
if_shut P true x y shut px = px
if_shut P false x y shut px = absurd (shut refl)

gated_query-IsClosed :
    (resolver : Resolver) (now : ℕ) (q : Text) (found : Option (List AsnRow × (AsnInfo × Bool)))
    (w : World) (data_ : QueryData)
    → ¬ (asn_gate found ≡ is_google)
    → IsClosed (page data_)
    → IsClosed (page (gated_query resolver now q found w data_).1)
      × ((gated_query resolver now q found w data_).0.db ≡ w.db)
unfolding gated_query asn_gate IsClosed
gated_query-IsClosed resolver now q none w data_ shut closed = (closed, refl)
gated_query-IsClosed resolver now q (some (asns, (info, ok))) w data_ shut closed =
    if_shut {A = World × QueryData} (λ r. IsClosed (page r.1) × (r.0.db ≡ w.db))
      (not ok || not (is_google_asn info)) _ _ shut (closed, refl)

lookup_hostname_query-db :
    (resolver : Resolver) (now : ℕ) (q : Text) (w : World) (data_ : QueryData)
    → data_.query_is_hostname ≡ true
    → IsClosed (page data_)
    → IsClosed (page (lookup_hostname_query resolver now q w data_).1)
      × ((lookup_hostname_query resolver now q w data_).0.db ≡ w.db)
unfolding lookup_hostname_query with_location IsClosed
lookup_hostname_query-db resolver now q w data_ named (old, names, status, forms) =
    go (sibling_hostname q)
  where
    first : World × HostnameForm
    first = resolve_hostname_form resolver now q w

    placed : QueryData
    placed = with_location (decode q) data_

    rest : Option Text → World × QueryData
    rest found = elim found [
      | none ↦ (first.0, record placed { hostname_forms = first.1 ∷ [] })
      | some sibling ↦
          let (w2, other) = resolve_hostname_form resolver now sibling first.0 in
          (w2, record placed { hostname_forms = first.1 ∷ other ∷ [] })
    ]

    go : (found : Option Text) → IsClosed (page (rest found).1) × ((rest found).0.db ≡ w.db)
    go none = ((old, names, status, inl named), resolve_hostname_form-db resolver now q w)
    go (some sibling) = (
      (old, names, status, inl named),
      resolve_hostname_form-db resolver now sibling first.0
          ∙ resolve_hostname_form-db resolver now q w,
    )

-- A look-up behind the rate limit.
limited :
    (now : ℕ) (client : Text) (w : World) (shown refused : World × QueryData)
    → refused.0.db ≡ (under_query_rate_limit now client w.db).0
    → IsClosed (page shown.1) × (shown.0.db ≡ (under_query_rate_limit now client w.db).0)
    → IsClosed (page refused.1)
    → IsSealed w (if (under_query_rate_limit now client w.db).1 then shown else refused)
limited now client w shown refused same (closed, at) rest =
    let kept = under_query_rate_limit-IsUntouched now client w.db in
    if_both (IsSealed w) (under_query_rate_limit now client w.db).1 shown refused
      (closed, subst (IsUntouched w.db) (sym at) kept)
      (rest, subst (IsUntouched w.db) (sym same) kept)

submit_address-IsClosed :
    (number : Text → Option ℕ) (resolver : Resolver) (now : ℕ) (client : Text) (can_probe : Bool)
    (q : Text) (w : World)
    → ¬ (asn_gate (lookup_google_asn number resolver now now q w.asns) ≡ is_google)
    → IsClosed (page (submit_address number resolver now client can_probe q w).1)
      × IsUntouched w.db (submit_address number resolver now client can_probe q w).0.db
unfolding submit_address IsClosed
submit_address-IsClosed number resolver now client can_probe q w shut =
    limited now client w _ _ refl
      (gated_query-IsClosed resolver now q _ _ _ shut (refl, refl, refl, inr refl))
      (refl, refl, refl, inr refl)

submit_hostname-IsClosed :
    (resolver : Resolver) (now : ℕ) (client : Text) (can_probe : Bool) (q : Text) (w : World)
    → IsClosed (page (submit_hostname resolver now client can_probe q w).1)
      × IsUntouched w.db (submit_hostname resolver now client can_probe q w).0.db
unfolding submit_hostname start_data IsClosed
submit_hostname-IsClosed resolver now client can_probe q w =
    limited now client w _ _ refl
      (lookup_hostname_query-db resolver now q _
        (record (start_data can_probe q) { submitted = true; query_is_hostname = true }) refl
        (refl, refl, refl, inl refl))
      (refl, refl, refl, inl refl)

submit_other-IsClosed :
    (resolver : Resolver) (now : ℕ) (client : Text) (can_probe : Bool) (q : Text) (w : World)
    → IsClosed (page (submit_other resolver now client can_probe q w).1)
      × IsUntouched w.db (submit_other resolver now client can_probe q w).0.db
unfolding submit_other start_data IsClosed IsUntouched
submit_other-IsClosed resolver now client can_probe [] w =
    ((refl, refl, refl, inr refl), (refl, refl, refl, refl))
submit_other-IsClosed resolver now client can_probe (c ∷ s) w =
    if_both (IsSealed w) (is_hostname (c ∷ s)) _ _
      (submit_hostname-IsClosed resolver now client can_probe (c ∷ s) w)
      ((refl, refl, refl, inr refl), (refl, refl, refl, refl))

-- A request for whose trimmed text the gate on the AS is not open, the look-up having failed
-- included, is answered with a redirect or with a page that shows no history, no PTR name and no status
-- of what was asked for, and that lists addresses with their statuses only for a host name, which the
-- gate is not asked about; the pool, the checks, the version and the PTR cache are left as they were.
pub query_get-IsClosed :
    (number : Text → Option ℕ) (resolver : Resolver) (now : ℕ) (client : Text) (can_probe : Bool)
    (typed : Text) (w : World)
    → ¬ (asn_gate (lookup_google_asn number resolver now now (trim typed) w.asns) ≡ is_google)
    → IsClosed (query_get number resolver now client can_probe typed w).1
      × IsUntouched w.db (query_get number resolver now client can_probe typed w).0.db
unfolding query_get IsClosed IsUntouched
query_get-IsClosed number resolver now client can_probe typed w shut =
    if_both {A = World × QueryReply} (λ r. IsClosed r.1 × IsUntouched w.db r.0.db)
      (is_ip_address (trim typed)) _ _
      (if_both {A = World × QueryReply} (λ r. IsClosed r.1 × IsUntouched w.db r.0.db)
        (text_eq (or_else (normalize_ip_address (trim typed)) (trim typed)) (trim typed)) _ _
        (submit_address-IsClosed number resolver now client can_probe (trim typed) w shut)
        (refl, (refl, refl, refl, refl)))
      (submit_other-IsClosed resolver now client can_probe (trim typed) w)
