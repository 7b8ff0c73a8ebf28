-- ===== src/Api/Pool/Full.antt =====
-- The rows that GET /api/pool answers with, put into an empty store, against the pool's public rows.
use gwsdb.Prelude.{
  ℕ, Bool, true, not, ◌==◌, if◌then◌else◌, Text, text_eq, text_eq_iff, Option, none, some, List, [],
  ◌∷◌, ◌≡◌, refl, ap, subst, ◌∙◌, arith, Bool-cases, Option-cases, inl, inr,
}
use gwsdb.Store.Schema.{PoolRow, Db}
use gwsdb.Store.Tables.{pool_row}
use gwsdb.Store.Tables.Keys.{by_key, IsKeyed}
use gwsdb.Store.Sql.Valid.{IsValid}
use gwsdb.Store.Reads.{IpStatus, pool_version, joined_status, row_to_ip_status}
use gwsdb.Store.Listing.{LoadPoolOptions, load_pool}
use gwsdb.Store.Listing.Loads.{status_ip, of_family, load_pool-HoldsRows}
use gwsdb.Store.Sync.{view}
use gwsdb.Store.Sync.Versions.{same_version}
use gwsdb.Store.Sync.History.{Reach, Reach-IsGood}
use gwsdb.Client.{Rows, put_row, put_all}
use gwsdb.Api.Changes.{Body}
use gwsdb.Api.Pool.{full, pool_get, load_full, family_of}

abbrev or_old : Option IpStatus → Option IpStatus → Option IpStatus
or_old none old = old
or_old (some row) old = some row

put_all-row :
    (rows : List IpStatus) (old : Rows) (ip : Text)
    → IsKeyed status_ip rows
    → put_all rows old ip ≡ or_old (by_key status_ip ip rows) (old ip)
unfolding put_all put_row
put_all-row [] old ip u = refl
put_all-row (row ∷ rows) old ip u = elim (Bool-cases (text_eq row.ip ip)) [
  | inl hit ↦
      let absent : by_key status_ip ip rows ≡ none =
        subst (λ (k : Text). by_key status_ip k rows ≡ none) ((text_eq_iff row.ip ip).0 hit) u.0 in
      ground (arith, absent, put_all-row rows (put_row row old) ip u.1)
  | inr miss ↦ ground (arith, put_all-row rows (put_row row old) ip u.1)
]

-- The row, if it is of the family that a page asks for.
abbrev is_of_family : Option ℕ → IpStatus → Bool
is_of_family none r = true
is_of_family (some f) r = if f == 4 then not r.is_ipv6 else if f == 6 then r.is_ipv6 else true

abbrev pub of_family_only : Option ℕ → Option IpStatus → Option IpStatus
of_family_only f none = none
of_family_only f (some r) = if is_of_family f r then some r else none

of_family_only-none : (v : Option IpStatus) → of_family_only none v ≡ v
of_family_only-none none = refl
of_family_only-none (some r) = refl

joined-family :
    (f : Option ℕ) (db : Db) (r : PoolRow)
    → is_of_family f (joined_status db.ptr_cache r) ≡ of_family f r
unfolding joined_status row_to_ip_status
joined-family none db r = refl
joined-family (some f) db r = refl

module _ (country : List Text → Text) (aggregates : Option (ℕ × ℕ)) where
  abbrev of_one : Option ℕ → LoadPoolOptions
  of_one family = record { sort_by_key = none; sort_desc = none; family = family }

  loaded-view :
      (family : Option ℕ) (db later : Db) (ip : Text)
      → IsValid db
      → put_all (load_pool country aggregates (of_one family) db later).ips (λ k. none) ip
        ≡ of_family_only family (view db ip)
  unfolding view
  loaded-view family db later ip v =
      let (rows, keyed) = load_pool-HoldsRows db v country aggregates (of_one family) later in
      elim (Option-cases (pool_row ip db.pool)) [
        | inl no_row ↦ ground (arith, put_all-row _ (λ k. none) ip keyed, rows ip)
        | inr (r, row) ↦
            ground (arith, put_all-row _ (λ k. none) ip keyed, rows ip, joined-family family db r)
      ]

  full-facts :
      (cache : Option ℕ → ℕ → Option Body) (param : Option Text) (e0 e1 e2 e3 : Db) (body : Body)
      → pool_get country aggregates cache param e0 e1 e2 e3 ≡ full body
      → (e3.version ≡ e0.version)
        × (body.version ≡ e0.version)
        × (body.ips ≡ (load_pool country aggregates (of_one (family_of param)) e1 e2).ips)
  unfolding pool_get load_full pool_version
  full-facts cache param e0 e1 e2 e3 body h =
      elim (Option-cases (cache (family_of param) e0.version)) [
        | inl miss ↦ (ground arith, ground arith, ground arith)
        | inr (hit, there) ↦ absurd (ground arith)
      ]

  -- While other requests write between the reads of the handler, a pool that it loads and answers with is that of one version, the one that it names: put into an empty store,
  -- its rows are, for each address of the family that the page asks for, or for each address if it
  -- asks for none, the pool's public row as it was when the handler first looked at the version.
  pub pool_get-family :
      (cache : Option ℕ → ℕ → Option Body) (param : Option Text) (e0 e1 e2 e3 : Db) (body : Body)
      → IsValid e0
      → Reach e0 e1
      → Reach e1 e2
      → Reach e2 e3
      → pool_get country aggregates cache param e0 e1 e2 e3 ≡ full body
      → (body.version ≡ e0.version)
        × ((ip : Text)
            → put_all body.ips (λ k. none) ip ≡ of_family_only (family_of param) (view e0 ip))
  pool_get-family cache param e0 e1 e2 e3 body v r0 r1 r2 answer =
      let (still, version, ips) = full-facts cache param e0 e1 e2 e3 body answer in
      let g0 = Reach-IsGood r0 v in
      let g1 = Reach-IsGood r1 g0.valid in
      let g2 = Reach-IsGood r2 g1.valid in
      let to_load : e1.version ≡ e0.version =
        omega (arith, g0.evolves.version_mono, g1.evolves.version_mono, g2.evolves.version_mono) in
      (
        version,
        λ ip.
            ap (λ rows. put_all rows (λ k. none) ip) ips
            ∙ loaded-view (family_of param) e1 e2 ip g0.valid
            ∙ ap (of_family_only (family_of param)) ((same_version e0 e1 g0 to_load).0 ip),
      )

  -- A page that asks for no family, as the home page does.
  pub pool_get-view :
      (cache : Option ℕ → ℕ → Option Body) (e0 e1 e2 e3 : Db) (body : Body)
      → IsValid e0
      → Reach e0 e1
      → Reach e1 e2
      → Reach e2 e3
      → pool_get country aggregates cache none e0 e1 e2 e3 ≡ full body
      → (body.version ≡ e0.version) × ((ip : Text) → put_all body.ips (λ k. none) ip ≡ view e0 ip)
  unfolding family_of
  pool_get-view cache e0 e1 e2 e3 body v r0 r1 r2 answer =
      let (version, rows) = pool_get-family cache none e0 e1 e2 e3 body v r0 r1 r2 answer in
      (version, λ ip. rows ip ∙ of_family_only-none (view e0 ip))
