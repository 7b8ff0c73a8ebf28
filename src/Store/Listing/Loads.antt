-- ===== src/Store/Listing/Loads.antt =====
-- What a load of the whole pool gives each address (src/store.ts, src/pool.ts).
use gwsdb.Prelude.{
  ℕ, Text, codes, text_eq, Bool, Option, none, some, List, ◌≡◌, refl, ap, ◌∙◌, not, true, false,
  ◌==◌, arith, if◌then◌else◌, or_else, keep, inl, inr, Option-cases,
}
use gwsdb.Store.Schema.{PoolRow, Db}
use gwsdb.Store.Tables.{pool_row}
use gwsdb.Store.Tables.Keys.{by_key, IsKeyed, only_if, by_key-keep, keep-IsKeyed}
use gwsdb.Store.Tables.Sorting.{sort_by_keys, by_key-map, map-IsKeyed}
use gwsdb.Store.Sql.Valid.{IsValid, pool_ip}
use gwsdb.Store.Reads.{IpStatus, joined_status, map_option, sort_by}
use gwsdb.Store.Listing.{
  ListKnownIpsOptions, LoadPoolOptions, list_known_ips, load_options, load_pool, is_listed,
  sort_column, listing_lt, country_lt,
}

abbrev pub status_ip : IpStatus → Text
status_ip r = r.ip

-- The family of an address, as the options name it.
abbrev pub of_family : Option ℕ → PoolRow → Bool
of_family none r = true
of_family (some f) r = if f == 4 then not r.is_ipv6 else if f == 6 then r.is_ipv6 else true

-- The rows that pass a test, as they are joined: one to an address.
abbrev pub HoldsRows : (PoolRow → Bool) → Db → List IpStatus → Type 0
HoldsRows p db rows =
    ((ip : Text)
      → by_key status_ip ip rows
        ≡ map_option (joined_status db.ptr_cache) (only_if pool_ip p (pool_row ip db.pool)))
    × IsKeyed status_ip rows

module _ (db : Db) (valid : IsValid db) where
  list_known_ips-HoldsRows :
      (opts : ListKnownIpsOptions)
      → opts.limit ≡ none
      → HoldsRows (is_listed opts db) db (list_known_ips db opts)
  unfolding list_known_ips joined_status
  list_known_ips-HoldsRows opts all =
      let p = is_listed opts db in
      let kept = keep-IsKeyed pool_ip p db.pool valid.pool_keyed in
      let (same, keyed) =
        sort_by_keys pool_ip (listing_lt (sort_column opts.sort_by_key) opts.sort_desc db)
          (keep p db.pool) kept in
      rw all (
        λ ip.
            by_key-map pool_ip status_ip (joined_status db.ptr_cache) ip _ (λ r. refl)
            ∙ ap (map_option (joined_status db.ptr_cache))
                (same ip ∙ by_key-keep pool_ip ip p db.pool valid.pool_keyed),
        map-IsKeyed pool_ip status_ip (joined_status db.ptr_cache) _ (λ r. refl) keyed,
      )

  sort_by-HoldsRows :
      (p : PoolRow → Bool) (lt : IpStatus → IpStatus → Bool) (rows : List IpStatus)
      → HoldsRows p db rows
      → HoldsRows p db (sort_by lt rows)
  sort_by-HoldsRows p lt rows (same, keyed) =
      let (sorted, unique) = sort_by_keys status_ip lt rows keyed in
      (λ ip. sorted ip ∙ same ip, unique)

  is_listed-family :
      (opts : LoadPoolOptions) (r : PoolRow)
      → is_listed (load_options opts) db r ≡ of_family opts.family r
  unfolding is_listed load_options
  is_listed-family opts r = elim (Option-cases opts.family) [
    | inl both ↦ rw both refl
    | inr (f, one) ↦ ground (arith, one)
  ]

  of_listed :
      (opts : LoadPoolOptions) (rows : List IpStatus)
      → HoldsRows (is_listed (load_options opts) db) db rows
      → HoldsRows (of_family opts.family) db rows
  of_listed opts rows (same, keyed) = (
    λ ip. same ip ∙ ap (map_option (joined_status db.ptr_cache)) (settle (pool_row ip db.pool)),
    keyed,
  )
    where
      settle :
          (o : Option PoolRow)
          → only_if pool_ip (is_listed (load_options opts) db) o
            ≡ only_if pool_ip (of_family opts.family) o
      settle none = refl
      settle (some r) = rw (is_listed-family opts r)

  -- Whatever the column and the direction that a page asks for, country included, the rows that
  -- `loadPool` gives it are those of the requested address family, each address once, with its pool
  -- row and its PTR names joined.
  pub load_pool-HoldsRows :
      (country : List Text → Text) (aggregates : Option (ℕ × ℕ)) (opts : LoadPoolOptions)
      (later : Db)
      → HoldsRows (of_family opts.family) db (load_pool country aggregates opts db later).ips
  unfolding load_pool
  load_pool-HoldsRows country aggregates opts later =
      let known = of_listed opts _ (list_known_ips-HoldsRows (load_options opts) refl) in
      either _ _ _ (text_eq (or_else opts.sort_by_key (codes "last_seen")) (codes "country"))
        (sort_by-HoldsRows (of_family opts.family)
          (country_lt country (or_else opts.sort_desc true)) _ known)
        known
    where
      either :
          (p : PoolRow → Bool) (xs ys : List IpStatus) (b : Bool)
          → HoldsRows p db xs
          → HoldsRows p db ys
          → HoldsRows p db (if b then xs else ys)
      either p xs ys true h k = h
      either p xs ys false h k = k
