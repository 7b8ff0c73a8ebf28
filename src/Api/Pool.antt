-- ===== src/Api/Pool.antt =====
-- GET /api/pool (functions/api/pool.ts), the whole pool. The handler awaits the database four times,
-- and is given the database of each of those moments. The edge cache answers with the body that it
-- holds for (family, version), if any.
pub mod Full
use gwsdb.Prelude.{ℕ, Text, codes, text_eq, Option, none, some, List, ◌==◌, if◌then◌else◌}
use gwsdb.Store.Schema.{Db}
use gwsdb.Store.Reads.{IpStatus, pool_version}
use gwsdb.Store.Listing.{Loaded, LoadPoolOptions, load_pool}
use gwsdb.Api.Changes.{Body}

pub data PoolResponse : Type 0 where
  cached_pool : Body → PoolResponse
  pool_changed : PoolResponse
  full : Body → PoolResponse

-- `familyParam === "4" || familyParam === "6" ? Number(familyParam) : undefined`
unfoldable pub family_of : Option Text → Option ℕ
unfolding text_eq
family_of none = none
family_of (some p) =
    if text_eq p (codes "4") then some 4 else if text_eq p (codes "6") then some 6 else none

module _ (country : List Text → Text) (aggregates : Option (ℕ × ℕ)) where
  -- What follows the cache: the load, and the second look at the version.
  unfoldable pub load_full : Option Body → Option ℕ → ℕ → Db → Db → Db → PoolResponse
  unfolding load_pool pool_version
  load_full (some body) family version at_load at_overview at_end = cached_pool body
  load_full none family version at_load at_overview at_end =
      let opts : LoadPoolOptions = record {
        sort_by_key = none;
        sort_desc = none;
        family = family;
      } in
      let pool = load_pool country aggregates opts at_load at_overview in
      if pool_version at_end == version
      then full (record { version = version; ips = pool.ips; stats = pool.stats })
      else pool_changed

  unfoldable pub pool_get :
      (Option ℕ → ℕ → Option Body) → Option Text → Db → Db → Db → Db → PoolResponse
  unfolding family_of load_full pool_version
  pool_get cache family_param at_version at_load at_overview at_end =
      let family = family_of family_param in
      let version = pool_version at_version in
      load_full (cache family version) family version at_load at_overview at_end

-- GET /api/pool/version (functions/api/pool/version.ts).
unfoldable pub version_get : Db → ℕ
unfolding pool_version
version_get db = pool_version db
