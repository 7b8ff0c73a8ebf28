-- ===== src/Api/Changes.antt =====
-- GET /api/pool/changes (functions/api/pool/changes.ts), and `loadPoolChanges` of src/pool.ts.
-- The handler awaits the database four times, and other requests may write between: it is given the
-- database of each of those moments. `since` is the parameter, where it is a non-negative safe
-- integer; the edge cache answers with the body that it holds for (since, version), if any. The
-- rows are those of Store/Reads.antt, which `toIPRow` shapes one by one.
pub mod Delta
use gwsdb.Prelude.{ℕ, Option, none, some, List, ltb, ◌==◌, if◌then◌else◌}
use gwsdb.Store.Schema.{Db}
use gwsdb.Store.Reads.{
  IpStatus, Stats, list_known_ips_changed, overview, pool_version, pool_reset_version,
}

pub record Pool : Type 0 where
  pub ips : List IpStatus
  pub stats : Stats

unfoldable pub load_pool_changes : Option (ℕ × ℕ) → Db → ℕ → ℕ → Pool
unfolding list_known_ips_changed overview
load_pool_changes aggregates db after_revision through_revision = record {
  ips = list_known_ips_changed db after_revision through_revision;
  stats = overview aggregates db;
}

pub record Body : Type 0 where
  pub version : ℕ
  pub ips : List IpStatus
  pub stats : Stats

pub data Response : Type 0 where
  bad_request : Response
  reset : ℕ → Response
  unchanged : ℕ → Response
  cached_body : Body → Response
  retry : Response
  delta : Body → Response

-- What follows the checks: the cache, the load, and the second look at the version.
unfoldable pub load_delta : Option Body → Option (ℕ × ℕ) → ℕ → ℕ → Db → Db → Response
unfolding load_pool_changes pool_version
load_delta (some body) aggregates since version at_load at_end = cached_body body
load_delta none aggregates since version at_load at_end =
    let pool = load_pool_changes aggregates at_load since version in
    if pool_version at_end == version
    then delta (record { version = version; ips = pool.ips; stats = pool.stats })
    else retry

unfoldable pub changes_get :
    (ℕ → ℕ → Option Body) → Option (ℕ × ℕ) → Option ℕ → Db → Db → Db → Db → Response
unfolding load_delta pool_version pool_reset_version
changes_get cache aggregates none at_version at_reset at_load at_end = bad_request
changes_get cache aggregates (some since) at_version at_reset at_load at_end =
    let version = pool_version at_version in
    if ltb version since
    then reset version
    else if ltb since (pool_reset_version at_reset)
    then reset version
    else if since == version
    then unchanged version
    else load_delta (cache since version) aggregates since version at_load at_end
