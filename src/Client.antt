-- ===== src/Client.antt =====
-- The pool's snapshot in the browser (public/static/home.js): its two object stores, the rows by
-- address and the metadata, and how it brings them up to date. `toIPRow` of src/pool.ts shapes each
-- row alone and keeps its address and revision, so the rows stand for themselves here. One tab is at
-- work on the stores.
pub mod Sync
pub mod Table
pub mod Load
pub mod Rows
use gwsdb.Prelude.{
  ℕ, Text, text_eq, Bool, true, false, Option, none, some, List, [], ◌∷◌, ltb, leb, ◌==◌,
  if◌then◌else◌,
}
use gwsdb.Store.Reads.{IpStatus, Stats}
use gwsdb.Api.Changes.{Body, Response, bad_request, reset, unchanged, cached_body, retry, delta}
use gwsdb.Api.Pool.{PoolResponse, cached_pool, pool_changed, full}

abbrev pub Rows : Type 0
Rows = Text → Option IpStatus

unfoldable pub put_row : IpStatus → Rows → Rows
unfolding text_eq
put_row row rows k = if text_eq row.ip k then some row else rows k

-- `!old || old.revision <= row.revision`
unfoldable pub is_newer : IpStatus → Option IpStatus → Bool
is_newer row none = true
is_newer row (some old) = leb old.revision row.revision

-- The loop of `applyChanges`.
unfoldable pub apply_changes : List IpStatus → Rows → Rows
unfolding put_row is_newer
apply_changes [] rows = rows
apply_changes (row ∷ more) rows =
    apply_changes more (if is_newer row (rows row.ip) then put_row row rows else rows)

-- The loop of `writeFullCache`.
unfoldable pub put_all : List IpStatus → Rows → Rows
unfolding put_row
put_all [] rows = rows
put_all (row ∷ more) rows = put_all more (put_row row rows)

-- The JSON that the page is sent. The numbers of the page's head are missing where nothing changed.
pub record PoolReply : Type 0 where
  pub version : ℕ
  pub ips : List IpStatus
  pub stats : Option Stats

pub record Metadata : Type 0 where
  pub version : ℕ
  pub stats : Option Stats

-- What the two object stores hold; there are no metadata before the first snapshot.
pub record Cache : Type 0 where
  pub rows : Rows
  pub meta : Option Metadata

unfoldable pub metadata : PoolReply → Metadata
metadata sent = record { version = sent.version; stats = sent.stats }

-- `current && current.version > sent.version`
unfoldable pub is_ahead : Option Metadata → ℕ → Bool
is_ahead none version = false
is_ahead (some current) version = ltb version current.version

-- The transaction of `writeFullCache`: clear, and put every row.
unfoldable pub write_full_cache : PoolReply → Cache → Cache
unfolding put_all metadata is_ahead
write_full_cache sent cache =
    if is_ahead cache.meta sent.version
    then cache
    else record { rows = put_all sent.ips (λ k. none); meta = some (metadata sent) }

-- The transaction of `applyChanges`.
unfoldable pub apply_delta : PoolReply → Cache → Cache
unfolding apply_changes metadata is_ahead
apply_delta sent cache = record {
  rows = apply_changes sent.ips cache.rows;
  meta = if is_ahead cache.meta sent.version then cache.meta else some (metadata sent);
}

-- What `fetchJSON` makes of the answers of /api/pool and /api/pool/changes; it throws on a status
-- that is not a success.
pub data Changed : Type 0 where
  was_reset : ℕ → Changed
  changed : PoolReply → Changed

abbrev pub sent_body : Body → PoolReply
sent_body body = record { version = body.version; ips = body.ips; stats = some body.stats }

unfoldable pub pool_reply : PoolResponse → Option PoolReply
pool_reply (cached_pool body) = some (sent_body body)
pool_reply (full body) = some (sent_body body)
pool_reply pool_changed = none

unfoldable pub changes_reply : Response → Option Changed
changes_reply bad_request = none
changes_reply (reset version) = some (was_reset version)
changes_reply (unchanged v) = some (changed (record { version = v; ips = []; stats = none }))
changes_reply (cached_body body) = some (changed (sent_body body))
changes_reply retry = none
changes_reply (delta body) = some (changed (sent_body body))

-- `fetchFull`, given the reply of /api/pool.
unfoldable pub fetch_full : Option PoolReply → Cache → Option Cache
unfolding write_full_cache
fetch_full none cache = none
fetch_full (some sent) cache = some (write_full_cache sent cache)

-- What `syncCache` does with the reply of /api/pool/changes.
unfoldable pub take_changes : Option Changed → Option PoolReply → ℕ → Cache → Option Cache
unfolding fetch_full apply_delta
take_changes none pool version cache = none
take_changes (some (was_reset v)) pool version cache = fetch_full pool cache
take_changes (some (changed sent)) pool version cache =
    some (if sent.version == version then cache else apply_delta sent cache)

-- `syncCache`, given what each request is answered, whichever it sends: `none` where it throws.
unfoldable pub sync_cache : (ℕ → Option Changed) → Option PoolReply → Cache → Option Cache
unfolding fetch_full take_changes
sync_cache changes pool cache = elim cache.meta [
  | none ↦ fetch_full pool cache
  | some meta ↦ take_changes (changes meta.version) pool meta.version cache
]
