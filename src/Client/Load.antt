-- ===== src/Client/Load.antt =====
-- The load of the home page (public/static/home.js): the stores are drawn first, then synchronised,
-- and drawn again if they have changed; without IndexedDB the whole pool is fetched and drawn. The rows
-- that are drawn are kept by address, and a failure to read the stores comes to having none.
pub mod Quiet
use gwsdb.Prelude.{
  ℕ, Text, Bool, true, false, not, Option, none, some, List, [], ◌∷◌, ◌==◌, if◌then◌else◌,
}
use gwsdb.Client.{
  Cache, Metadata, Changed, PoolReply, put_all, metadata, fetch_full, take_changes, sync_cache,
}

-- The status line above the table: as the page is served, as `renderData` leaves it, or with one of the
-- two messages of `showLoadError`.
pub data Notice : Type 0 where
  loading as_drawn cached_only not_loaded : Notice

pub record Screen : Type 0 where
  pub drawn : Option Cache
  pub notice : Notice

abbrev pub first_screen : Screen
first_screen = record { drawn = none; notice = loading }

-- `renderData`
unfoldable pub render_data : Cache → Screen → Screen
render_data data_ screen = record { drawn = some data_; notice = as_drawn }

-- `showLoadError`
unfoldable pub show_load_error : Option Cache → Screen → Screen
show_load_error none screen = record screen { notice = not_loaded }
show_load_error (some cache) screen = record screen { notice = cached_only }

-- `readCache`: there is no snapshot before the first metadata.
unfoldable pub read_cache : Cache → Option Cache
read_cache store = elim store.meta [ none ↦ none | some m ↦ some store ]

-- The reply of /api/pool as it is drawn.
unfoldable pub drawn_reply : PoolReply → Cache
unfolding put_all metadata
drawn_reply sent = record { rows = put_all sent.ips (λ k. none); meta = some (metadata sent) }

unfoldable pub load_without_cache : Option PoolReply → Screen → Screen
unfolding show_load_error render_data drawn_reply
load_without_cache none screen = show_load_error none screen
load_without_cache (some sent) screen = render_data (drawn_reply sent) screen

unfoldable pub same_snapshot : Option Cache → Option Cache → Bool
same_snapshot (some a) (some b) = elim a.meta [
  | none ↦ false
  | some m ↦ elim b.meta [ none ↦ false | some n ↦ m.version == n.version ]
]
same_snapshot _ _ = false

-- `if (fresh && (!cache || fresh.version !== cache.version)) renderData(fresh)`
unfoldable pub draw_fresh : Option Cache → Option Cache → Screen → Screen
unfolding render_data same_snapshot
draw_fresh none cache screen = screen
draw_fresh (some fresh) cache screen =
    if same_snapshot (some fresh) cache then screen else render_data fresh screen

-- What follows the opening of the stores: the screen, and the stores.
unfoldable pub load_with_cache :
    (ℕ → Option Changed) → Option PoolReply → Cache → Screen → Screen × Cache
unfolding read_cache render_data sync_cache draw_fresh show_load_error
load_with_cache changes pool store screen =
    let cache = read_cache store in
    let shown : Screen = elim cache [ none ↦ screen | some c ↦ render_data c screen ] in
    elim (sync_cache changes pool store) [
      | none ↦ (show_load_error cache shown, store)
      | some after ↦ (draw_fresh (read_cache after) cache shown, after)
    ]

-- `load`, of stores that can be opened or not, given what the requests are answered.
unfoldable pub load_page : (ℕ → Option Changed) → Option PoolReply → Option Cache → Screen
unfolding load_without_cache load_with_cache
load_page changes pool none = load_without_cache pool first_screen
load_page changes pool (some store) = (load_with_cache changes pool store first_screen).0
