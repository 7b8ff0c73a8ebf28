-- ===== src/Client/Load/Quiet.antt =====
-- The load of the page while nothing writes.
use gwsdb.Prelude.{
  ℕ, Text, List, Option, none, some, true, ◌≡◌, ◌⊎◌, inl, inr, refl, sym, ap, ◌∙◌, arith, ◌==◌,
  if-cases, subst,
}
use gwsdb.Store.Schema.{Db}
use gwsdb.Store.Sql.Valid.{IsValid}
use gwsdb.Store.Sync.Versions.{same_version}
use gwsdb.Store.Sync.History.{Reach, Reach-IsGood}
use gwsdb.Client.{
  Rows, Changed, PoolReply, Cache, Metadata, sync_cache, fetch_full, write_full_cache, is_ahead,
}
use gwsdb.Client.Sync.{Holds}
use gwsdb.Client.Sync.Quiet.{quiet_changes, quiet_pool, sync_cache-quiet}
use gwsdb.Client.Load.{
  Screen, render_data, as_drawn, first_screen, load_page, load_with_cache, load_without_cache,
  read_cache, draw_fresh, same_snapshot, drawn_reply,
}

-- The screen shows the pool's public rows as they are, and no message of a failure.
pub ShowsPool : Db → Screen → Type 0
ShowsPool db screen =
    (shown : Cache) × (screen ≡ record { drawn = some shown; notice = as_drawn }) × Holds shown db

-- What the first load of a page that holds nothing starts from.
abbrev no_stores : Cache
no_stores = record { rows = λ k. none; meta = none }

abbrev version_in : Option Metadata → ℕ
version_in none = 0
version_in (some m) = m.version

-- Stores of an earlier moment that has the same version.
Holds-same_version :
    (s d : Db) (store : Cache) (m n : Metadata)
    → IsValid s
    → Reach s d
    → Holds store s
    → store.meta ≡ some m
    → n.version ≡ d.version
    → (n.version == m.version) ≡ true
    → Holds store d
Holds-same_version s d store m n v r ((k, has, at_s), rows) has_m at_d same =
    let equal : k.version ≡ m.version = ap version_in (sym has ∙ has_m) in
    let still : d.version ≡ s.version = ground arith in
    (
      (k, has, at_s ∙ sym still),
      λ ip. rows ip ∙ sym ((same_version s d (Reach-IsGood r v) still).0 ip),
    )

abbrev stores_of : Rows → Option Metadata → Cache
stores_of rows meta = record { rows = rows; meta = meta }

-- What is drawn after a synchronisation that left current stores.
draw_fresh-ShowsPool :
    (s d : Db) (old new : Rows) (o n : Option Metadata)
    → IsValid s
    → Reach s d
    → (o ≡ none) ⊎ Holds (stores_of old o) s
    → Holds (stores_of new n) d
    → ShowsPool d (
        draw_fresh
          (read_cache (stores_of new n))
          (read_cache (stores_of old o))
          (elim (read_cache (stores_of old o)) [
            | none ↦ first_screen
            | some c ↦ render_data c first_screen
          ]))
unfolding draw_fresh read_cache same_snapshot ShowsPool render_data
draw_fresh-ShowsPool s d old new o none v r was ((k, has, at), rows) = absurd (ground arith)
draw_fresh-ShowsPool s d old new none (some n) v r was now = (stores_of new (some n), refl, now)
draw_fresh-ShowsPool s d old new (some m) (some n) v r was now =
    if-cases (ShowsPool d) (n.version == m.version) _ _
      (λ same. (stores_of old (some m), refl, current was same))
      (λ other. (stores_of new (some n), refl, now))
  where
    current :
        (some m ≡ none) ⊎ Holds (stores_of old (some m)) s
        → (n.version == m.version) ≡ true
        → Holds (stores_of old (some m)) d
    current (inl never) same = absurd (ground arith)
    current (inr held) same =
        let ((k, has, at), rows) = now in
        let version : n.version ≡ d.version = ap version_in has ∙ at in
        Holds-same_version s d (stores_of old (some m)) m n v r held refl version same

fetched-ShowsPool :
    (d : Db) (pool : Option PoolReply) (after : Cache)
    → Holds after d
    → fetch_full pool no_stores ≡ some after
    → ShowsPool d (load_without_cache pool first_screen)
unfolding load_without_cache fetch_full write_full_cache drawn_reply is_ahead ShowsPool render_data
fetched-ShowsPool d none after holds h = absurd (ground arith)
fetched-ShowsPool d (some sent) after holds h =
    (_, refl, subst (λ (c : Cache). Holds c d) (some-injective (sym h)) holds)
  where
    some-injective : {a b : Cache} → some a ≡ some b → a ≡ b
    some-injective e = cc

module _ (country : List Text → Text) (aggregates : Option (ℕ × ℕ)) (s d : Db) where
  abbrev changes : ℕ → Option Changed
  changes = quiet_changes country aggregates s d

  abbrev pool : Option PoolReply
  pool = quiet_pool country aggregates s d

  fresh_load :
      (after : Cache)
      → sync_cache changes pool no_stores ≡ some after
      → fetch_full pool no_stores ≡ some after
  unfolding sync_cache
  fresh_load after done = done

  load_with_cache-quiet :
      (store after : Cache)
      → IsValid s
      → Reach s d
      → (store.meta ≡ none) ⊎ Holds store s
      → Holds after d
      → sync_cache changes pool store ≡ some after
      → ShowsPool d (load_with_cache changes pool store first_screen).0
  unfolding load_with_cache ShowsPool
  load_with_cache-quiet store after v r was holds done =
      rw (load_with_cache, done)
        (draw_fresh-ShowsPool s d store.rows after.rows store.meta after.meta v r was holds)

  -- A page loads while nothing writes and with the edge caches empty. Its stores cannot be opened, or
  -- are empty, or hold the pool's public rows as they were at some moment. Then no request fails, and
  -- the page ends up with the pool's public rows as they are, under their version, and with no message
  -- of a failure.
  pub load_page-quiet :
      (stores : Option Cache)
      → IsValid s
      → Reach s d
      → ((store : Cache) → stores ≡ some store → (store.meta ≡ none) ⊎ Holds store s)
      → ShowsPool d (load_page changes pool stores)
  unfolding load_page
  load_page-quiet none v r was =
      let (after, done, holds) = sync_cache-quiet country aggregates s d no_stores v r (inl refl) in
      fetched-ShowsPool d pool after holds (fresh_load after done)
  load_page-quiet (some store) v r was =
      let (after, done, holds) =
        sync_cache-quiet country aggregates s d store v r (was store refl) in
      load_with_cache-quiet store after v r (was store refl) holds done
