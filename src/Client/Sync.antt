-- ===== src/Client/Sync.antt =====
-- A synchronisation of the page's stores with both endpoints, while other requests write.
pub mod Whole
pub mod Quiet
use gwsdb.Prelude.{
  ℕ, ◌≤◌, Text, List, Option, none, some, ◌≡◌, ◌⊎◌, inl, inr, refl, sym, ap, ◌∙◌, arith,
  Option-cases, or_else, Bool-cases, ◌==◌, ==_iff, ltb, if◌then◌else◌,
}
use gwsdb.Store.Schema.{Db}
use gwsdb.Store.Sql.Valid.{IsValid}
use gwsdb.Store.Reads.{pool_version}
use gwsdb.Store.Sync.{view}
use gwsdb.Store.Sync.Batches.{IsGood-trans}
use gwsdb.Store.Sync.Versions.{same_version}
use gwsdb.Store.Sync.History.{Reach, Reach-IsGood}
use gwsdb.Client.{
  Cache, Metadata, Changed, was_reset, changed, PoolReply, sent_body, sync_cache, take_changes,
  fetch_full, write_full_cache, apply_delta, apply_changes, put_all, metadata, is_ahead, pool_reply,
  changes_reply,
}
use gwsdb.Api.Changes.{
  Body, Response, changes_get, delta, unchanged, reset, cached_body, bad_request, retry,
}
use gwsdb.Api.Changes.Delta.{delta_sync, unchanged_sync}
use gwsdb.Api.Pool.{load_full, family_of, PoolResponse, pool_get, full, cached_pool, pool_changed}
use gwsdb.Api.Pool.Full.{pool_get-view}

-- The stores are the pool's public rows of a moment, under its version.
abbrev pub Holds : Cache → Db → Type 0
Holds cache db =
    ((m : Metadata) × (cache.meta ≡ some m) × (m.version ≡ db.version))
    × ((ip : Text) → cache.rows ip ≡ view db ip)

-- A body that the handler of /api/pool loaded at an earlier moment of the version of `now`.
pub record EarlierPool (country : List Text → Text) (aggregates : Option (ℕ × ℕ)) (body : Body)
    (now : Db) : Type 0 where
  pub t0 : Db
  pub t1 : Db
  pub t2 : Db
  pub t3 : Db
  pub valid : IsValid t0
  pub to1 : Reach t0 t1
  pub to2 : Reach t1 t2
  pub to3 : Reach t2 t3
  pub to_now : Reach t3 now
  pub version : now.version ≡ t0.version
  pub loaded : pool_get country aggregates (λ f v. none) none t0 t1 t2 t3 ≡ full body

module _ (country : List Text → Text) (aggregates : Option (ℕ × ℕ)) where
  -- What the edge cache may hold for /api/pool: what the handler has put there.
  abbrev pub PoolKept : (Option ℕ → ℕ → Option Body) → Db → Type 0
  PoolKept cache now =
      (body : Body) → cache none now.version ≡ some body → EarlierPool country aggregates body now

  earlier-view :
      (body : Body) (now : Db)
      → EarlierPool country aggregates body now
      → (body.version ≡ now.version) × ((ip : Text) → put_all body.ips (λ k. none) ip ≡ view now ip)
  earlier-view body now e =
      let (version, rows) =
        pool_get-view country aggregates (λ f v. none) e.t0 e.t1 e.t2 e.t3 body e.valid e.to1 e.to2
          e.to3 e.loaded in
      let g1 = Reach-IsGood e.to1 e.valid in
      let g2 = Reach-IsGood e.to2 g1.valid in
      let g3 = Reach-IsGood e.to3 g2.valid in
      let g =
        IsGood-trans _ _ _ (IsGood-trans _ _ _ (IsGood-trans _ _ _ g1 g2) g3)
          (Reach-IsGood e.to_now g3.valid) in
      (version ∙ sym e.version, λ ip. rows ip ∙ sym ((same_version e.t0 now g e.version).0 ip))

  module _ (cache : Option ℕ → ℕ → Option Body) (e0 e1 e2 e3 : Db) where
    abbrev answer : PoolResponse
    answer = pool_get country aggregates cache none e0 e1 e2 e3

    pool_hit : (body : Body) → answer ≡ cached_pool body → cache none e0.version ≡ some body
    unfolding pool_get load_full pool_version family_of
    pool_hit body h = elim (Option-cases (cache none e0.version)) [
      | inl missed ↦ absurd (ground arith)
      | inr (kept, hit) ↦ ground arith
    ]

    -- Whichever way /api/pool answers with rows, they are those of its first look at the version.
    asked_pool-view :
        (sent : PoolReply)
        → IsValid e0
        → Reach e0 e1
        → Reach e1 e2
        → Reach e2 e3
        → PoolKept cache e0
        → pool_reply answer ≡ some sent
        → (sent.version ≡ e0.version) × ((ip : Text) → put_all sent.ips (λ k. none) ip ≡ view e0 ip)
    unfolding pool_reply
    asked_pool-view sent v r0 r1 r2 kept h = go answer refl h
      where
        go :
            (r : PoolResponse)
            → answer ≡ r
            → pool_reply r ≡ some sent
            → (sent.version ≡ e0.version)
              × ((ip : Text) → put_all sent.ips (λ k. none) ip ≡ view e0 ip)
        go (full body) e h' =
            rw (← ap (λ o. or_else o sent) h')
              (pool_get-view country aggregates cache e0 e1 e2 e3 body v r0 r1 r2 e)
        go (cached_pool body) e h' =
            rw (← ap (λ o. or_else o sent) h') (earlier-view body e0 (kept body (pool_hit body e)))
        go pool_changed e h' = absurd (ground arith)
