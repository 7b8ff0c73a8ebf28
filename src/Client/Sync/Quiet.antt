-- ===== src/Client/Sync/Quiet.antt =====
-- A synchronisation while nothing writes.
use gwsdb.Prelude.{
  ℕ, Text, List, Option, none, some, ◌≡◌, ◌⊎◌, inl, inr, refl, ◌∙◌, arith, Option-cases, Bool-cases,
  ltb, ◌==◌, ==_iff, true, is_some,
}
use gwsdb.Store.Schema.{Db}
use gwsdb.Store.Reads.{pool_version, pool_reset_version}
use gwsdb.Store.Sql.Valid.{IsValid}
use gwsdb.Store.Sync.Versions.{same_version}
use gwsdb.Store.Sync.History.{Reach, here, Reach-IsGood}
use gwsdb.Client.{
  Cache, Metadata, Changed, was_reset, changed, PoolReply, sync_cache, take_changes, fetch_full,
  pool_reply, changes_reply,
}
use gwsdb.Client.Sync.{Holds}
use gwsdb.Client.Sync.Whole.{asked_changes, asked_pool, sync_cache-Holds}
use gwsdb.Api.Changes.{Body, changes_get, load_delta}
use gwsdb.Api.Pool.{pool_get, load_full}

module _ (country : List Text → Text) (aggregates : Option (ℕ × ℕ)) (s d : Db) where
  abbrev pub no_pool : Option ℕ → ℕ → Option Body
  no_pool family version = none

  abbrev pub no_delta : ℕ → ℕ → Option Body
  no_delta since version = none

  abbrev pub quiet_changes : ℕ → Option Changed
  quiet_changes = asked_changes country aggregates no_pool no_delta s d d d d d d d d

  abbrev pub quiet_pool : Option PoolReply
  quiet_pool = asked_pool country aggregates no_pool no_delta s d d d d d d d d

  same : (d.version == d.version) ≡ true
  same = (==_iff d.version d.version).1 refl

  pool_answers : is_some quiet_pool ≡ true
  unfolding pool_reply pool_get load_full pool_version
  pool_answers = rw same

  changes_answers : (since : ℕ) → is_some (quiet_changes since) ≡ true
  unfolding changes_reply changes_get load_delta pool_version pool_reset_version
  changes_answers since = elim (Bool-cases (ltb d.version since)) [
    | inl a ↦ rw a
    | inr a ↦ elim (Bool-cases (ltb since d.reset_version)) [
      | inl b ↦ rw (a, b)
      | inr b ↦ elim (Bool-cases (since == d.version)) [
        | inl c ↦ rw (a, b, c)
        | inr c ↦ rw (a, b, c, same)
      ]
    ]
  ]

  sync_answers : (store : Cache) → is_some (sync_cache quiet_changes quiet_pool store) ≡ true
  unfolding sync_cache take_changes fetch_full
  sync_answers store = elim (Option-cases quiet_pool) [
    | inl failed ↦ absurd (ground (arith, pool_answers))
    | inr (sent, p) ↦ elim (Option-cases store.meta) [
      | inl first ↦ rw (first, p)
      | inr (m, has) ↦ elim (Option-cases (quiet_changes m.version)) [
        | inl failed ↦ absurd (ground (arith, changes_answers m.version))
        | inr (reply, c) ↦ rw (has, c) (taken sent p m _ reply)
      ]
    ]
  ]
    where
      taken :
          (sent : PoolReply)
          → quiet_pool ≡ some sent
          → (m : Metadata) (c : Cache) (reply : Changed)
          → is_some (take_changes (some reply) quiet_pool m.version c) ≡ true
      taken sent p m c (was_reset n) = rw p
      taken sent p m c (changed u) = refl

  -- The page's stores are empty or hold the pool's public rows as they were at some moment, and the
  -- edge caches are empty. If nothing writes while the page synchronises them, then no request
  -- fails, and the stores come to hold the pool's public rows and version as they are.
  pub sync_cache-quiet :
      (store : Cache)
      → IsValid s
      → Reach s d
      → (store.meta ≡ none) ⊎ Holds store s
      → (after : Cache) × (sync_cache quiet_changes quiet_pool store ≡ some after) × Holds after d
  sync_cache-quiet store v r was = elim (Option-cases (sync_cache quiet_changes quiet_pool store)) [
    | inl failed ↦ absurd (ground (arith, sync_answers store))
    | inr (after, done) ↦
        let (d', from, to, holds) =
          sync_cache-Holds country aggregates no_pool no_delta s d d d d d d d d store after v r
            here here here here here here here (λ b h. absurd (ground arith))
            (λ b h. absurd (ground arith)) was done in
        (after, done, settle after d' from to holds)
  ]
    where
      settle : (after : Cache) (d' : Db) → Reach d d' → Reach d' d → Holds after d' → Holds after d
      settle after d' from to ((m, has, at), rows) =
          let valid = (Reach-IsGood r v).valid in
          let there = Reach-IsGood from valid in
          let back = Reach-IsGood to there.valid in
          let still : d'.version ≡ d.version =
            omega (arith, there.evolves.version_mono, back.evolves.version_mono) in
          ((m, has, at ∙ still), λ ip. rows ip ∙ (same_version d d' there still).0 ip)
