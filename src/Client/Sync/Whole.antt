-- ===== src/Client/Sync/Whole.antt =====
-- `syncCache` of public/static/home.js against both endpoints, whichever of them it asks.
use gwsdb.Prelude.{
  ℕ, Text, List, false, Option, none, some, ◌≡◌, ◌⊎◌, inl, inr, refl, sym, ap, subst, ◌∙◌, arith,
  Option-cases, Bool-cases, or_else, ◌==◌, ltb, if◌then◌else◌,
}
use gwsdb.Store.Schema.{Db}
use gwsdb.Store.Reads.{pool_version, pool_reset_version}
use gwsdb.Store.Sql.Valid.{IsValid}
use gwsdb.Store.Sync.{view}
use gwsdb.Store.Sync.Batches.{IsGood}
use gwsdb.Store.Sync.Versions.{same_version}
use gwsdb.Store.Sync.History.{Reach, here, Reach-trans, Reach-IsGood}
use gwsdb.Client.{
  Rows, Cache, Metadata, Changed, was_reset, changed, PoolReply, sync_cache, take_changes,
  fetch_full, write_full_cache, apply_delta, apply_changes, metadata, is_ahead, pool_reply,
  changes_reply,
}
use gwsdb.Client.Sync.{Holds, PoolKept, asked_pool-view}
use gwsdb.Api.Changes.{
  Body, Response, changes_get, load_delta, delta, unchanged, reset, cached_body, bad_request, retry,
}
use gwsdb.Api.Changes.Delta.{delta_sync, unchanged_sync}
use gwsdb.Api.Pool.{pool_get}

-- A body that the handler of /api/pool/changes loaded for the version of `s`, at an earlier moment
-- of the version of `now`.
pub record EarlierDelta (aggregates : Option (ℕ × ℕ)) (body : Body) (s now : Db) : Type 0 where
  pub t0 : Db
  pub t1 : Db
  pub t2 : Db
  pub t3 : Db
  pub to0 : Reach s t0
  pub to1 : Reach t0 t1
  pub to2 : Reach t1 t2
  pub to3 : Reach t2 t3
  pub to_now : Reach t3 now
  pub version : now.version ≡ t3.version
  pub loaded : changes_get (λ a b. none) aggregates (some s.version) t0 t1 t2 t3 ≡ delta body

-- What the edge cache may hold for /api/pool/changes: what the handler has put there.
abbrev pub DeltaKept : (ℕ → ℕ → Option Body) → Option (ℕ × ℕ) → Db → Db → Type 0
DeltaKept cache aggregates s now =
    (body : Body) → cache s.version now.version ≡ some body → EarlierDelta aggregates body s now

-- Rows that hold the pool of `s`, and a reply that takes them to that of `d`.
taken-Holds :
    (s d : Db) (m : Metadata) (sent : PoolReply) (cache : Cache)
    → IsGood s d
    → cache.meta ≡ some m
    → m.version ≡ s.version
    → ((ip : Text) → cache.rows ip ≡ view s ip)
    → sent.version ≡ d.version
    → ((ip : Text) → apply_changes sent.ips cache.rows ip ≡ view d ip)
    → Holds (if sent.version == m.version then cache else apply_delta sent cache) d
unfolding apply_delta metadata is_ahead
taken-Holds s d m sent cache g has at_s same_old version applied =
    elim (Bool-cases (sent.version == m.version)) [
      | inl still ↦
          let same : d.version ≡ s.version = ground arith in
          rw still
            ((m, has, ground arith), λ ip. same_old ip ∙ sym ((same_version s d g same).0 ip))
      | inr newer ↦
          let behind : ltb sent.version m.version ≡ false =
            ground (arith, g.evolves.version_mono) in
          rw (newer, has, behind) ((metadata sent, refl, version), applied)
    ]

module _ (cache : ℕ → ℕ → Option Body) (aggregates : Option (ℕ × ℕ)) (s d0 d1 d2 d3 : Db) where
  abbrev changes_answer : Response
  changes_answer = changes_get cache aggregates (some s.version) d0 d1 d2 d3

  changes_hit :
      (body : Body) → changes_answer ≡ cached_body body → cache s.version d0.version ≡ some body
  unfolding changes_get load_delta pool_version pool_reset_version
  changes_hit body h = elim (Option-cases (cache s.version d0.version)) [
    | inl missed ↦ absurd (ground arith)
    | inr (kept, hit) ↦ ground arith
  ]

  cached-view :
      (body : Body) (old : Rows)
      → IsValid s
      → ((ip : Text) → old ip ≡ view s ip)
      → EarlierDelta aggregates body s d0
      → (body.version ≡ d0.version) × ((ip : Text) → apply_changes body.ips old ip ≡ view d0 ip)
  cached-view body old v same_old e =
      let (version, rows) =
        delta_sync (λ a b. none) aggregates s e.t0 e.t1 e.t2 e.t3 old body v e.to0 e.to1 e.to2 e.to3
          same_old e.loaded in
      let reached = Reach-trans (Reach-trans (Reach-trans e.to0 e.to1) e.to2) e.to3 in
      let now = Reach-IsGood e.to_now (Reach-IsGood reached v).valid in
      (version ∙ sym e.version, λ ip. rows ip ∙ sym ((same_version e.t3 d0 now e.version).0 ip))

  -- The answers that carry rows.
  answer-Holds :
      (m : Metadata) (store : Cache) (sent : PoolReply)
      → IsValid s
      → Reach s d0
      → Reach d0 d1
      → Reach d1 d2
      → Reach d2 d3
      → DeltaKept cache aggregates s d0
      → store.meta ≡ some m
      → m.version ≡ s.version
      → ((ip : Text) → store.rows ip ≡ view s ip)
      → changes_reply changes_answer ≡ some (changed sent)
      → (d : Db) × Reach d0 d
        × Reach d d3
        × Holds (if sent.version == m.version then store else apply_delta sent store) d
  unfolding changes_reply apply_changes
  answer-Holds m store sent v r0 r1 r2 r3 kept has at_s same_old h = go changes_answer refl h
    where
      settled :
          (d : Db) (g : IsGood s d) (u : PoolReply)
          → u.version ≡ d.version
          → ((ip : Text) → apply_changes u.ips store.rows ip ≡ view d ip)
          → Holds (if u.version == m.version then store else apply_delta u store) d
      settled d g u = taken-Holds s d m u store g has at_s same_old

      later : Reach d0 d3
      later = Reach-trans (Reach-trans r1 r2) r3

      carried : (u : PoolReply) → some (changed u) ≡ some (changed sent) → u ≡ sent
      carried u e = ap (λ o. reply_of (or_else o (changed sent))) e
        where
          reply_of : Changed → PoolReply
          reply_of (changed w) = w
          reply_of (was_reset n) = sent

      go :
          (r : Response)
          → changes_answer ≡ r
          → changes_reply r ≡ some (changed sent)
          → (d : Db) × Reach d0 d
            × Reach d d3
            × Holds (if sent.version == m.version then store else apply_delta sent store) d
      go bad_request e h' = absurd (ground arith)
      go (reset n) e h' = absurd (ground arith)
      go retry e h' = absurd (ground arith)
      go (unchanged n) e h' =
          let (version, rows) =
            unchanged_sync cache aggregates s d0 d1 d2 d3 store.rows n v r0 same_old e in
          rw (← carried _ h') (d0, here, later, settled d0 (Reach-IsGood r0 v) _ version rows)
      go (cached_body body) e h' =
          let (version, rows) =
            cached-view body store.rows v same_old (kept body (changes_hit body e)) in
          rw (← carried _ h') (d0, here, later, settled d0 (Reach-IsGood r0 v) _ version rows)
      go (delta body) e h' =
          let (version, rows) =
            delta_sync cache aggregates s d0 d1 d2 d3 store.rows body v r0 r1 r2 r3 same_old e in
          rw (← carried _ h')
            (d3, later, here, settled d3 (Reach-IsGood (Reach-trans r0 later) v) _ version rows)

module _ (country : List Text → Text) (aggregates : Option (ℕ × ℕ))
    (pool_cache : Option ℕ → ℕ → Option Body) (changes_cache : ℕ → ℕ → Option Body)
    (s d0 d1 d2 d3 e0 e1 e2 e3 : Db) where
  abbrev pub asked_changes : ℕ → Option Changed
  asked_changes since =
      changes_reply (changes_get changes_cache aggregates (some since) d0 d1 d2 d3)

  abbrev pub asked_pool : Option PoolReply
  asked_pool = pool_reply (pool_get country aggregates pool_cache none e0 e1 e2 e3)

  full-Holds :
      (store after : Cache)
      → IsValid e0
      → Reach e0 e1
      → Reach e1 e2
      → Reach e2 e3
      → PoolKept country aggregates pool_cache e0
      → is_ahead store.meta e0.version ≡ false
      → fetch_full asked_pool store ≡ some after
      → Holds after e0
  unfolding fetch_full write_full_cache metadata
  full-Holds store after v r1 r2 r3 kept behind done = elim (Option-cases asked_pool) [
    | inl failed ↦ absurd (ground arith)
    | inr (sent, e) ↦
        let (version, rows) =
          asked_pool-view country aggregates pool_cache e0 e1 e2 e3 sent v r1 r2 r3 kept e in
        let written : write_full_cache sent store ≡ after =
          ap (λ o. or_else o after) (ap (λ o. fetch_full o store) (sym e) ∙ done) in
        let still : is_ahead store.meta sent.version ≡ false =
          ap (is_ahead store.meta) version ∙ behind in
        subst (λ (c : Cache). Holds c e0) written (rw still ((metadata sent, refl, version), rows))
  ]

  -- The page's stores are empty or hold the pool's public rows as they were at some moment. It
  -- synchronises them, with changes or with the whole pool, while other requests write before,
  -- between and after the reads of both handlers, and the edge caches hold what the handlers put
  -- there. If no request fails, then the stores hold the pool's public rows, and the version, of a
  -- moment that is not before the page's request.
  pub sync_cache-Holds :
      (store after : Cache)
      → IsValid s
      → Reach s d0
      → Reach d0 d1
      → Reach d1 d2
      → Reach d2 d3
      → Reach d3 e0
      → Reach e0 e1
      → Reach e1 e2
      → Reach e2 e3
      → DeltaKept changes_cache aggregates s d0
      → PoolKept country aggregates pool_cache e0
      → (store.meta ≡ none) ⊎ Holds store s
      → sync_cache asked_changes asked_pool store ≡ some after
      → (d : Db) × Reach d0 d × Reach d e3 × Holds after d
  unfolding sync_cache take_changes is_ahead
  sync_cache-Holds store after v r0 r1 r2 r3 r4 q1 q2 q3 kept_delta kept_pool was done = elim was [
    | inl first ↦
        whole (ap (λ o. is_ahead o e0.version) first) (ap (λ o. with_meta o) (sym first) ∙ done)
    | inr ((m, has, at_s), same_old) ↦ taken m has at_s same_old (asked_changes s.version) refl (
        ap (λ n. take_changes (asked_changes n) asked_pool n store) (sym at_s)
        ∙ ap (λ o. with_meta o) (sym has)
        ∙ done)
  ]
    where
      with_meta : Option Metadata → Option Cache
      with_meta none = fetch_full asked_pool store
      with_meta (some m) = take_changes (asked_changes m.version) asked_pool m.version store

      valid0 : IsValid d3
      valid0 = (Reach-IsGood (Reach-trans (Reach-trans (Reach-trans r0 r1) r2) r3) v).valid

      whole :
          is_ahead store.meta e0.version ≡ false
          → fetch_full asked_pool store ≡ some after
          → (d : Db) × Reach d0 d × Reach d e3 × Holds after d
      whole behind written = (
        e0,
        Reach-trans (Reach-trans (Reach-trans r1 r2) r3) r4,
        Reach-trans (Reach-trans q1 q2) q3,
        full-Holds store after (Reach-IsGood r4 valid0).valid q1 q2 q3 kept_pool behind written,
      )

      taken :
          (m : Metadata)
          → store.meta ≡ some m
          → m.version ≡ s.version
          → ((ip : Text) → store.rows ip ≡ view s ip)
          → (reply : Option Changed) → asked_changes s.version ≡ reply
          → take_changes reply asked_pool s.version store ≡ some after
          → (d : Db) × Reach d0 d × Reach d e3 × Holds after d
      taken m has at_s same_old none asked done' = absurd (ground arith)
      taken m has at_s same_old (some (was_reset n)) asked done' =
          let up =
            Reach-IsGood (Reach-trans (Reach-trans (Reach-trans (Reach-trans r0 r1) r2) r3) r4) v in
          whole (ap (λ o. is_ahead o e0.version) has ∙ ground (arith, up.evolves.version_mono))
            done'
      taken m has at_s same_old (some (changed sent)) asked done' =
          let (d, from, to, holds) =
            answer-Holds changes_cache aggregates s d0 d1 d2 d3 m store sent v r0 r1 r2 r3
              kept_delta has at_s same_old asked in
          let written : (if sent.version == m.version then store else apply_delta sent store)
              ≡ after =
            ap (λ n. if sent.version == n then store else apply_delta sent store) at_s
            ∙ ap (λ o. or_else o after) done' in
          (
            d,
            from,
            Reach-trans (Reach-trans (Reach-trans (Reach-trans to r4) q1) q2) q3,
            subst (λ (c : Cache). Holds c d) written holds,
          )
