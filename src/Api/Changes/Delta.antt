-- ===== src/Api/Changes/Delta.antt =====
-- A client that applies the delta to its snapshot has the pool as the server has it.
use gwsdb.Prelude.{
  ℕ, ◌≤◌, Text, text_eq, text_eq_iff, Bool, ◌&&◌, Option, none, some, List, [], ◌∷◌, ◌≡◌, ◌⊎◌, refl,
  sym, ap, subst, ◌∙◌, ltb, leb, if◌then◌else◌, arith, keep, Bool-cases, Option-cases, inl, inr,
}
use gwsdb.Store.Schema.{PoolRow, Db}
use gwsdb.Store.Tables.Keys.{by_key, IsKeyed, only_if, by_key-keep, keep-IsKeyed}
use gwsdb.Store.Tables.Sorting.{sort_by_keys, by_key-map, map-IsKeyed}
use gwsdb.Store.Tables.{pool_row}
use gwsdb.Store.Sql.Valid.{IsValid, pool_ip}
use gwsdb.Store.Reads.{
  IpStatus, list_known_ips_changed, joined_status, by_revision, map_option, pool_version,
  pool_reset_version,
}
use gwsdb.Store.Sync.{view, Moved}
use gwsdb.Store.Sync.Batches.{IsGood, IsGood-trans}
use gwsdb.Store.Sync.Versions.{view-stamped, same_version}
use gwsdb.Store.Sync.History.{Reach, Reach-IsGood}
use gwsdb.Client.{Rows, put_row, is_newer, apply_changes}
use gwsdb.Api.Changes.{Body, load_delta, load_pool_changes, changes_get, delta, unchanged}

abbrev status_ip : IpStatus → Text
status_ip r = r.ip

abbrev in_range : ℕ → ℕ → PoolRow → Bool
in_range a b r = ltb a r.revision && leb r.revision b

-- The delta holds one row for each address whose revision lies in the range.
changed-IsKeyed :
    (db : Db) (a b : ℕ) → IsValid db → IsKeyed status_ip (list_known_ips_changed db a b)
unfolding list_known_ips_changed joined_status
changed-IsKeyed db a b v =
    map-IsKeyed pool_ip status_ip _ _ (λ r. refl)
      (sort_by_keys pool_ip by_revision (keep (in_range a b) db.pool)
        (keep-IsKeyed pool_ip (in_range a b) db.pool v.pool_keyed)).1

changed-row :
    (db : Db) (a b : ℕ) (ip : Text)
    → IsValid db
    → by_key status_ip ip (list_known_ips_changed db a b)
      ≡ map_option
          (joined_status db.ptr_cache)
          (only_if pool_ip (in_range a b) (pool_row ip db.pool))
unfolding list_known_ips_changed joined_status
changed-row db a b ip v =
    by_key-map pool_ip status_ip (joined_status db.ptr_cache) ip _ (λ r. refl)
    ∙ ap (map_option (joined_status db.ptr_cache)) (
        (sort_by_keys pool_ip by_revision (keep (in_range a b) db.pool)
            (keep-IsKeyed pool_ip (in_range a b) db.pool v.pool_keyed)).0
          ip
        ∙ by_key-keep pool_ip ip (in_range a b) db.pool v.pool_keyed)

abbrev merged : Option IpStatus → Option IpStatus → Option IpStatus
merged none old = old
merged (some row) old = if is_newer row old then some row else old

set_row-view :
    (row : IpStatus) (old : Rows) (ip : Text)
    → (if is_newer row (old row.ip) then put_row row old else old) ip
      ≡ (if text_eq row.ip ip then merged (some row) (old ip) else old ip)
unfolding put_row
set_row-view row old ip = elim (Bool-cases (text_eq row.ip ip)) [
  | inl hit ↦ ground (arith, ap old ((text_eq_iff row.ip ip).0 hit))
  | inr miss ↦ ground arith
]

-- The client's loop, one address at a time.
apply_changes-row :
    (rows : List IpStatus) (old : Rows) (ip : Text)
    → IsKeyed status_ip rows
    → apply_changes rows old ip ≡ merged (by_key status_ip ip rows) (old ip)
unfolding apply_changes
apply_changes-row [] old ip u = refl
apply_changes-row (row ∷ rows) old ip u = elim (Bool-cases (text_eq row.ip ip)) [
  | inl hit ↦
      let absent : by_key status_ip ip rows ≡ none =
        subst (λ (k : Text). by_key status_ip k rows ≡ none) ((text_eq_iff row.ip ip).0 hit) u.0 in
      ground (
        arith,
        absent,
        set_row-view row old ip,
        apply_changes-row rows (if is_newer row (old row.ip) then put_row row old else old) ip u.1,
      )
  | inr miss ↦ ground (
    arith,
    set_row-view row old ip,
    apply_changes-row rows (if is_newer row (old row.ip) then put_row row old else old) ip u.1,
  )
]

abbrev within : ℕ → ℕ → Option IpStatus → Option IpStatus
within a b none = none
within a b (some r) = if ltb a r.revision && leb r.revision b then some r else none

changed-view :
    (db : Db) (a b : ℕ) (ip : Text)
    → IsValid db
    → by_key status_ip ip (list_known_ips_changed db a b) ≡ within a b (view db ip)
unfolding view joined_status
changed-view db a b ip v = elim (Option-cases (pool_row ip db.pool)) [
  | inl no_row ↦ ground (arith, changed-row db a b ip v)
  | inr (r, row) ↦ ground (arith, changed-row db a b ip v)
]

-- The delta of a database whose snapshots of `s` stand, applied to such a snapshot.
delta-view :
    (s d : Db) (old : Rows) (ip : Text)
    → IsValid s
    → IsGood s d
    → ((k : Text) → old k ≡ view s k)
    → d.reset_version ≤ s.version
    → apply_changes (list_known_ips_changed d s.version d.version) old ip ≡ view d ip
unfolding is_newer
delta-view s d old ip v g same_old standing =
    apply_changes-row _ old ip (changed-IsKeyed d s.version d.version g.valid)
    ∙ ap (λ o. merged o (old ip)) (changed-view d s.version d.version ip g.valid)
    ∙ settle (g.evolves.tracked ip)
  where
    settle :
        Moved s d ip ⊎ (view d ip ≡ view s ip)
        → merged (within s.version d.version (view d ip)) (old ip) ≡ view d ip
    settle (inl (inl h)) = absurd (omega arith)
    settle (inl (inr (r, p, h))) = elim (Option-cases (view s ip)) [
      | inl was ↦ ground (arith, same_old ip, view-stamped d ip r g.valid p)
      | inr (o, was) ↦
          ground (arith, same_old ip, view-stamped d ip r g.valid p, view-stamped s ip o v was)
    ]
    settle (inr p) = elim (Option-cases (view s ip)) [
      | inl was ↦ ground (arith, same_old ip)
      | inr (o, was) ↦ ground (arith, same_old ip, view-stamped s ip o v was)
    ]

-- What the handler has seen when it answers with a delta.
delta-facts :
    (cache : ℕ → ℕ → Option Body) (aggregates : Option (ℕ × ℕ)) (since : ℕ) (d0 d1 d2 d3 : Db)
    (body : Body)
    → changes_get cache aggregates (some since) d0 d1 d2 d3 ≡ delta body
    → (d1.reset_version ≤ since)
      × (d3.version ≡ d0.version)
      × (body.version ≡ d0.version)
      × (body.ips ≡ list_known_ips_changed d2 since d0.version)
unfolding changes_get load_delta load_pool_changes pool_version pool_reset_version
delta-facts cache aggregates since d0 d1 d2 d3 body h = (
  ground arith,
  ground (arith, Option-cases (cache since d0.version)),
  ground (arith, Option-cases (cache since d0.version)),
  ground (arith, Option-cases (cache since d0.version)),
)

-- A client whose snapshot is the pool as it was at version `since` asks for the changes since then,
-- while other requests write before, between and after the handler's reads. If the handler answers
-- with a delta that it has loaded, then the delta's version is the one at the end, and the rows that
-- the client has after applying it are exactly the pool's public rows at the end.
pub delta_sync :
    (cache : ℕ → ℕ → Option Body) (aggregates : Option (ℕ × ℕ)) (s d0 d1 d2 d3 : Db) (old : Rows)
    (body : Body)
    → IsValid s
    → Reach s d0
    → Reach d0 d1
    → Reach d1 d2
    → Reach d2 d3
    → ((k : Text) → old k ≡ view s k)
    → changes_get cache aggregates (some s.version) d0 d1 d2 d3 ≡ delta body
    → (body.version ≡ d3.version) × ((k : Text) → apply_changes body.ips old k ≡ view d3 k)
delta_sync cache aggregates s d0 d1 d2 d3 old body v r0 r1 r2 r3 same_old answer =
    let (standing, still, version, ips) =
      delta-facts cache aggregates s.version d0 d1 d2 d3 body answer in
    let g0 = Reach-IsGood r0 v in
    let g1 = Reach-IsGood r1 g0.valid in
    let g2 = Reach-IsGood r2 g1.valid in
    let g3 = Reach-IsGood r3 g2.valid in
    let to_load : d2.version ≡ d1.version =
      omega (arith, g1.evolves.version_mono, g2.evolves.version_mono, g3.evolves.version_mono) in
    let to_end : d3.version ≡ d2.version =
      omega (arith, g1.evolves.version_mono, g2.evolves.version_mono, g3.evolves.version_mono) in
    let since_load : IsGood s d2 = IsGood-trans s d1 d2 (IsGood-trans s d0 d1 g0 g1) g2 in
    let resets : d2.reset_version ≤ s.version = omega (arith, (same_version d1 d2 g2 to_load).1) in
    let at_version : d0.version ≡ d2.version = omega (arith, still, to_end) in
    (
      omega arith,
      λ k.
          ap (λ rows. apply_changes rows old k) ips
          ∙ ap (λ w. apply_changes (list_known_ips_changed d2 s.version w) old k) at_version
          ∙ delta-view s d2 old k v since_load same_old resets
          ∙ sym ((same_version d2 d3 g3 to_end).0 k),
    )

-- If the handler answers that nothing has changed, the client's rows are the pool's public rows.
pub unchanged_sync :
    (cache : ℕ → ℕ → Option Body) (aggregates : Option (ℕ × ℕ)) (s d0 d1 d2 d3 : Db) (old : Rows)
    (version : ℕ)
    → IsValid s
    → Reach s d0
    → ((k : Text) → old k ≡ view s k)
    → changes_get cache aggregates (some s.version) d0 d1 d2 d3 ≡ unchanged version
    → (version ≡ d0.version) × ((k : Text) → old k ≡ view d0 k)
unfolding changes_get load_delta pool_version
unchanged_sync cache aggregates s d0 d1 d2 d3 old version v r same_old answer =
    let same : d0.version ≡ s.version = ground (arith, Option-cases (cache s.version d0.version)) in
    (
      ground (arith, Option-cases (cache s.version d0.version)),
      λ k. same_old k ∙ sym ((same_version s d0 (Reach-IsGood r v) same).0 k),
    )
