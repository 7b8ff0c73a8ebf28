-- ===== src/Store/Sync/Versions.antt =====
-- A version names one view: as long as the version stands, so do the public rows.
use gwsdb.Prelude.{◌≤◌, ◌<◌, Text, some, ◌≡◌, ◌⊎◌, arith, Option-cases, inl, inr}
use gwsdb.Store.Schema.{Db}
use gwsdb.Store.Tables.{pool_row}
use gwsdb.Store.Tables.Rows.{All-find}
use gwsdb.Store.Sql.Valid.{IsValid, IsStamped}
use gwsdb.Store.Reads.{IpStatus, joined_status}
use gwsdb.Store.Sync.{view, Moved}
use gwsdb.Store.Sync.Batches.{IsGood}

pub view-stamped :
    (t : Db) (ip : Text) (r : IpStatus) → IsValid t → view t ip ≡ some r → r.revision ≤ t.version
unfolding view joined_status
view-stamped t ip r v p = elim (Option-cases (pool_row ip t.pool)) [
  | inl no_row ↦ absurd (ground arith)
  | inr (q, row) ↦
      let stamp : q.revision ≤ t.version =
        All-find (IsStamped t.version) _ t.pool q v.stamped row in
      ground arith
]

pub same_version :
    (s t : Db)
    → IsGood s t
    → t.version ≡ s.version
    → ((ip : Text) → view t ip ≡ view s ip) × (t.reset_version ≡ s.reset_version)
same_version s t g e = (λ ip. settle ip (g.evolves.tracked ip), resets g.evolves.reset_fresh)
  where
    settle : (ip : Text) → Moved s t ip ⊎ (view t ip ≡ view s ip) → view t ip ≡ view s ip
    settle ip (inl (inl h)) = absurd (omega (arith, g.valid.reset))
    settle ip (inl (inr (r, p, h))) = absurd (omega (arith, view-stamped t ip r g.valid p))
    settle ip (inr p) = p

    resets :
        (t.reset_version ≡ s.reset_version) ⊎ (s.version < t.reset_version)
        → t.reset_version ≡ s.reset_version
    resets (inl p) = p
    resets (inr h) = absurd (omega (arith, g.valid.reset))
