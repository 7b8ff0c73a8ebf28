-- ===== src/Store/Sync.antt =====
-- What the readers of the pool see, and how a write may change it: the contract between the writers
-- of src/store.ts and the delta of functions/api/pool/changes.ts.
pub mod Statements
pub mod Ptr
pub mod Batches
pub mod Versions
pub mod History
pub mod Writers
use gwsdb.Prelude.{ℕ, ◌≤◌, ◌<◌, Text, Option, some, ◌≡◌, ◌⊎◌, inl, inr, arith, refl, ◌∙◌}
use gwsdb.Store.Schema.{PoolRow, PtrRow, Db}
use gwsdb.Store.Tables.{pool_row}
use gwsdb.Store.Reads.{IpStatus, joined_status, map_option}

-- The public row of an address.
unfoldable pub view : Db → Text → Option IpStatus
view db ip = map_option (joined_status db.ptr_cache) (pool_row ip db.pool)

-- Since `s`, the address got a newer revision, or the snapshots of that time were given up.
abbrev pub Moved : Db → Db → Text → Type 0
Moved s t ip =
    (s.version < t.reset_version)
    ⊎ ((r : IpStatus) × (view t ip ≡ some r) × (s.version < r.revision))

pub record Evolves (s t : Db) : Type 0 where
  pub version_mono : s.version ≤ t.version
  pub reset_mono : s.reset_version ≤ t.reset_version
  pub reset_fresh : (t.reset_version ≡ s.reset_version) ⊎ (s.version < t.reset_version)
  pub tracked : (ip : Text) → Moved s t ip ⊎ (view t ip ≡ view s ip)

pub Evolves-refl : (s : Db) → Evolves s s
Evolves-refl s = record {
  version_mono = omega arith;
  reset_mono = omega arith;
  reset_fresh = inl refl;
  tracked = λ ip. inr refl;
}

pub Evolves-trans : (s t u : Db) → Evolves s t → Evolves t u → Evolves s u
Evolves-trans s t u e f = record {
  version_mono = omega (arith, e.version_mono, f.version_mono);
  reset_mono = omega (arith, e.reset_mono, f.reset_mono);
  reset_fresh = join_resets e.reset_fresh f.reset_fresh;
  tracked = λ ip. join_tracks ip (e.tracked ip) (f.tracked ip);
}
  where
    join_resets :
        (t.reset_version ≡ s.reset_version) ⊎ (s.version < t.reset_version)
        → (u.reset_version ≡ t.reset_version) ⊎ (t.version < u.reset_version)
        → (u.reset_version ≡ s.reset_version) ⊎ (s.version < u.reset_version)
    join_resets a (inr h) = inr (omega (arith, e.version_mono))
    join_resets (inl p) (inl q) = inl (q ∙ p)
    join_resets (inr h) (inl q) = inr (omega arith)

    join_tracks :
        (ip : Text)
        → Moved s t ip ⊎ (view t ip ≡ view s ip)
        → Moved t u ip ⊎ (view u ip ≡ view t ip)
        → Moved s u ip ⊎ (view u ip ≡ view s ip)
    join_tracks ip a (inl (inl h)) = inl (inl (omega (arith, e.version_mono)))
    join_tracks ip a (inl (inr (r, p, h))) = inl (inr (r, p, omega (arith, e.version_mono)))
    join_tracks ip (inl (inl h)) (inr q) = inl (inl (omega (arith, f.reset_mono)))
    join_tracks ip (inl (inr (r, p, h))) (inr q) = inl (inr (r, q ∙ p, h))
    join_tracks ip (inr p) (inr q) = inr (q ∙ p)
