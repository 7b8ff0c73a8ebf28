-- ===== src/Store/Sync/Batches.antt =====
-- The batches that src/store.ts sends: all silent, or a bump and then statements that stamp.
use gwsdb.Prelude.{List, [], ◌∷◌, refl, arith, Bool-cases, inl, inr}
use gwsdb.Store.Schema.{Db}
use gwsdb.Store.Sql.{
  Stmt, bump_pool_revision, insert_check, insert_recheck, delete_old_checks, recount_history, exec,
  exec_delete_old_checks, exec_recount_history, batch, passes_insert_gate,
}
use gwsdb.Store.Sql.Valid.{IsValid, exec-IsValid, batch-IsValid}
use gwsdb.Store.Sync.{view, Evolves, Evolves-refl, Evolves-trans}
use gwsdb.Store.Sync.Statements.{Ahead, IsStamping, stamping-Ahead, recount-view}

-- A write keeps the invariant, and changes no public row but under a version of its own.
pub record IsGood (s t : Db) : Type 0 where
  pub valid : IsValid t
  pub evolves : Evolves s t

pub IsGood-trans : (s t u : Db) → IsGood s t → IsGood t u → IsGood s u
IsGood-trans s t u g h = record {
  valid = h.valid;
  evolves = Evolves-trans s t u g.evolves h.evolves;
}

pub bump-Ahead : (s : Db) → Ahead s (exec bump_pool_revision s)
unfolding exec view
bump-Ahead s = record {
  evolves = record {
    version_mono = omega arith;
    reset_mono = omega arith;
    reset_fresh = inl refl;
    tracked = λ ip. inr refl;
  };
  newer = omega arith;
}

-- Statements on the checks alone, and the recount, which touches no public column.
abbrev pub IsSilent : Stmt → Type 0
IsSilent (insert_check row force cutoff) = Unit
IsSilent (insert_recheck row) = Unit
IsSilent (delete_old_checks ips limit) = Unit
IsSilent (recount_history ips) = Unit
IsSilent _ = ⊥

silent-Evolves : (s : Db) (c : Stmt) → IsSilent c → Evolves s (exec c s)
unfolding exec exec_delete_old_checks exec_recount_history view
silent-Evolves s (insert_check row force cutoff) w =
    elim (Bool-cases (passes_insert_gate row.ip force cutoff s.pool)) [
      | inl e ↦ rw e (record {
        version_mono = omega arith;
        reset_mono = omega arith;
        reset_fresh = inl refl;
        tracked = λ ip. inr refl;
      })
      | inr e ↦ rw e (Evolves-refl s)
    ]
silent-Evolves s (insert_recheck row) w = record {
  version_mono = omega arith;
  reset_mono = omega arith;
  reset_fresh = inl refl;
  tracked = λ ip. inr refl;
}
silent-Evolves s (delete_old_checks ips limit) w = record {
  version_mono = omega arith;
  reset_mono = omega arith;
  reset_fresh = inl refl;
  tracked = λ ip. inr refl;
}
silent-Evolves s (recount_history ips) w = record {
  version_mono = omega arith;
  reset_mono = omega arith;
  reset_fresh = inl refl;
  tracked = λ ip. inr (recount-view s ips ip);
}
silent-Evolves s _ w = absurd w

abbrev pub AllSilent : List Stmt → Type 0
AllSilent [] = Unit
AllSilent (c ∷ cs) = IsSilent c × AllSilent cs

abbrev pub AllStamping : List Stmt → Type 0
AllStamping [] = Unit
AllStamping (c ∷ cs) = IsStamping c × AllStamping cs

pub silent-IsGood : (cs : List Stmt) (s : Db) → IsValid s → AllSilent cs → IsGood s (batch cs s)
unfolding batch
silent-IsGood [] s v w = record { valid = v; evolves = Evolves-refl s }
silent-IsGood (c ∷ cs) s v w =
    IsGood-trans s (exec c s) _
      (record { valid = exec-IsValid s v c; evolves = silent-Evolves s c w.0 })
      (silent-IsGood cs (exec c s) (exec-IsValid s v c) w.1)

stamping_batch-Ahead :
    (cs : List Stmt) (s t : Db) → AllStamping cs → Ahead s t → Ahead s (batch cs t)
unfolding batch
stamping_batch-Ahead [] s t w a = a
stamping_batch-Ahead (c ∷ cs) s t w a =
    stamping_batch-Ahead cs s (exec c t) w.1 (stamping-Ahead s t c w.0 a)

-- A batch that bumps first and then stamps whatever it writes.
pub bumped-IsGood :
    (cs : List Stmt) (s : Db)
    → IsValid s
    → AllStamping cs
    → IsGood s (batch (bump_pool_revision ∷ cs) s)
bumped-IsGood cs s v w = record {
  valid = batch-IsValid (bump_pool_revision ∷ cs) s v;
  evolves = evolved;
}
  where
    evolved : Evolves s (batch (bump_pool_revision ∷ cs) s)
    evolved =
        unfold batch in
        (stamping_batch-Ahead cs s (exec bump_pool_revision s) w (bump-Ahead s)).evolves
