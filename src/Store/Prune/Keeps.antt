-- ===== src/Store/Prune/Keeps.antt =====
-- Which addresses `pruneCheckHistory` leaves in the pool.
use gwsdb.Prelude.{
  Text, text_eq, text_eq_iff, Bool, true, not, ◌&&◌, List, [], ◌∷◌, ◌≡◌, refl, ap, ◌∙◌, arith,
  Bool-cases, inl, inr, any, any-keep, any-ext, keep, mem_text, unique, chunks,
}
use gwsdb.Store.Schema.{PoolRow, Db}
use gwsdb.Store.Tables.{update, has_success}
use gwsdb.Store.Sql.{
  batch, exec, exec_delete_old_checks, exec_recount_history, exec_delete_dead, bump_pool_revision,
  mark_reset,
}
use gwsdb.Store.Prune.{
  over_limit, dead_ips, prune_over, evict, prune_chunk, prune_chunks, prune_check_history,
  prune_ip_chunk,
}

abbrev pub in_pool : Text → Db → Bool
in_pool ip db = any (λ (r : PoolRow). text_eq r.ip ip) db.pool

abbrev pub succeeds : Text → Db → Bool
succeeds ip db = has_success ip db.checks

any-of_keep :
    {A : Type 0} (p q : A → Bool) (xs : List A) → any p (keep q xs) ≡ true → any p xs ≡ true
any-of_keep p q [] h = h
any-of_keep p q (x ∷ xs) h = ground (arith, any-of_keep p q xs)

pub any-update :
    {A : Type 0} (q p : A → Bool) (f : A → A) (xs : List A)
    → ((x : A) → q (f x) ≡ q x)
    → any q (update p f xs) ≡ any q xs
unfolding update
any-update q p f [] h = refl
any-update q p f (x ∷ xs) h = ground (arith, h x, any-update q p f xs h)

-- What a step of the pruning keeps: a success that is left was there before, and then the address
-- stays in the pool or out of it.
record KeepsOf (ip : Text) (s t : Db) : Type 0 where
  checks_shrink : succeeds ip t ≡ true → succeeds ip s ≡ true
  pool_same : succeeds ip t ≡ true → in_pool ip t ≡ in_pool ip s

KeepsOf-trans : (ip : Text) (s t u : Db) → KeepsOf ip s t → KeepsOf ip t u → KeepsOf ip s u
KeepsOf-trans ip s t u a b = record {
  checks_shrink = λ h. a.checks_shrink (b.checks_shrink h);
  pool_same = λ h. b.pool_same h ∙ a.pool_same (b.checks_shrink h);
}

prune_over-KeepsOf : (ip : Text) (ips : List Text) (s : Db) → KeepsOf ip s (prune_over ips s)
unfolding prune_over batch exec exec_delete_old_checks exec_recount_history has_success
prune_over-KeepsOf ip [] s = record { checks_shrink = λ h. h; pool_same = λ h. refl }
prune_over-KeepsOf ip (i ∷ ips) s = record {
  checks_shrink = λ h. any-of_keep _ _ s.checks h;
  pool_same = λ h. any-update _ _ _ s.pool (λ r. refl);
}

delete_dead-keeps :
    (ip : Text) (ips : List Text) (s : Db)
    → succeeds ip s ≡ true
    → in_pool ip (exec_delete_dead ips s) ≡ in_pool ip s
unfolding exec_delete_dead
delete_dead-keeps ip ips s h =
    any-keep (λ (r : PoolRow). text_eq r.ip ip)
      (λ r. not (mem_text r.ip ips && not (has_success r.ip s.checks))) s.pool
    ∙ any-ext _ _ s.pool kept
  where
    kept :
        (r : PoolRow)
        → (not (mem_text r.ip ips && not (has_success r.ip s.checks)) && text_eq r.ip ip)
          ≡ text_eq r.ip ip
    kept r = elim (Bool-cases (text_eq r.ip ip)) [
      | inr e ↦ ground arith
      | inl e ↦ ground (arith, ap (λ t. has_success t s.checks) ((text_eq_iff r.ip ip).0 e))
    ]

evict-KeepsOf : (ip : Text) (ips : List Text) (s : Db) → KeepsOf ip s (evict ips s)
unfolding evict batch exec exec_delete_dead
evict-KeepsOf ip [] s = record { checks_shrink = λ h. h; pool_same = λ h. refl }
evict-KeepsOf ip (i ∷ ips) s = record {
  checks_shrink = λ h. h;
  pool_same =
      λ h. delete_dead-keeps ip (i ∷ ips) (batch (bump_pool_revision ∷ mark_reset ∷ []) s) h;
}

prune_chunks-KeepsOf :
    (ip : Text) (chunks : List (List Text)) (s : Db) → KeepsOf ip s (prune_chunks chunks s)
unfolding prune_chunks prune_chunk
prune_chunks-KeepsOf ip [] s = record { checks_shrink = λ h. h; pool_same = λ h. refl }
prune_chunks-KeepsOf ip (chunk ∷ rest) s =
    let pruned = prune_over (over_limit chunk s) s in
    KeepsOf-trans ip s (prune_chunk chunk s) _
      (KeepsOf-trans ip s pruned _ (prune_over-KeepsOf ip (over_limit chunk s) s)
        (evict-KeepsOf ip (dead_ips chunk pruned) pruned))
      (prune_chunks-KeepsOf ip rest (prune_chunk chunk s))

-- An address with a success among the checks that are left after the pruning is in the pool
-- afterwards exactly if it was before, whichever addresses are pruned.
pub prune_check_history-keeps :
    (ip : Text) (ips : List Text) (s : Db)
    → has_success ip (prune_check_history ips s).checks ≡ true
    → in_pool ip (prune_check_history ips s) ≡ in_pool ip s
unfolding prune_check_history
prune_check_history-keeps ip ips s h =
    (prune_chunks-KeepsOf ip (chunks prune_ip_chunk (unique ips)) s).pool_same h
