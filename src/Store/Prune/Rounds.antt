-- ===== src/Store/Prune/Rounds.antt =====
-- What one round of `pruneCheckHistory` leaves.
use gwsdb.Prelude.{
  ◌≤◌, Text, text_eq, text_eq_iff, Bool, true, false, ◌&&◌, List, [], ◌∷◌, ◌≡◌, refl, ap, ◌∙◌,
  arith, Bool-cases, inl, inr, any, keep, length, mem_text, map, ltb,
}
use gwsdb.Store.Schema.{Check, PoolRow, Db}
use gwsdb.Store.Tables.{update, count_checks}
use gwsdb.Store.Sql.{batch, exec, exec_delete_old_checks, exec_recount_history, exec_delete_dead}
use gwsdb.Store.Prune.{
  over_limit, dead_ips, prune_over, evict, prune_chunk, check_history_retention,
}
use gwsdb.Store.Prune.Window.{HasIds, delete_old_checks-count}

-- A row of the pool counts the address's checks to be over the limit.
abbrev pub is_counted : Text → PoolRow → Bool
is_counted ip r = text_eq r.ip ip && ltb check_history_retention r.history_count

abbrev pub IsBound : Text → Db → Type 0
IsBound ip db = count_checks ip db.checks ≤ check_history_retention

-- What the pruning leaves of any choice of the checks is no more than there was.
abbrev pub Shrinks : Db → Db → Type 0
Shrinks s t = (q : Check → Bool) → length (keep q t.checks) ≤ length (keep q s.checks)

keep-keep_shrinks :
    {A : Type 0} (p q : A → Bool) (xs : List A) → length (keep q (keep p xs)) ≤ length (keep q xs)
keep-keep_shrinks p q [] = omega arith
keep-keep_shrinks p q (x ∷ xs) = ground (arith, keep-keep_shrinks p q xs)

prune_over-Shrinks : (ips : List Text) (s : Db) → Shrinks s (prune_over ips s)
unfolding prune_over batch exec exec_delete_old_checks exec_recount_history
prune_over-Shrinks [] s q = omega arith
prune_over-Shrinks (i ∷ ips) s q = keep-keep_shrinks _ q s.checks

evict-checks : (ips : List Text) (s : Db) → (evict ips s).checks ≡ s.checks
unfolding evict batch exec exec_delete_dead
evict-checks [] s = refl
evict-checks (i ∷ ips) s = refl

pub prune_chunk-Shrinks : (chunk : List Text) (s : Db) → Shrinks s (prune_chunk chunk s)
unfolding prune_chunk
prune_chunk-Shrinks chunk s q =
    let pruned = prune_over (over_limit chunk s) s in
    omega (
      arith,
      prune_over-Shrinks (over_limit chunk s) s q,
      ap (λ cs. length (keep q cs)) (evict-checks (dead_ips chunk pruned) pruned),
    )

-- An address over the limit is pruned.
prune_over-IsBound :
    (ip : Text) (ips : List Text) (s : Db)
    → mem_text ip ips ≡ true
    → HasIds s.checks
    → IsBound ip (prune_over ips s)
unfolding prune_over batch exec exec_recount_history
prune_over-IsBound ip [] s there ids = ground arith
prune_over-IsBound ip (i ∷ ips) s there ids =
    delete_old_checks-count ip (i ∷ ips) check_history_retention s there ids

pub prune_chunk-IsBound :
    (ip : Text) (chunk : List Text) (s : Db)
    → mem_text ip (over_limit chunk s) ≡ true
    → HasIds s.checks
    → IsBound ip (prune_chunk chunk s)
unfolding prune_chunk
prune_chunk-IsBound ip chunk s there ids =
    let pruned = prune_over (over_limit chunk s) s in
    omega (
      arith,
      prune_over-IsBound ip (over_limit chunk s) s there ids,
      ap (count_checks ip) (evict-checks (dead_ips chunk pruned) pruned),
    )

-- What a SELECT of the addresses of the chunk with `w` finds.
pub mem-selected :
    (ip : Text) (chunk : List Text) (w : PoolRow → Bool) (rs : List PoolRow)
    → mem_text ip (map (λ r. r.ip) (keep (λ r. mem_text r.ip chunk && w r) rs))
      ≡ (mem_text ip chunk && any (λ r. text_eq r.ip ip && w r) rs)
mem-selected ip chunk w [] = ground arith
mem-selected ip chunk w (r ∷ rs) = elim (Bool-cases (text_eq r.ip ip)) [
  | inr e ↦ ground (arith, mem-selected ip chunk w rs)
  | inl e ↦
      let same = ap (λ t. mem_text t chunk) ((text_eq_iff r.ip ip).0 e) in
      ground (arith, mem-selected ip chunk w rs)
]

any-update_apart :
    {A : Type 0} (q p : A → Bool) (f : A → A) (xs : List A)
    → ((x : A) → p x ≡ true → (q (f x) ≡ false) × (q x ≡ false))
    → any q (update p f xs) ≡ any q xs
unfolding update
any-update_apart q p f [] h = refl
any-update_apart q p f (x ∷ xs) h = ground (arith, h x, any-update_apart q p f xs h)

any-keep_apart :
    {A : Type 0} (q p : A → Bool) (xs : List A)
    → ((x : A) → q x ≡ true → p x ≡ true)
    → any q (keep p xs) ≡ any q xs
any-keep_apart q p [] h = refl
any-keep_apart q p (x ∷ xs) h = ground (arith, h x, any-keep_apart q p xs h)

not_listed :
    (ip : Text) (ips : List Text) (other : Text)
    → mem_text ip ips ≡ false
    → mem_text other ips ≡ true
    → text_eq other ip ≡ false
not_listed ip ips other none there = elim (Bool-cases (text_eq other ip)) [
  | inr e ↦ e
  | inl e ↦ let same = ap (λ t. mem_text t ips) ((text_eq_iff other ip).0 e) in ground arith
]

prune_over-apart :
    (ip : Text) (ips : List Text) (s : Db)
    → mem_text ip ips ≡ false
    → any (is_counted ip) (prune_over ips s).pool ≡ any (is_counted ip) s.pool
unfolding prune_over batch exec exec_delete_old_checks exec_recount_history
prune_over-apart ip [] s none = refl
prune_over-apart ip (i ∷ ips) s none =
    any-update_apart (is_counted ip) _ _ s.pool (λ r there.
      let apart = not_listed ip (i ∷ ips) r.ip none there in (ground arith, ground arith))

evict-apart :
    (ip : Text) (ips : List Text) (s : Db)
    → mem_text ip ips ≡ false
    → any (is_counted ip) (evict ips s).pool ≡ any (is_counted ip) s.pool
unfolding evict batch exec exec_delete_dead
evict-apart ip [] s none = refl
evict-apart ip (i ∷ ips) s none =
    any-keep_apart (is_counted ip) _ s.pool
      (λ r h. ground (arith, not_listed ip (i ∷ ips) r.ip none))

-- A round leaves the other addresses' rows as they are.
pub prune_chunk-apart :
    (ip : Text) (chunk : List Text) (s : Db)
    → mem_text ip chunk ≡ false
    → any (is_counted ip) (prune_chunk chunk s).pool ≡ any (is_counted ip) s.pool
unfolding prune_chunk over_limit dead_ips
prune_chunk-apart ip chunk s none =
    let pruned = prune_over (over_limit chunk s) s in
    evict-apart ip (dead_ips chunk pruned) pruned
      (mem-selected ip chunk _ pruned.pool ∙ ground arith)
    ∙ prune_over-apart ip (over_limit chunk s) s (mem-selected ip chunk _ s.pool ∙ ground arith)
