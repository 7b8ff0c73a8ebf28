-- ===== src/Store/Prune/Retention.antt =====
-- How many checks of an address `pruneCheckHistory` leaves.
use gwsdb.Prelude.{
  ◌≤◌, Text, text_eq, Bool, true, false, ◌&&◌, List, [], ◌∷◌, ◌≡◌, ap, ◌∙◌, ◌⊎◌, arith, Bool-cases,
  inl, inr, any, any-append, mem_text, mem_text-unique, unique, chunks, concat, concat-chunks, ltb,
  ◌==◌,
}
use gwsdb.Store.Schema.{PoolRow, Db}
use gwsdb.Store.Tables.{count_checks}
use gwsdb.Store.Prune.{
  over_limit, prune_chunk, prune_chunks, prune_check_history, prune_ip_chunk,
  check_history_retention,
}
use gwsdb.Store.Prune.Window.{HasIds}
use gwsdb.Store.Prune.Rounds.{
  is_counted, IsBound, prune_chunk-Shrinks, prune_chunk-IsBound, mem-selected, prune_chunk-apart,
}

-- An address over the limit is counted to be.
abbrev IsFlagged : Text → Db → Type 0
IsFlagged ip db = IsBound ip db ⊎ (any (is_counted ip) db.pool ≡ true)

prune_chunk-keeps_IsBound :
    (ip : Text) (chunk : List Text) (s : Db) → IsBound ip s → IsBound ip (prune_chunk chunk s)
unfolding count_checks
prune_chunk-keeps_IsBound ip chunk s bound =
    omega (arith, prune_chunk-Shrinks chunk s (λ c. text_eq c.ip ip))

prune_chunk-HasIds :
    (chunk : List Text) (s : Db) → HasIds s.checks → HasIds (prune_chunk chunk s).checks
prune_chunk-HasIds chunk s ids n =
    omega (arith, ids n, prune_chunk-Shrinks chunk s (λ c. c.id == n))

-- The round of its chunk brings the address within the limit.
prune_chunk-settles :
    (ip : Text) (chunk : List Text) (s : Db)
    → mem_text ip chunk ≡ true
    → HasIds s.checks
    → IsFlagged ip s
    → IsBound ip (prune_chunk chunk s)
unfolding over_limit
prune_chunk-settles ip chunk s there ids flagged = elim flagged [
  | inl bound ↦ prune_chunk-keeps_IsBound ip chunk s bound
  | inr counted ↦
      let found : mem_text ip (over_limit chunk s) ≡ true =
        mem-selected ip chunk _ s.pool ∙ ground arith in
      prune_chunk-IsBound ip chunk s found ids
]

prune_chunk-IsFlagged :
    (ip : Text) (chunk : List Text) (s : Db)
    → mem_text ip chunk ≡ false
    → IsFlagged ip s
    → IsFlagged ip (prune_chunk chunk s)
prune_chunk-IsFlagged ip chunk s none flagged = elim flagged [
  | inl bound ↦ inl (prune_chunk-keeps_IsBound ip chunk s bound)
  | inr counted ↦ inr (prune_chunk-apart ip chunk s none ∙ counted)
]

prune_chunks-keeps_IsBound :
    (ip : Text) (chunks : List (List Text)) (s : Db)
    → IsBound ip s
    → IsBound ip (prune_chunks chunks s)
unfolding prune_chunks
prune_chunks-keeps_IsBound ip [] s bound = bound
prune_chunks-keeps_IsBound ip (chunk ∷ rest) s bound =
    prune_chunks-keeps_IsBound ip rest (prune_chunk chunk s)
      (prune_chunk-keeps_IsBound ip chunk s bound)

prune_chunks-IsBound :
    (ip : Text) (chunks : List (List Text)) (s : Db)
    → mem_text ip (concat chunks) ≡ true
    → HasIds s.checks
    → IsFlagged ip s
    → IsBound ip (prune_chunks chunks s)
unfolding prune_chunks
prune_chunks-IsBound ip [] s there ids flagged = ground arith
prune_chunks-IsBound ip (chunk ∷ rest) s there ids flagged = elim (Bool-cases (mem_text ip chunk)) [
  | inl here ↦
      prune_chunks-keeps_IsBound ip rest (prune_chunk chunk s)
        (prune_chunk-settles ip chunk s here ids flagged)
  | inr none ↦
      let later : mem_text ip (concat rest) ≡ true =
        ground (arith, any-append (λ t. text_eq t ip) chunk (concat rest)) in
      prune_chunks-IsBound ip rest (prune_chunk chunk s) later (prune_chunk-HasIds chunk s ids)
        (prune_chunk-IsFlagged ip chunk s none flagged)
]

-- A row of the pool counts the address's checks exactly.
abbrev pub is_exact : Text → Db → PoolRow → Bool
is_exact ip db r = text_eq r.ip ip && (r.history_count == count_checks ip db.checks)

exact_counts :
    (ip : Text) (db : Db) (rs : List PoolRow)
    → ltb check_history_retention (count_checks ip db.checks) ≡ true
    → any (is_exact ip db) rs ≡ true
    → any (is_counted ip) rs ≡ true
exact_counts ip db [] over h = h
exact_counts ip db (r ∷ rs) over h = ground (arith, exact_counts ip db rs over)

exact-IsFlagged : (ip : Text) (db : Db) → any (is_exact ip db) db.pool ≡ true → IsFlagged ip db
exact-IsFlagged ip db h =
    elim (Bool-cases (ltb check_history_retention (count_checks ip db.checks))) [
      | inl over ↦ inr (exact_counts ip db db.pool over h)
      | inr within ↦ inl (ground arith)
    ]

-- Given a table of checks in which no two have one id, and an address among those to prune, for which
-- some row of the pool has the exact number of its checks as its history count: at most
-- `check_history_retention` (300) of the address's checks are left after the pruning.
pub prune_check_history-bounds :
    (ip : Text) (ips : List Text) (db : Db)
    → mem_text ip ips ≡ true
    → HasIds db.checks
    → any (is_exact ip db) db.pool ≡ true
    → count_checks ip (prune_check_history ips db).checks ≤ check_history_retention
unfolding prune_check_history
prune_check_history-bounds ip ips db there ids exact =
    prune_chunks-IsBound ip (chunks prune_ip_chunk (unique ips)) db
      (ap (mem_text ip) (concat-chunks prune_ip_chunk (unique ips) (omega arith))
        ∙ (mem_text-unique ip ips ∙ there))
      ids (exact-IsFlagged ip db exact)
