-- ===== src/Store/RateLimit/Apart.antt =====
-- The counters of different clients and kinds.
use gwsdb.Prelude.{
  ℕ, ◌+◌, Text, text_eq, text_eq_iff, text_eq_refl, true, false, ◌&&◌, List, [], ◌∷◌, ◌++◌, ◌≡◌,
  refl, ap, arith, Bool-cases, inl, inr, is_some, find,
}
use gwsdb.Store.Schema.{RateLimitKind, probe, query, RateRow, Db}
use gwsdb.Store.Tables.{update}
use gwsdb.Store.RateLimit.Cap.{same_kind_refl}
use gwsdb.Store.RateLimit.{
  same_kind, is_client, window_of, drop_passed, is_bucket, bucket_count, count_one,
  check_rate_limit,
}

same_kind→eq : (j k : RateLimitKind) → same_kind j k ≡ true → j ≡ k
unfolding same_kind
same_kind→eq probe probe h = refl
same_kind→eq probe query h = absurd (ground arith)
same_kind→eq query probe h = absurd (ground arith)
same_kind→eq query query h = refl

module _ (k j : RateLimitKind) (c d : Text) (apart : (same_kind k j && text_eq c d) ≡ false) where
  -- No row belongs to both.
  not_both : (r : RateRow) → is_client k c r ≡ true → is_client j d r ≡ false
  unfolding is_client
  not_both r h = ground (
    arith,
    ap (λ i. same_kind i j) (same_kind→eq r.kind k (ground arith)),
    ap (λ t. text_eq t d) ((text_eq_iff r.client_ip c).0 (ground arith)),
  )

  drop_passed-apart :
      (w v : ℕ) (rows : List RateRow)
      → bucket_count j d v (drop_passed k c w rows) ≡ bucket_count j d v rows
  unfolding bucket_count drop_passed is_bucket
  drop_passed-apart w v [] = refl
  drop_passed-apart w v (r ∷ rows) = ground (arith, not_both r, drop_passed-apart w v rows)

  update-apart :
      (w v : ℕ) (rows : List RateRow)
      → bucket_count j d v
          (update (is_bucket k c w) (λ (r : RateRow). record r { count = r.count + 1 }) rows)
        ≡ bucket_count j d v rows
  unfolding bucket_count update is_bucket is_client
  update-apart w v [] = refl
  update-apart w v (r ∷ rows) = elim (Bool-cases (is_bucket k c w r)) [
    | inr other ↦ rw other (ground (arith, update-apart w v rows))
    | inl mine ↦ rw mine (ground (arith, not_both r, update-apart w v rows))
  ]

  append-apart :
      (v : ℕ) (rows : List RateRow) (r : RateRow)
      → is_client k c r ≡ true
      → bucket_count j d v (rows ++ r ∷ []) ≡ bucket_count j d v rows
  unfolding bucket_count is_bucket
  append-apart v [] r h = ground (arith, not_both r h)
  append-apart v (s ∷ rows) r h = ground (arith, append-apart v rows r h)

  count_one-apart :
      (w v : ℕ) (rows : List RateRow)
      → bucket_count j d v (count_one k c w rows) ≡ bucket_count j d v rows
  unfolding count_one
  count_one-apart w v rows = elim (Bool-cases (is_some (find (is_bucket k c w) rows))) [
    | inl e ↦ rw e (update-apart w v rows)
    | inr e ↦ rw e (append-apart v rows _ own)
  ]
    where
      own : is_client k c (record { kind = k; client_ip = c; window = w; count = 1 }) ≡ true
      own = unfold is_client in ground (arith, same_kind_refl k, text_eq_refl c)

-- A request of one client and kind leaves the counters of every other client and kind alone.
check_rate_limit-apart :
    (k j : RateLimitKind) (c d : Text) (limit window_ms now v : ℕ) (db : Db)
    → (same_kind k j && text_eq c d) ≡ false
    → bucket_count j d v (check_rate_limit k c limit window_ms now db).0.rates
      ≡ bucket_count j d v db.rates
unfolding check_rate_limit
check_rate_limit-apart k j c d limit window_ms now v db apart =
    let w = window_of now window_ms in
    ground (
      arith,
      drop_passed-apart k j c d apart w v db.rates,
      count_one-apart k j c d apart w v (drop_passed k c w db.rates),
    )
