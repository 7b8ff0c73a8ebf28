-- ===== src/Store/RateLimit/Cap.antt =====
-- How many requests of one client `checkRateLimit` lets through, and that clients do not share a
-- counter.
use gwsdb.Prelude.{
  ℕ, suc, ◌-◌, Text, text_eq_refl, Bool, true, false, List, [], ◌∷◌, ◌≡◌, refl, sym, ap, subst, ◌∙◌,
  ltb, if◌then◌else◌, arith, Bool-cases, inl, inr,
}
use gwsdb.Store.Schema.{RateLimitKind, probe, query, RateRow, Db}
use gwsdb.Store.Tables.{update}
use gwsdb.Store.RateLimit.{
  same_kind, is_client, window_of, drop_passed, is_bucket, bucket_count, count_one,
  check_rate_limit,
}

pub same_kind_refl : (k : RateLimitKind) → same_kind k k ≡ true
unfolding same_kind
same_kind_refl probe = refl
same_kind_refl query = refl

module _ (kind : RateLimitKind) (client : Text) (window : ℕ) where
  abbrev mine : RateRow → Bool
  mine = is_bucket kind client window

  abbrev count_of : List RateRow → ℕ
  count_of = bucket_count kind client window

  -- The rows of the window itself are not dropped.
  pub count-drop_passed :
      (rows : List RateRow)
      → bucket_count kind client window (drop_passed kind client window rows)
        ≡ bucket_count kind client window rows
  unfolding bucket_count drop_passed is_bucket
  count-drop_passed [] = refl
  count-drop_passed (r ∷ rows) = ground (arith, count-drop_passed rows)

  mine-new : mine (record { kind = kind; client_ip = client; window = window; count = 1 }) ≡ true
  unfolding is_bucket is_client same_kind
  mine-new = ground (arith, same_kind_refl kind, text_eq_refl client)

  count_one-other :
      (r : RateRow) (rows : List RateRow)
      → mine r ≡ false
      → count_one kind client window (r ∷ rows) ≡ r ∷ count_one kind client window rows
  unfolding count_one update
  count_one-other r rows h = ground arith

  count-other :
      (r : RateRow) (rows : List RateRow) → mine r ≡ false → count_of (r ∷ rows) ≡ count_of rows
  unfolding bucket_count
  count-other r rows h = rw h

  count_one-mine :
      (r : RateRow) (rows : List RateRow)
      → mine r ≡ true
      → count_of (count_one kind client window (r ∷ rows)) ≡ suc r.count
  unfolding bucket_count count_one update is_bucket
  count_one-mine r rows h = ground arith

  count-mine : (r : RateRow) (rows : List RateRow) → mine r ≡ true → count_of (r ∷ rows) ≡ r.count
  unfolding bucket_count
  count-mine r rows h = rw h

  pub count-count_one :
      (rows : List RateRow) → count_of (count_one kind client window rows) ≡ suc (count_of rows)
  unfolding bucket_count count_one
  count-count_one [] = rw mine-new
  count-count_one (r ∷ rows) = elim (Bool-cases (mine r)) [
    | inl e ↦ count_one-mine r rows e ∙ sym (ap suc (count-mine r rows e))
    | inr e ↦
        ap count_of (count_one-other r rows e)
        ∙ count-other r (count_one kind client window rows) e
        ∙ count-count_one rows
        ∙ sym (ap suc (count-other r rows e))
  ]

-- The first answers are yes, as many as the limit leaves, and the others no.
unfoldable pub yes_then_no : ℕ → List ℕ → List Bool
yes_then_no left [] = []
yes_then_no left (now ∷ later) = ltb 0 left ∷ yes_then_no (left - 1) later

-- One request, as the state that it leaves and its answer.
module _ (kind : RateLimitKind) (client : Text) (limit window_ms : ℕ) where
  abbrev ask : ℕ → Db → Db × Bool
  ask now db = check_rate_limit kind client limit window_ms now db

  -- The count that the request at `now` reads.
  abbrev pub used : ℕ → Db → ℕ
  used now db = bucket_count kind client (window_of now window_ms) db.rates

  ask-answer : (now : ℕ) (db : Db) → (ask now db).1 ≡ ltb (used now db) limit
  unfolding check_rate_limit
  ask-answer now db =
      ground (arith, count-drop_passed kind client (window_of now window_ms) db.rates)

  ask-used :
      (now : ℕ) (db : Db)
      → used now (ask now db).0
        ≡ (if ltb (used now db) limit then suc (used now db) else used now db)
  unfolding check_rate_limit
  ask-used now db =
      let w = window_of now window_ms in
      let kept = drop_passed kind client w db.rates in
      ground (arith, count-drop_passed kind client w db.rates, count-count_one kind client w kept)

  -- The answers to requests at the times given, one after another.
  unfoldable pub answers : List ℕ → Db → List Bool
  answers [] db = []
  answers (now ∷ later) db = (ask now db).1 ∷ answers later (ask now db).0

  abbrev pub AllInWindow : ℕ → List ℕ → Type 0
  AllInWindow w [] = Unit
  AllInWindow w (now ∷ later) = (window_of now window_ms ≡ w) × AllInWindow w later

  abbrev left_in : ℕ → Db → ℕ
  left_in w db = limit - bucket_count kind client w db.rates

  ask-left :
      (w now : ℕ) (db : Db)
      → window_of now window_ms ≡ w
      → ((ask now db).1 ≡ ltb 0 (left_in w db)) × (left_in w (ask now db).0 ≡ left_in w db - 1)
  ask-left w now db e =
      subst
        (λ v.
          ((ask now db).1 ≡ ltb 0 (left_in v db)) × (left_in v (ask now db).0 ≡ left_in v db - 1))
        e (ground (arith, ask-answer now db), ground (arith, ask-used now db))

  -- Of the requests that one client makes in one window one after another, each begun when the one
  -- before has been answered, whatever the counters of other clients, kinds and windows hold, exactly as
  -- many of the first are let through as the limit leaves beside those counted before, and every later
  -- one is refused.
  pub answers-yes_then_no :
      (w : ℕ) (times : List ℕ) (db : Db)
      → AllInWindow w times
      → answers times db ≡ yes_then_no (limit - bucket_count kind client w db.rates) times
  unfolding answers yes_then_no
  answers-yes_then_no w [] db h = refl
  answers-yes_then_no w (now ∷ later) db (e, h) =
      let (answer, left) = ask-left w now db e in
      ap (◌∷◌ (ask now db).1) (answers-yes_then_no w later (ask now db).0 h)
      ∙ ap (λ n. (ask now db).1 ∷ yes_then_no n later) left
      ∙ ap (λ b. b ∷ yes_then_no (left_in w db - 1) later) answer
