-- ===== src/Store/RateLimit.antt =====
-- `checkRateLimit` of src/store.ts. A window is the minute in which its bucket starts. Its three
-- statements are awaited one by one: `check_rate_limit` runs them with no other request's between
-- them, and the steps of `RateStep` in any order.
pub mod Cap
pub mod Apart
pub mod Race
use gwsdb.Prelude.{
  ℕ, ◌+◌, ◌-◌, ◌<◌, ◌≡◌, ◌*◌, ◌/◌, Text, text_eq, Bool, true, false, not, ◌&&◌, List, [], ◌∷◌, ◌++◌,
  ltb, leb, ◌==◌, if◌then◌else◌, is_some, keep, find, or_else,
}
use gwsdb.Store.Schema.{RateLimitKind, probe, query, RateRow, Db}
use gwsdb.Store.Tables.{update}
use gwsdb.Store.Reads.{map_option}

unfoldable pub same_kind : RateLimitKind → RateLimitKind → Bool
same_kind probe probe = true
same_kind query query = true
same_kind _ _ = false

-- The row's kind and client are those given.
unfoldable pub is_client : RateLimitKind → Text → RateRow → Bool
unfolding same_kind
is_client kind client r = same_kind r.kind kind && text_eq r.client_ip client

-- The minute of `new Date(Math.floor(now / windowMs) * windowMs)`.
unfoldable pub window_of : ℕ → ℕ → ℕ
window_of now window_ms = now / window_ms * window_ms / 60_000

-- The DELETE of the windows that have passed.
unfoldable pub drop_passed : RateLimitKind → Text → ℕ → List RateRow → List RateRow
unfolding is_client
drop_passed kind client window rows =
    keep (λ r. not (is_client kind client r && ltb r.window window)) rows

-- The row of (kind, client, window).
unfoldable pub is_bucket : RateLimitKind → Text → ℕ → RateRow → Bool
unfolding is_client
is_bucket kind client window r = is_client kind client r && (r.window == window)

unfoldable pub bucket_count : RateLimitKind → Text → ℕ → List RateRow → ℕ
unfolding is_bucket
bucket_count kind client window rows =
    or_else (map_option (λ r. r.count) (find (is_bucket kind client window) rows)) 0

-- INSERT … ON CONFLICT DO UPDATE SET count = count + 1
unfoldable pub count_one : RateLimitKind → Text → ℕ → List RateRow → List RateRow
unfolding is_bucket update
count_one kind client window rows =
    if is_some (find (is_bucket kind client window) rows)
    then update (is_bucket kind client window) (λ r. record r { count = r.count + 1 }) rows
    else rows ++ record { kind = kind; client_ip = client; window = window; count = 1 } ∷ []

unfoldable pub check_rate_limit : RateLimitKind → Text → ℕ → ℕ → ℕ → Db → Db × Bool
unfolding window_of drop_passed bucket_count count_one
check_rate_limit kind client limit window_ms now db =
    let window = window_of now window_ms in
    let rows = drop_passed kind client window db.rates in
    if leb limit (bucket_count kind client window rows)
    then (record db { rates = rows }, false)
    else (record db { rates = count_one kind client window rows }, true)

-- The rows, how many requests of the client have passed the SELECT and not yet counted themselves, and
-- how many have been let through.
pub record Racing : Type 0 where
  pub rows : List RateRow
  pub waiting : ℕ
  pub passed : ℕ

-- One statement of one of the requests that one client makes in one window, or anything else that leaves
-- the client's counter of the window as it is. A request that is let through counts itself later.
pub data RateStep (kind : RateLimitKind) (client : Text) (limit window : ℕ) (s : Racing)
    : Racing → Type 0 where
  deletes :
      RateStep kind client limit window s
        (record s { rows = drop_passed kind client window s.rows })
  refuses :
      leb limit (bucket_count kind client window s.rows) ≡ true
      → RateStep kind client limit window s s
  passes :
      leb limit (bucket_count kind client window s.rows) ≡ false
      → RateStep kind client limit window s
          (record s { waiting = s.waiting + 1; passed = s.passed + 1 })
  counts :
      0 < s.waiting
      → RateStep kind client limit window s
          (record s { rows = count_one kind client window s.rows; waiting = s.waiting - 1 })
  elsewhere :
      (rows : List RateRow)
      → bucket_count kind client window rows ≡ bucket_count kind client window s.rows
      → RateStep kind client limit window s (record s { rows = rows })
