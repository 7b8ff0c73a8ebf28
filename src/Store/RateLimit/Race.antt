-- ===== src/Store/RateLimit/Race.antt =====
-- Requests of one client whose statements interleave (`checkRateLimit` of src/store.ts).
use gwsdb.Prelude.{ℕ, ◌+◌, ◌-◌, ◌≤◌, ◌≡◌, Text, List, arith}
use gwsdb.Store.Schema.{RateLimitKind, RateRow}
use gwsdb.Store.RateLimit.{
  Racing, RateStep, deletes, refuses, passes, counts, elsewhere, bucket_count,
}
use gwsdb.Store.RateLimit.Cap.{count-drop_passed, count-count_one}

-- Any sequence of steps along which at most `peak` requests have passed the SELECT and not counted
-- themselves.
pub data Race (kind : RateLimitKind) (client : Text) (limit window peak : ℕ) (s : Racing)
    : Racing → Type 0 where
  begun : Race kind client limit window peak s s
  then_step :
      {t u : Racing}
      → Race kind client limit window peak s t
      → RateStep kind client limit window t u
      → u.waiting ≤ peak
      → Race kind client limit window peak s u

abbrev pub quiet : List RateRow → Racing
quiet rows = record { rows = rows; waiting = 0; passed = 0 }

module _ (kind : RateLimitKind) (client : Text) (limit window peak used : ℕ) where
  abbrev count_of : List RateRow → ℕ
  count_of rows = bucket_count kind client window rows

  -- Every request that was let through is counted or waits to be, and none passed at the limit.
  record IsBounded (s : Racing) : Type 0 where
    accounted : count_of s.rows + s.waiting ≡ used + s.passed
    within : s.passed ≤ (limit - used) + (peak - 1)
    counted : used ≤ count_of s.rows

  step-IsBounded :
      {s t : Racing}
      → RateStep kind client limit window s t
      → t.waiting ≤ peak
      → IsBounded s
      → IsBounded t
  step-IsBounded {s} deletes h b = record {
    accounted = omega (arith, count-drop_passed kind client window s.rows, b.accounted);
    within = b.within;
    counted = omega (arith, count-drop_passed kind client window s.rows, b.counted);
  }
  step-IsBounded (refuses full) h b = b
  step-IsBounded {s} (passes free) h b = record {
    accounted = omega (arith, b.accounted);
    within = ground (arith, b.accounted, b.counted, free, h);
    counted = b.counted;
  }
  step-IsBounded {s} (counts some_wait) h b = record {
    accounted = omega (arith, count-count_one kind client window s.rows, b.accounted, some_wait);
    within = b.within;
    counted = omega (arith, count-count_one kind client window s.rows, b.counted);
  }
  step-IsBounded (elsewhere rows same) h b = record {
    accounted = omega (arith, same, b.accounted);
    within = b.within;
    counted = omega (arith, same, b.counted);
  }

  Race-IsBounded :
      {s t : Racing} → Race kind client limit window peak s t → IsBounded s → IsBounded t
  Race-IsBounded begun b = b
  Race-IsBounded (then_step r step h) b = step-IsBounded step h (Race-IsBounded r b)

-- Of the requests that one client makes in one window, whose statements interleave in any order with each
-- other and with whatever leaves their counter as it is: if at no time more than `peak` of them have
-- passed the SELECT and not counted themselves, then at most `peak - 1` more are let through than the
-- limit leaves beside those counted before.
pub Race-passed :
    (kind : RateLimitKind) (client : Text) (limit window peak : ℕ) (rows : List RateRow)
    (t : Racing)
    → Race kind client limit window peak (quiet rows) t
    → t.passed ≤ (limit - bucket_count kind client window rows) + (peak - 1)
Race-passed kind client limit window peak rows t r =
    (Race-IsBounded kind client limit window peak (bucket_count kind client window rows) r
      (record { accounted = omega arith; within = omega arith; counted = omega arith })).within
