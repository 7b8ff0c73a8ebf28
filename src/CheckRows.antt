-- ===== src/CheckRows.antt =====
-- src/checkRows.ts: the rows that a flush of the scanner submits, and their coalescing.
-- A `Date` is its number of milliseconds since the epoch; invalid dates are not modelled.
pub mod Filed
pub mod Coalesce
pub mod Count
pub mod Successes
use gwsdb.Prelude.{
  ℕ, suc, Text, text_eq, Bool, true, ◌&&◌, Option, none, some, List, [], ◌∷◌, leb, ◌==◌,
  if◌then◌else◌,
}

pub record CheckRow : Type 0 where
  pub ip : Text
  pub ok : Bool
  pub rtt_ms : Option ℕ
  pub reason : Option Text
  pub detail : Option Text
  pub checked_at : ℕ
  pub scan_mode : Text

-- An object of the array, told apart from the others by its position: `!==` compares positions.
pub record Seen : Type 0 where
  pub position : ℕ
  pub row : CheckRow

-- The value of `byIP` at one key.
pub record Latest : Type 0 where
  pub latest : Seen
  pub latest_success : Option Seen

-- `byIP`, in insertion order.
abbrev pub ByIp : Type 0
ByIp = List (Text × Latest)

unfoldable pub first_state : Seen → Latest
first_state s = record { latest = s; latest_success = if s.row.ok then some s else none }

-- `!state.latestSuccess || row.checkedAt >= state.latestSuccess.checkedAt`
unfoldable pub newer_than : Seen → Option Seen → Bool
newer_than s none = true
newer_than s (some t) = leb t.row.checked_at s.row.checked_at

unfoldable pub next_state : Latest → Seen → Latest
unfolding newer_than
next_state e s = record {
  latest = if leb e.latest.row.checked_at s.row.checked_at then s else e.latest;
  latest_success = if s.row.ok && newer_than s e.latest_success then some s else e.latest_success;
}

-- One round of the first loop.
unfoldable pub visit : Seen → ByIp → ByIp
unfolding first_state next_state text_eq
visit s [] = (s.row.ip, first_state s) ∷ []
visit s ((k, e) ∷ m) = if text_eq k s.row.ip then (k, next_state e s) ∷ m else (k, e) ∷ visit s m

unfoldable pub gather : ℕ → List CheckRow → ByIp → ByIp
unfolding visit
gather i [] m = m
gather i (row ∷ rows) m = gather (suc i) rows (visit (record { position = i; row = row }) m)

-- One round of the second loop.
unfoldable pub emit : Latest → List CheckRow → List CheckRow
emit e out = elim e.latest_success [
  | none ↦ e.latest.row ∷ out
  | some s ↦
      if s.position == e.latest.position then e.latest.row ∷ out else s.row ∷ e.latest.row ∷ out
]

unfoldable pub emit_all : ByIp → List CheckRow
unfolding emit
emit_all [] = []
emit_all ((k, e) ∷ m) = emit e (emit_all m)

unfoldable pub coalesce_check_rows : List CheckRow → List CheckRow
unfolding gather emit_all
coalesce_check_rows rows = emit_all (gather 0 rows [])
