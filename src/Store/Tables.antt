-- ===== src/Store/Tables.antt =====
-- What the statements of src/store.ts have in common: updates and look-ups by key, counts, and the
-- SQL comparisons, which fail on NULL.
pub mod Keys
pub mod Rows
pub mod Sorting
use gwsdb.Prelude.{
  ℕ, suc, Text, text_eq, Bool, false, ◌&&◌, Option, none, some, List, [], ◌∷◌, ◌++◌, ltb, ◌==◌,
  if◌then◌else◌, length, keep, any, find,
}
use gwsdb.CheckRows.{CheckRow}
use gwsdb.Store.Schema.{Check, PoolRow, PtrRow}

-- `UPDATE … SET f WHERE p`
unfoldable pub update : {A : Type 0} → (A → Bool) → (A → A) → List A → List A
update p f [] = []
update p f (x ∷ xs) = (if p x then f x else x) ∷ update p f xs

abbrev pub pool_row : Text → List PoolRow → Option PoolRow
pool_row ip = find (λ r. text_eq r.ip ip)

abbrev pub ptr_row : Text → List PtrRow → Option PtrRow
ptr_row ip = find (λ r. text_eq r.ip ip)

-- `a > b`, where either side may be NULL.
abbrev pub after : ℕ → Option ℕ → Bool
after a none = false
after a (some b) = ltb b a

abbrev pub before : Option ℕ → ℕ → Bool
before none b = false
before (some a) b = ltb a b

abbrev pub is_true : Option Bool → Bool
is_true none = false
is_true (some b) = b

-- `SELECT COUNT(*) FROM ip_checks WHERE ip = ?`
unfoldable pub count_checks : Text → List Check → ℕ
count_checks ip cs = length (keep (λ c. text_eq c.ip ip) cs)

-- `SELECT COUNT(*) FROM ip_checks WHERE ip = ? AND checked_at > ?`
unfoldable pub count_checks_after : Text → Option ℕ → List Check → ℕ
count_checks_after ip t cs = length (keep (λ c. text_eq c.ip ip && after c.checked_at t) cs)

-- `EXISTS (SELECT 1 FROM ip_checks WHERE ip = ? AND ok = 1)`
unfoldable pub has_success : Text → List Check → Bool
has_success ip cs = any (λ c. text_eq c.ip ip && c.ok) cs

-- The unique index of (ip, checked_at).
unfoldable pub has_check : Text → ℕ → List Check → Bool
has_check ip at cs = any (λ c. text_eq c.ip ip && (c.checked_at == at)) cs

-- The id of a new row: one above the largest (an INTEGER PRIMARY KEY with no AUTOINCREMENT).
unfoldable pub max_id : List Check → ℕ
max_id [] = 0
max_id (c ∷ cs) = let m = max_id cs in if ltb m c.id then c.id else m

unfoldable pub new_check : ℕ → CheckRow → Check
new_check id r = record {
  id = id;
  ip = r.ip;
  ok = r.ok;
  rtt_ms = r.rtt_ms;
  reason = r.reason;
  detail = r.detail;
  checked_at = r.checked_at;
  scan_mode = r.scan_mode;
}

-- `INSERT … ON CONFLICT(ip, checked_at) DO NOTHING`
unfoldable pub add_check : CheckRow → List Check → List Check
unfolding has_check max_id new_check
add_check r cs =
    if has_check r.ip r.checked_at cs then cs else cs ++ new_check (suc (max_id cs)) r ∷ []
