-- ===== src/Store/Schema.antt =====
-- The tables of migrations/*.sql that src/store.ts reads and writes, and its row types.
-- A nullable column is an `Option`; a DATETIME column holds the milliseconds since the epoch, whose
-- order is that of the ISO texts that the program stores.
use gwsdb.Prelude.{ℕ, Text, Bool, Option, List}

-- A row of `ip_checks`.
pub record Check : Type 0 where
  pub id : ℕ
  pub ip : Text
  pub ok : Bool
  pub rtt_ms : Option ℕ
  pub reason : Option Text
  pub detail : Option Text
  pub checked_at : ℕ
  pub scan_mode : Text

-- A row of `ip_pool`.
pub record PoolRow : Type 0 where
  pub ip : Text
  pub is_ipv6 : Bool
  pub scan_mode : Option Text
  pub first_seen : Option ℕ
  pub last_seen : Option ℕ
  pub last_rtt_ms : Option ℕ
  pub times_seen : ℕ
  pub last_checked_at : Option ℕ
  pub last_check_ok : Option Bool
  pub ptr_checked_at : Option ℕ
  pub revision : ℕ
  pub history_count : ℕ

-- A row of `ptr_cache`.
pub record PtrRow : Type 0 where
  pub ip : Text
  pub ptr_hostname : Option Text
  pub lookup_ok : Bool
  pub ttl_seconds : ℕ
  pub checked_at : ℕ

-- "probe" and "query".
pub data RateLimitKind : Type 0 where
  probe query : RateLimitKind

-- A row of `check_rate_limit`. The window is the minute at which its bucket starts, which is what
-- the 16 characters of the stored text name.
pub record RateRow : Type 0 where
  pub kind : RateLimitKind
  pub client_ip : Text
  pub window : ℕ
  pub count : ℕ

-- The database. `version` and `reset_version` are the one row of `pool_revision`.
pub record Db : Type 0 where
  pub checks : List Check
  pub pool : List PoolRow
  pub version : ℕ
  pub reset_version : ℕ
  pub ptr_cache : List PtrRow
  pub rates : List RateRow
