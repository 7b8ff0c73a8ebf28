-- ===== src/Tests/Fixtures.antt =====
-- A small database and the rows of a flush.
use gwsdb.Prelude.{ℕ, Text, codes, Option, true, false, none, some, []}
use gwsdb.CheckRows.{CheckRow}
use gwsdb.Store.Schema.{Db}
use gwsdb.Store.Caches.{AsnRow}
use gwsdb.IpAddr.Hex.{decimal_value}

abbrev pub noon : ℕ
noon = 1_800_000_000_000

abbrev pub google : Text
google = codes "8.8.8.8"

abbrev pub passed : Text → ℕ → CheckRow
passed ip at = record {
  ip = ip;
  ok = true;
  rtt_ms = some 40;
  reason = none;
  detail = none;
  checked_at = at;
  scan_mode = codes "SNI";
}

abbrev pub failed : Text → ℕ → CheckRow
failed ip at = record {
  ip = ip;
  ok = false;
  rtt_ms = none;
  reason = some (codes "scan:timeout");
  detail = none;
  checked_at = at;
  scan_mode = codes "SNI";
}

abbrev pub empty_db : Db
empty_db = record {
  checks = [];
  pool = [];
  version = 5;
  reset_version = 0;
  ptr_cache = [];
  rates = [];
}

-- `Number`, of digits.
abbrev pub number : Text → Option ℕ
number t = some (decimal_value t)

abbrev pub of_google : AsnRow
of_google = record {
  prefix = codes "8.8.8.0/24";
  is_ipv6 = false;
  range_start = 134744064;
  range_end = 134744319;
  prefix_len = 24;
  asn = some 15169;
  as_name = some (codes "GOOGLE, US");
  country = some (codes "US");
  lookup_ok = true;
  ttl_seconds = 3600;
  checked_at = noon;
}
