-- ===== src/Api/Probe.antt =====
-- POST /check (functions/check.ts) and POST /recheck/result (functions/recheck/result.ts): one probe
-- of one address, asked for by a visitor or sent by the scanning host. The probe server
-- enters as its answer, given by a function of the address; the gate on the AS reads and writes the AS
-- cache.
pub mod Gates
use gwsdb.Prelude.{
  ℕ, Text, codes, text_eq, Bool, true, false, not, Option, none, some, List, [], ◌∷◌, if◌then◌else◌,
}
use gwsdb.CheckRows.{CheckRow}
use gwsdb.IpAddr.{normalize_ip_address}
use gwsdb.Store.Schema.{probe, Db}
use gwsdb.Store.Writes.{save_recheck_result, update_pool_for_check}
use gwsdb.Store.Prune.{prune_check_history}
use gwsdb.Store.RateLimit.{check_rate_limit}
use gwsdb.Store.Caches.{AsnRow}
use gwsdb.Dns.Lookups.{Resolver}
use gwsdb.Dns.Asn.{AsnInfo}
use gwsdb.Dns.Caching.{AsnGate, lookup_failed, not_google, is_google, asn_gate, lookup_google_asn}

-- The three calls that both handlers make, in their order.
unfoldable pub record_probe : CheckRow → Db → Db
record_probe r db =
    prune_check_history (r.ip ∷ [])
      (update_pool_for_check r.ip r.ok r.rtt_ms r.checked_at r.scan_mode (save_recheck_result r db))

pub record ProbeResponse : Type 0 where
  pub ok : Bool
  pub rtt_ms : Option ℕ
  pub reason : Option Text
  pub detail : Option Text
  pub mixed : Bool

-- The probe proxy's answer: a refusal, no answer in time, or a result.
pub data ProbeAnswer : Type 0 where
  proxy_error unreachable : ProbeAnswer
  probed : ProbeResponse → ProbeAnswer

-- The replies of /check. `relayed` is a flapping probe; `recorded` also leaves a publish job.
pub data CheckReply : Type 0 where
  forbidden invalid_ip no_client_ip rate_limited asn_unverified not_google_asn : CheckReply
  probe_server_error probe_unreachable : CheckReply
  relayed recorded : ProbeResponse → CheckReply

abbrev pub rate_limit_per_minute : ℕ
rate_limit_per_minute = 10

abbrev pub default_scan_mode : Text
default_scan_mode = codes "SNI"

unfoldable pub probe_row : Text → ℕ → ProbeResponse → CheckRow
probe_row ip now r = record {
  ip = ip;
  ok = r.ok;
  rtt_ms = r.rtt_ms;
  reason = r.reason;
  detail = r.detail;
  checked_at = now;
  scan_mode = default_scan_mode;
}

-- From the probe's answer on.
unfoldable pub finish_check : Text → ℕ → ProbeAnswer → Db → Db × CheckReply
unfolding record_probe probe_row
finish_check ip now proxy_error db = (db, probe_server_error)
finish_check ip now unreachable db = (db, probe_unreachable)
finish_check ip now (probed r) db =
    if r.mixed then (db, relayed r) else (record_probe (probe_row ip now r) db, recorded r)

-- From the gate on the AS on.
unfoldable pub gated_check : Text → ℕ → AsnGate → ProbeAnswer → Db → Db × CheckReply
unfolding finish_check
gated_check ip now lookup_failed answer db = (db, asn_unverified)
gated_check ip now not_google answer db = (db, not_google_asn)
gated_check ip now is_google answer db = finish_check ip now answer db

-- The AS cache that a look-up leaves; one that throws has written nothing.
unfoldable pub kept_asns : Option (List AsnRow × (AsnInfo × Bool)) → List AsnRow → List AsnRow
kept_asns none asns = asns
kept_asns (some found) asns = found.0

-- From the rate limit on: the database, its AS cache, and the reply.
unfoldable pub limited_check :
    Text
    → ℕ
    → Option (List AsnRow × (AsnInfo × Bool))
    → ProbeAnswer
    → List AsnRow
    → Db × Bool
    → (Db × List AsnRow) × CheckReply
unfolding gated_check asn_gate kept_asns
limited_check ip now found answer asns (db, false) = ((db, asns), rate_limited)
limited_check ip now found answer asns (db, true) =
    let done = gated_check ip now (asn_gate found) answer db in
    ((done.0, kept_asns found asns), done.1)

-- The clock at the rate limit, at the read of the AS cache, at the making of its entry, and after the
-- probe.
pub record CheckTimes : Type 0 where
  pub asked : ℕ
  pub looked : ℕ
  pub cached : ℕ
  pub probed_at : ℕ

-- `onRequestPost` of functions/check.ts. A missing `ip` parameter or client header is the empty text.
unfoldable pub handle_check :
    (Text → Option ℕ)
    → Resolver
    → (Text → ProbeAnswer)
    → CheckTimes
    → Text
    → Text
    → Text
    → Db
    → List AsnRow
    → (Db × List AsnRow) × CheckReply
unfolding limited_check normalize_ip_address check_rate_limit lookup_google_asn text_eq
handle_check number resolver server at country ip client db asns =
    if not (text_eq country (codes "CN"))
    then ((db, asns), forbidden)
    else elim (normalize_ip_address ip) [
      | none ↦ ((db, asns), invalid_ip)
      | some ip ↦
          if text_eq client []
          then ((db, asns), no_client_ip)
          else limited_check ip at.probed_at
              (lookup_google_asn number resolver at.looked at.cached ip asns) (server ip) asns
              (check_rate_limit probe client rate_limit_per_minute 60_000 at.asked db)
    ]

-- The time that the body gives: none or an empty text, a text that is no date, or a date.
pub data GivenTime : Type 0 where
  no_time invalid_time : GivenTime
  time : ℕ → GivenTime

-- The body of /recheck/result. A field of another type than the source expects is `none`.
pub record ResultBody : Type 0 where
  pub ip : Option Text
  pub ok : Option Bool
  pub rtt_ms : Option ℕ
  pub reason : Option Text
  pub detail : Option Text
  pub scan_mode : Text
  pub checked_at : GivenTime

pub data ResultReply : Type 0 where
  missing_fields invalid_result_ip invalid_checked_at saved : ResultReply

unfoldable pub result_row : Text → Bool → ℕ → ResultBody → CheckRow
result_row ip ok at b = record {
  ip = ip;
  ok = ok;
  rtt_ms = b.rtt_ms;
  reason = b.reason;
  detail = b.detail;
  checked_at = at;
  scan_mode = b.scan_mode;
}

-- Once the required fields are there.
unfoldable pub save_result : Text → Bool → GivenTime → ResultBody → Db → Db × ResultReply
unfolding record_probe result_row normalize_ip_address
save_result ip ok at b db = elim (normalize_ip_address ip) [
  | none ↦ (db, invalid_result_ip)
  | some ip ↦ elim at [
    | no_time ↦ (db, missing_fields)
    | invalid_time ↦ (db, invalid_checked_at)
    | time t ↦ (record_probe (result_row ip ok t b) db, saved)
  ]
]

abbrev pub has_time : GivenTime → Bool
has_time no_time = false
has_time _ = true

-- `onRequestPost` of functions/recheck/result.ts, after the bearer check and the JSON parsing.
unfoldable pub handle_result : ResultBody → Db → Db × ResultReply
unfolding save_result
handle_result b db = elim b.ip [
  | none ↦ (db, missing_fields)
  | some ip ↦ elim b.ok [
    | none ↦ (db, missing_fields)
    | some ok ↦
        if not (has_time b.checked_at)
        then (db, missing_fields)
        else if text_eq ip []
        then (db, missing_fields)
        else save_result ip ok b.checked_at b db
  ]
]
