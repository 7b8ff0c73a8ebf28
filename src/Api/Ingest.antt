-- ===== src/Api/Ingest.antt =====
-- POST /ingest (functions/ingest.ts). The request has passed the bearer check, and its body has
-- been read as JSON of the types that the source asks for (`pruneIPs` is absent or holds texts); a
-- date is the number of milliseconds that `new Date` makes of its text.
pub mod Outcomes
pub mod Entry
use gwsdb.Prelude.{
  ℕ, Text, Bool, true, false, Option, none, some, List, [], ◌∷◌, map, if◌then◌else◌, length, ◌==◌,
  unique,
}
use gwsdb.CheckRows.{CheckRow, coalesce_check_rows}
use gwsdb.IpAddr.{normalize_ip_address}
use gwsdb.Store.Schema.{Db}
use gwsdb.Store.Writes.{insert_check_rows, update_pool_batch, null_if_empty}
use gwsdb.Store.Prune.{prune_check_history}

pub record WireCheck : Type 0 where
  pub ip : Text
  pub ok : Bool
  pub rtt_ms : ℕ
  pub reason : Text
  pub detail : Text
  pub checked_at : ℕ
  pub scan_mode : Text

-- `checks` of the right form; a body that lacks it is `none`.
pub record IngestBody : Type 0 where
  pub checks : Option (List WireCheck)
  pub maintenance : Option Bool
  pub prune_ips : Option (List Text)

pub data Refusal : Type 0 where
  no_checks invalid_check_ip invalid_prune_ip : Refusal

-- The follow-up jobs that the response does not wait for.
pub data Job : Type 0 where
  prune_job : List Text → Job
  publish_job : Job
  ptr_refresh_job : Job

pub data IngestReply : Type 0 where
  refused : Refusal → IngestReply
  accepted : ℕ → List Job → IngestReply

-- Every address in its canonical text, or none if one is invalid.
unfoldable pub normalize_all : List Text → Option (List Text)
normalize_all [] = some []
normalize_all (ip ∷ ips) = elim (normalize_ip_address ip) [
  | none ↦ none
  | some t ↦ elim (normalize_all ips) [ none ↦ none | some ts ↦ some (t ∷ ts) ]
]

-- `c.OK ? c.RTTMs || null : null`
abbrev pub wire_rtt : Bool → ℕ → Option ℕ
wire_rtt false rtt = none
wire_rtt true rtt = if rtt == 0 then none else some rtt

unfoldable pub wire_row : Text → WireCheck → CheckRow
wire_row ip c = record {
  ip = ip;
  ok = c.ok;
  rtt_ms = wire_rtt c.ok c.rtt_ms;
  reason = null_if_empty (some c.reason);
  detail = null_if_empty (some c.detail);
  checked_at = c.checked_at;
  scan_mode = c.scan_mode;
}

unfoldable pub wire_rows : List WireCheck → Option (List CheckRow)
unfolding wire_row
wire_rows [] = some []
wire_rows (c ∷ cs) = elim (normalize_ip_address c.ip) [
  | none ↦ none
  | some ip ↦ elim (wire_rows cs) [ none ↦ none | some rows ↦ some (wire_row ip c ∷ rows) ]
]

-- `body.maintenance !== false`
abbrev pub wants_maintenance : Option Bool → Bool
wants_maintenance none = true
wants_maintenance (some b) = b

-- The follow-up work: what runs before the response, and the jobs that it leaves.
unfoldable pub follow_up : Bool → Option (List Text) → List CheckRow → Db → Db × List Job
follow_up maintenance none rows db = (
  db,
  prune_job (unique (map (λ r. r.ip) rows))
      ∷ (if maintenance then publish_job ∷ ptr_refresh_job ∷ [] else []),
)
follow_up true (some ips) rows db =
    (prune_check_history (unique ips) db, publish_job ∷ ptr_refresh_job ∷ [])
follow_up false (some ips) rows db = (db, [])

unfoldable pub store_rows : ℕ → List CheckRow → Db → Db
store_rows now rows db = update_pool_batch now rows (insert_check_rows now rows db)

-- `pruneIPs?.map(normalizeIPAddress)`; `none` outside means that one is invalid.
abbrev pub normalize_prune_ips : Option (List Text) → Option (Option (List Text))
normalize_prune_ips none = some none
normalize_prune_ips (some ips) = elim (normalize_all ips) [ none ↦ none | some ts ↦ some (some ts) ]

unfoldable pub accept : ℕ → Bool → Option (List Text) → List CheckRow → Db → Db × IngestReply
unfolding follow_up store_rows
accept now maintenance prune_ips rows db =
    let followed = follow_up maintenance prune_ips rows (store_rows now rows db) in
    (followed.0, accepted (length rows) followed.1)

-- From the check of the addresses on.
unfoldable pub handle_checks : ℕ → IngestBody → List WireCheck → Db → Db × IngestReply
unfolding accept wire_rows normalize_all
handle_checks now body checks db = elim (wire_rows checks) [
  | none ↦ (db, refused invalid_check_ip)
  | some rows ↦ elim (normalize_prune_ips body.prune_ips) [
    | none ↦ (db, refused invalid_prune_ip)
    | some prune_ips ↦
        accept now (wants_maintenance body.maintenance) prune_ips (coalesce_check_rows rows) db
  ]
]

-- `handleIngest`
unfoldable pub handle_ingest : ℕ → IngestBody → Db → Db × IngestReply
unfolding handle_checks
handle_ingest now body db = elim body.checks [
  | none ↦ (db, refused no_checks)
  | some checks ↦ handle_checks now body checks db
]
