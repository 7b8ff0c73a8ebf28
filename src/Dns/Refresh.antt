-- ===== src/Dns/Refresh.antt =====
-- `pipelinePTRQueries` and `runPTRRefresh` (src/ptrRefresh.ts). The reads of the socket are a list:
-- each is the bytes that came, and the list ends where the stream does, or where the deadline falls.
pub mod Matching
pub mod Full
pub mod Pieces
use gwsdb.Prelude.{
  ℕ, zero, suc, ◌*◌, Text, text_eq, Bool, true, false, ◌||◌, Option, none, some, List, [], ◌∷◌,
  ◌++◌, map, ltb, ◌==◌, if◌then◌else◌, length, keep,
}
use gwsdb.Store.Schema.{Db}
use gwsdb.Store.Sql.{PtrCacheEntry}
use gwsdb.Store.Writes.{save_ptr_batch}
use gwsdb.Store.Publishing.{pending_ips_for_ptr_refresh}
use gwsdb.Dns.Names.{strip_dot, dedupe_sorted, min_ttl}
use gwsdb.Dns.Wire.{Bytes, DnsResponse, build_ptr_query, parse_message}
use gwsdb.Dns.Stream.{drain}

pub record Answer : Type 0 where
  pub rcode : ℕ
  pub hostnames : List Text
  pub ttl_seconds : ℕ

-- `results`, in insertion order.
abbrev pub Results : Type 0
Results = List (Text × Answer)

-- `results.set(ip, answer)`
unfoldable pub set_result : Text → Answer → Results → Results
set_result ip a [] = (ip, a) ∷ []
set_result ip a ((k, b) ∷ m) = if text_eq k ip then (k, a) ∷ m else (k, b) ∷ set_result ip a m

-- The bytes that the loop over `idToIP` writes: the ids count from 1. `none` where one of the
-- addresses has no reverse name, which throws before anything is read.
unfoldable pub queries : ℕ → List Text → Option Bytes
unfolding build_ptr_query
queries id [] = some []
queries id (ip ∷ ips) = elim (build_ptr_query id ip) [
  | none ↦ none
  | some q ↦ elim (queries (suc id) ips) [ none ↦ none | some qs ↦ some (q ++ qs) ]
]

-- `idToIP.get(id)`
unfoldable pub ip_of_id : List Text → ℕ → Option Text
ip_of_id [] id = none
ip_of_id (ip ∷ ips) zero = none
ip_of_id (ip ∷ ips) (suc zero) = some ip
ip_of_id (ip ∷ ips) (suc (suc id)) = ip_of_id ips (suc id)

unfoldable pub answer_of : DnsResponse → Answer
unfolding strip_dot dedupe_sorted min_ttl
answer_of r = record {
  rcode = r.rcode;
  hostnames = dedupe_sorted (map (λ a. strip_dot a.content) (keep (λ a. a.type == 12) r.answers));
  ttl_seconds = min_ttl 0 (map (λ a. a.ttl) r.answers);
}

-- One message: a malformed one and a stray id are passed over.
unfoldable pub note_message : List Text → Bytes → Results → Results
unfolding parse_message ip_of_id answer_of set_result
note_message ips msg results = elim (parse_message msg) [
  | none ↦ results
  | some r ↦ elim (ip_of_id ips r.id) [
    | none ↦ results
    | some ip ↦ set_result ip (answer_of r) results
  ]
]

unfoldable pub note_messages : List Text → List Bytes → Results → Results
unfolding note_message
note_messages ips [] results = results
note_messages ips (m ∷ ms) results = note_messages ips ms (note_message ips m results)

-- The outer loop: it reads while a query is unanswered.
unfoldable pub read_answers_from : List Text → Bytes → List Bytes → Results → Results
unfolding note_messages drain
read_answers_from ips buf [] results = results
read_answers_from ips buf (value ∷ values) results =
    let (msgs, left) = drain (buf ++ value) in
    let more = read_answers_from ips left values (note_messages ips msgs results) in
    if ltb (length results) (length ips) then more else results

-- `pipelinePTRQueries`, given what the socket will answer to the bytes written.
unfoldable pub pipeline_ptr_queries : (Bytes → List Bytes) → List Text → Option Results
unfolding queries read_answers_from
pipeline_ptr_queries socket ips = elim (queries 1 ips) [
  | none ↦ none
  | some written ↦ some (read_answers_from ips [] (socket written) [])
]

abbrev pub batch_limit : ℕ
batch_limit = 500

abbrev pub min_cache_ttl_seconds : ℕ
min_cache_ttl_seconds = 60 * 60

-- `Math.max(ttl, MIN_CACHE_TTL_SECONDS)`
unfoldable pub clamp_ttl : ℕ → ℕ
clamp_ttl ttl = if ltb ttl min_cache_ttl_seconds then min_cache_ttl_seconds else ttl

abbrev pub is_nonempty : List Text → Bool
is_nonempty [] = false
is_nonempty (h ∷ hs) = true

-- `r.rcode !== 0 && r.rcode !== 3`, negated.
unfoldable pub is_definitive : Answer → Bool
is_definitive a = (a.rcode == 0) || (a.rcode == 3)

unfoldable pub cache_entry : ℕ → Text × Answer → PtrCacheEntry
unfolding clamp_ttl
cache_entry now (ip, a) = record {
  ip = ip;
  ptr_hostnames = a.hostnames;
  lookup_ok = is_nonempty a.hostnames;
  ttl_seconds = clamp_ttl a.ttl_seconds;
  checked_at = now;
}

unfoldable pub cache_entries : ℕ → Results → List PtrCacheEntry
unfolding cache_entry is_definitive
cache_entries now results =
    map (cache_entry now) (keep (λ (p : Text × Answer). is_definitive p.1) results)

pub record RefreshCounts : Type 0 where
  pub queried : ℕ
  pub answered : ℕ
  pub cached : ℕ

unfoldable pub finish_refresh : ℕ → List Text → Option Results → Db → Option (Db × RefreshCounts)
unfolding cache_entries
finish_refresh now ips none db = none
finish_refresh now ips (some results) db =
    let entries = cache_entries now results in
    some (
      save_ptr_batch entries db,
      record { queried = length ips; answered = length results; cached = length entries },
    )

-- `runPTRRefresh`; `now` is the clock when the answers are in, `started` when it begins.
unfoldable pub run_ptr_refresh : (Bytes → List Bytes) → ℕ → ℕ → Db → Option (Db × RefreshCounts)
unfolding pending_ips_for_ptr_refresh pipeline_ptr_queries finish_refresh
run_ptr_refresh socket started now db = elim (pending_ips_for_ptr_refresh db batch_limit started) [
  | [] ↦ some (db, record { queried = 0; answered = 0; cached = 0 })
  | ip ∷ ips ↦ finish_refresh now (ip ∷ ips) (pipeline_ptr_queries socket (ip ∷ ips)) db
]
