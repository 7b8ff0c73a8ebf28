-- ===== src/PtrResolve.antt =====
-- The browser's own PTR look-ups (public/static/ptrResolve.js): its cache, and the queue of which at
-- most 24 look-ups run at a time. The answer of DNS over HTTPS is a parameter, `none` where the
-- request or its body fails. The browser's storage of the cache is left out: it is a copy.
pub mod Queue
use gwsdb.Prelude.{
  ℕ, suc, ◌+◌, ◌-◌, ◌*◌, Text, codes, text_eq, split, Bool, true, false, not, ◌&&◌, ◌||◌, Option,
  none, some, List, [], ◌∷◌, ◌++◌, map, ltb, leb, ◌==◌, if◌then◌else◌, length, keep, any, every,
  replicate, find, concat,
}
use gwsdb.IpAddr.Hex.{pad_start, lower, is_hex_digit}
use gwsdb.Dns.Names.{
  strip_dot, is_filled, dedupe_sorted, reverse_nibbles_dotted, reverse_ipv4, min_ttl,
}
use gwsdb.Dns.Lookups.{DohAnswer, type_ptr}

abbrev pub concurrency : ℕ
concurrency = 24

abbrev pub min_ttl_seconds : ℕ
min_ttl_seconds = 60 * 60

pub record Resolved : Type 0 where
  pub hostnames : List Text
  pub ok : Bool
  pub ttl_seconds : ℕ

unfoldable pub unresolved : Resolved
unresolved = record { hostnames = []; ok = false; ttl_seconds = 0 }

-- The loop over the answers in `resolveLive`.
unfoldable pub resolved : List DohAnswer → Resolved
unfolding strip_dot dedupe_sorted min_ttl
resolved answers =
    let named = keep (λ a. (a.type == type_ptr) && is_filled (strip_dot a.data_)) answers in
    let deduped = dedupe_sorted (map (λ a. strip_dot a.data_) named) in
    record {
      hostnames = deduped;
      ok = ltb 0 (length deduped);
      ttl_seconds = min_ttl 0 (map (λ a. a.ttl) named);
    }

-- `resolveLive`, given the name of the address, if it has one, and what the request comes to.
unfoldable pub resolve_live : (Text → Option (List DohAnswer)) → Option Text → Resolved
unfolding unresolved resolved
resolve_live doh none = unresolved
resolve_live doh (some name) = elim (doh name) [ none ↦ unresolved | some found ↦ resolved found ]

-- An entry of the cache, with the time at which it expires.
pub record Cached : Type 0 where
  pub ip : Text
  pub hostnames : List Text
  pub ok : Bool
  pub exp : ℕ

-- The page's state: the cache, how many look-ups run, and those that wait.
pub record Jobs : Type 0 where
  pub cache : List Cached
  pub active : ℕ
  pub queue : List Text

-- `cached && cached.exp > Date.now()`
unfoldable pub live_entry : ℕ → Text → List Cached → Option Cached
unfolding text_eq
live_entry now ip cache = elim (find (λ c. text_eq c.ip ip) cache) [
  | none ↦ none
  | some c ↦ if ltb now c.exp then some c else none
]

-- The loop of `pump` over the queue: what runs then, what waits, and what has been started.
unfoldable pub pump : ℕ → List Text → ℕ × (List Text × List Text)
pump active [] = (active, ([], []))
pump active (ip ∷ queue) =
    let more = pump (suc active) queue in
    if ltb active concurrency
    then (more.0, (more.1.0, ip ∷ more.1.1))
    else (active, (ip ∷ queue, []))

-- What happens on the page: `resolvePTR` is called, a look-up ends, or the cache is written.
pub data Event : Type 0 where
  asked : ℕ → Text → Event
  ended : ℕ → Text → Resolved → Event
  written : ℕ → Event

unfoldable pub pumped : List Cached → ℕ → List Text → Jobs × List Text
unfolding pump
pumped cache active queue =
    let p = pump active queue in (record { cache = cache; active = p.0; queue = p.1.0 }, p.1.1)

-- `cache[item.ip] = …`
unfoldable pub put_cached : ℕ → Text → Resolved → List Cached → List Cached
unfolding text_eq
put_cached now ip r cache =
    let ttl = if ltb r.ttl_seconds min_ttl_seconds then min_ttl_seconds else r.ttl_seconds in
    record { ip = ip; hostnames = r.hostnames; ok = r.ok; exp = now + ttl * 1000 }
    ∷ keep (λ c. not (text_eq c.ip ip)) cache

-- One event: the state after it, and the addresses whose look-ups start.
unfoldable pub step : Event → Jobs → Jobs × List Text
unfolding live_entry pumped put_cached
step (asked now ip) jobs = elim (live_entry now ip jobs.cache) [
  | some hit ↦ (jobs, [])
  | none ↦ pumped jobs.cache jobs.active (jobs.queue ++ ip ∷ [])
]
step (ended now ip r) jobs = pumped (put_cached now ip r jobs.cache) (jobs.active - 1) jobs.queue
step (written now) jobs = (record jobs { cache = keep (λ c. ltb now c.exp) jobs.cache }, [])

-- The addresses that an event asks to be looked up.
unfoldable pub wanted : Event → Jobs → List Text
unfolding live_entry
wanted (asked now ip) jobs = elim (live_entry now ip jobs.cache) [ some hit ↦ [] | none ↦ ip ∷ [] ]
wanted (ended now ip r) jobs = []
wanted (written now) jobs = []

-- `withoutZone`
unfoldable pub without_zone : Text → Text
without_zone [] = []
without_zone (c ∷ s) = let rest = without_zone s in if c == b'%' then [] else c ∷ rest

-- The texts before and after the first "::".
unfoldable pub cut_gap : Text → Option (Text × Text)
cut_gap [] = none
cut_gap (c ∷ []) = none
cut_gap (c ∷ d ∷ s) =
    let rest = cut_gap (d ∷ s) in
    if (c == b':') && (d == b':')
    then some ([], s)
    else elim rest [ none ↦ none | some (head, tail) ↦ some (c ∷ head, tail) ]

-- `part ? part.split(":") : []`
unfoldable pub parts_of : Text → List Text
unfolding split
parts_of [] = []
parts_of (c ∷ s) = split (codes ":") (c ∷ s)

-- The eight groups, if there are eight.
unfoldable pub groups_of : Option (Text × Text) → Text → Option (List Text)
unfolding parts_of
groups_of none whole =
    let groups = parts_of whole in if length groups == 8 then some groups else none
groups_of (some (head, tail)) whole =
    let heads = parts_of head in
    let tails = parts_of tail in
    let missing = 8 - (length heads + length tails) in
    if leb 8 (length heads + length tails)
    then none
    else some (heads ++ (replicate missing (codes "0") ++ tails))

-- The page's `expandIPv6`, whose groups may be empty.
unfoldable pub client_expand_ipv6 : Text → Option Text
unfolding without_zone cut_gap groups_of pad_start lower is_hex_digit
client_expand_ipv6 ip =
    let address = without_zone ip in
    elim (groups_of (cut_gap address) address) [
      | none ↦ none
      | some groups ↦
          if every (λ g. leb (length g) 4 && every is_hex_digit g) groups
          then some (concat (map (λ g. map lower (pad_start 4 b'0' g)) groups))
          else none
    ]

-- The page's `reverseName`.
unfoldable pub client_reverse_name : Text → Option Text
unfolding client_expand_ipv6 reverse_ipv4 reverse_nibbles_dotted split
client_reverse_name ip =
    if any (λ c. c == b'.') ip && not (any (λ c. c == b':') ip)
    then reverse_ipv4 (split (codes ".") ip)
    else elim (client_expand_ipv6 ip) [
      | none ↦ none
      | some full ↦ some (reverse_nibbles_dotted full ++ codes ".ip6.arpa")
    ]
