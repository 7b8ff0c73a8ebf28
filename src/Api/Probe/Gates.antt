-- ===== src/Api/Probe/Gates.antt =====
-- What a probe that is not recorded leaves, and that a recorded one is a history of transactions.
use gwsdb.Prelude.{
  ℕ, Text, codes, text_eq, Bool, true, false, Option, none, some, ◌⊎◌, List, [], ◌∷◌, ◌≡◌, refl,
  sym, ap, ◌∙◌, arith, Bool-cases, Option-cases, inl, inr,
}
use gwsdb.CheckRows.{CheckRow}
use gwsdb.IpAddr.{normalize_ip_address}
use gwsdb.Store.Schema.{RateLimitKind, RateRow, probe, Db}
use gwsdb.Store.RateLimit.{check_rate_limit}
use gwsdb.Store.Writes.{save_recheck_result, update_pool_for_check}
use gwsdb.Store.Sync.History.{Reach, here, Reach-trans}
use gwsdb.Store.Sync.Writers.{
  save_recheck_result-Reach, update_pool_for_check-Reach, prune_check_history-Reach,
}
use gwsdb.Store.Caches.{AsnRow}
use gwsdb.Dns.Lookups.{Resolver}
use gwsdb.Dns.Asn.{AsnInfo}
use gwsdb.Dns.Caching.{AsnGate, lookup_failed, not_google, is_google, asn_gate, lookup_google_asn}
use gwsdb.Api.Probe.{
  ProbeAnswer, CheckTimes, kept_asns, proxy_error, unreachable, probed, CheckReply, recorded,
  record_probe, finish_check, gated_check, limited_check, handle_check, rate_limit_per_minute,
  has_time, ResultBody, GivenTime, no_time, invalid_time, time, save_result, handle_result,
}

pub record_probe-Reach : (r : CheckRow) (s : Db) → Reach s (record_probe r s)
unfolding record_probe
record_probe-Reach r s =
    Reach-trans
      (Reach-trans (save_recheck_result-Reach r s) (
        update_pool_for_check-Reach r.ip r.ok r.rtt_ms r.checked_at r.scan_mode
          (save_recheck_result r s)))
      (prune_check_history-Reach (r.ip ∷ []) (
        update_pool_for_check r.ip r.ok r.rtt_ms r.checked_at r.scan_mode
          (save_recheck_result r s)))

-- All of the database but the counters of the rate limit.
abbrev with_rates : Db → List RateRow → Db
with_rates db rates = record db { rates = rates }

-- The reply stands for a probe that was saved.
abbrev pub is_recorded : CheckReply → Bool
is_recorded (recorded r) = true
is_recorded _ = false

check_rate_limit-rest :
    (kind : RateLimitKind) (client : Text) (limit window_ms now : ℕ) (db : Db)
    → (check_rate_limit kind client limit window_ms now db).0
      ≡ with_rates db (check_rate_limit kind client limit window_ms now db).0.rates
unfolding check_rate_limit
check_rate_limit-rest kind client limit window_ms now db = ground arith

finish_check-unrecorded :
    (ip : Text) (now : ℕ) (answer : ProbeAnswer) (db : Db)
    → is_recorded (finish_check ip now answer db).1 ≡ false
    → (finish_check ip now answer db).0 ≡ db
unfolding finish_check
finish_check-unrecorded ip now proxy_error db h = refl
finish_check-unrecorded ip now unreachable db h = refl
finish_check-unrecorded ip now (probed r) db h = ground arith

gated_check-unrecorded :
    (ip : Text) (now : ℕ) (gate : AsnGate) (answer : ProbeAnswer) (db : Db)
    → is_recorded (gated_check ip now gate answer db).1 ≡ false
    → (gated_check ip now gate answer db).0 ≡ db
unfolding gated_check
gated_check-unrecorded ip now lookup_failed answer db h = refl
gated_check-unrecorded ip now not_google answer db h = refl
gated_check-unrecorded ip now is_google answer db h = finish_check-unrecorded ip now answer db h

-- The AS cache is as it was, or what the look-up for the address makes of it.
abbrev pub IsCacheOf :
    (Text → Option ℕ) → Resolver → CheckTimes → Text → List AsnRow → List AsnRow → Type 0
IsCacheOf number resolver at ip asns after =
    (after ≡ asns)
    ⊎ ((t : Text) × (found : AsnInfo × Bool) × (normalize_ip_address ip ≡ some t)
        × (lookup_google_asn number resolver at.looked at.cached t asns ≡ some (after, found)))

-- Unless the reply stands for a saved probe, only the counters moved, and the AS cache.
abbrev KeepsUnlessRecorded : Db → (Db × List AsnRow) × CheckReply → Type 0
KeepsUnlessRecorded db r = is_recorded r.1 ≡ false → r.0.0 ≡ with_rates db r.0.0.rates

limited_check-unrecorded :
    (ip : Text) (now : ℕ) (looked : Option (List AsnRow × (AsnInfo × Bool))) (answer : ProbeAnswer)
    (asns : List AsnRow) (limited : Db × Bool)
    → is_recorded (limited_check ip now looked answer asns limited).1 ≡ false
    → (limited_check ip now looked answer asns limited).0.0 ≡ limited.0
unfolding limited_check
limited_check-unrecorded ip now looked answer asns (db, false) h = refl
limited_check-unrecorded ip now looked answer asns (db, true) h =
    gated_check-unrecorded ip now (asn_gate looked) answer db h

limited_check-keeps :
    (ip client : Text) (asked now : ℕ) (looked : Option (List AsnRow × (AsnInfo × Bool)))
    (answer : ProbeAnswer) (db : Db) (asns : List AsnRow)
    → KeepsUnlessRecorded db (
        limited_check ip now looked answer asns
          (check_rate_limit probe client rate_limit_per_minute 60_000 asked db))
limited_check-keeps ip client asked now looked answer db asns h =
    let limited = check_rate_limit probe client rate_limit_per_minute 60_000 asked db in
    let same = limited_check-unrecorded ip now looked answer asns limited h in
    same
    ∙ check_rate_limit-rest probe client rate_limit_per_minute 60_000 asked db
    ∙ ap (λ d. with_rates db d.rates) (sym same)

limited_check-asns :
    (ip : Text) (now : ℕ) (looked : Option (List AsnRow × (AsnInfo × Bool))) (answer : ProbeAnswer)
    (asns : List AsnRow) (limited : Db × Bool)
    → ((limited_check ip now looked answer asns limited).0.1 ≡ asns)
      ⊎ ((found : AsnInfo × Bool) × (looked
            ≡ some ((limited_check ip now looked answer asns limited).0.1, found)))
unfolding limited_check kept_asns
limited_check-asns ip now looked answer asns (db, false) = inl refl
limited_check-asns ip now none answer asns (db, true) = inl refl
limited_check-asns ip now (some (kept, found)) answer asns (db, true) = inr (found, refl)

handle_check-rates :
    (number : Text → Option ℕ) (resolver : Resolver) (server : Text → ProbeAnswer) (at : CheckTimes)
    (country ip client : Text) (db : Db) (asns : List AsnRow)
    → KeepsUnlessRecorded db (handle_check number resolver server at country ip client db asns)
unfolding handle_check
handle_check-rates number resolver server at country ip client db asns =
    elim (Bool-cases (text_eq country (codes "CN"))) [
      | inr e ↦ rw e (λ h. refl)
      | inl e ↦ elim (Option-cases (normalize_ip_address ip)) [
        | inl n ↦ rw (e, n) (λ h. refl)
        | inr (t, n) ↦ elim (Bool-cases (text_eq client [])) [
          | inl c ↦ rw (e, n, c) (λ h. refl)
          | inr c ↦
              rw (e, n, c)
                (limited_check-keeps t client at.asked at.probed_at
                  (lookup_google_asn number resolver at.looked at.cached t asns) (server t) db asns)
        ]
      ]
    ]

handle_check-asns :
    (number : Text → Option ℕ) (resolver : Resolver) (server : Text → ProbeAnswer) (at : CheckTimes)
    (country ip client : Text) (db : Db) (asns : List AsnRow)
    → IsCacheOf number resolver at ip asns
        (handle_check number resolver server at country ip client db asns).0.1
unfolding handle_check
handle_check-asns number resolver server at country ip client db asns =
    elim (Bool-cases (text_eq country (codes "CN"))) [
      | inr e ↦ inl (rw e refl)
      | inl e ↦ elim (Option-cases (normalize_ip_address ip)) [
        | inl n ↦ inl (rw (e, n) refl)
        | inr (t, n) ↦ elim (Bool-cases (text_eq client [])) [
          | inl c ↦ inl (rw (e, n, c) refl)
          | inr c ↦
              elim (limited_check-asns t at.probed_at
                (lookup_google_asn number resolver at.looked at.cached t asns) (server t) asns
                (check_rate_limit probe client rate_limit_per_minute 60_000 at.asked db)) [
                  | inl same ↦ inl (rw (e, n, c) same)
                  | inr (found, kept) ↦ inr (t, found, n, rw (e, n, c) kept)
                ]
        ]
      ]
    ]

-- A probe that is not recorded, because the visitor is not in China, the address or the client is
-- not known, the limit is reached, the gate fails, the probe server fails or its attempts disagree,
-- changes nothing in the database but the counters of the rate limit and the AS cache; and the AS cache
-- is as it was, or as the look-up for the address leaves it.
pub handle_check-unrecorded :
    (number : Text → Option ℕ) (resolver : Resolver) (server : Text → ProbeAnswer) (at : CheckTimes)
    (country ip client : Text) (db : Db) (asns : List AsnRow)
    → is_recorded (handle_check number resolver server at country ip client db asns).1 ≡ false
    → ((handle_check number resolver server at country ip client db asns).0.0 ≡ record db {
      rates = (handle_check number resolver server at country ip client db asns).0.0.rates;
    })
      × IsCacheOf number resolver at ip asns
          (handle_check number resolver server at country ip client db asns).0.1
handle_check-unrecorded number resolver server at country ip client db asns h = (
  handle_check-rates number resolver server at country ip client db asns h,
  handle_check-asns number resolver server at country ip client db asns,
)

save_result-Reach :
    (ip : Text) (ok : Bool) (at : GivenTime) (b : ResultBody) (s : Db)
    → Reach s (save_result ip ok at b s).0
unfolding save_result
save_result-Reach ip ok at b s = elim (Option-cases (normalize_ip_address ip)) [
  | inl n ↦ rw (n, save_result) here
  | inr (t, n) ↦ elim at as (λ a. Reach s (save_result ip ok a b s).0) [
    | no_time ↦ rw (n, save_result) here
    | invalid_time ↦ rw (n, save_result) here
    | time u ↦ rw (n, save_result) (record_probe-Reach _ s)
  ]
]

-- A result that the scanning host sends takes the database through a history of the store's own
-- transactions, whatever the body is.
pub handle_result-Reach : (b : ResultBody) (s : Db) → Reach s (handle_result b s).0
unfolding handle_result
handle_result-Reach b s = elim (Option-cases b.ip) [
  | inl e ↦ rw e here
  | inr (ip, e) ↦ elim (Option-cases b.ok) [
    | inl f ↦ rw (e, f) here
    | inr (ok, f) ↦ elim (Bool-cases (has_time b.checked_at)) [
      | inr g ↦ rw (e, f, g) here
      | inl g ↦ elim (Bool-cases (text_eq ip [])) [
        | inl h ↦ rw (e, f, g, h) here
        | inr h ↦ rw (e, f, g, h) (save_result-Reach ip ok b.checked_at b s)
      ]
    ]
  ]
]
