-- ===== src/Dns/Caching/Gate.antt =====
-- The gate on the AS (src/dnsCache.ts, functions/check.ts).
use gwsdb.Prelude.{
  ℕ, Text, Bool, true, not, ◌||◌, Option, none, some, List, ◌≡◌, refl, ap, arith, All, All-In, any,
  text_eq, Option-cases, Bool-cases, inl, inr, or_else, [], ◌∷◌, subst,
}
use gwsdb.IpAddr.{IpRange, prefix_to_range}
use gwsdb.Store.Tables.Rows.{All-update, All-append_one}
use gwsdb.Store.Caches.{
  AsnCacheEntry, AsnRow, asn_entry, get_asn, save_asn, refresh_asn, new_asn_row, is_expired,
  or_null,
}
use gwsdb.Store.Caches.Prefixes.{get_asn-Longest}
use gwsdb.Dns.Lookups.{Resolver}
use gwsdb.Dns.Asn.{AsnInfo, AsnLookup, lookup_asn}
use gwsdb.Dns.Caching.{
  is_google_name, is_google_asn, fresh_asn, info_of, keep_google, lookup_google_asn, asn_gate,
}
use gwsdb.Dns.Caching.{is_google}

-- A cached row of an AS of Google's.
abbrev pub IsGoogleRow : AsnRow → Type 0
IsGoogleRow r = (is_google_name (or_else r.as_name []) ≡ true) × (r.lookup_ok ≡ true)

abbrev IsGoogleEntry : AsnCacheEntry → Type 0
IsGoogleEntry e = (is_google_name e.as_name ≡ true) × (e.lookup_ok ≡ true)

named_back : (t : Text) → or_else (or_null t) [] ≡ t
named_back [] = refl
named_back (c ∷ s) = refl

refresh_asn-IsGoogleRow :
    (e : AsnCacheEntry) (r : AsnRow) → IsGoogleEntry e → IsGoogleRow (refresh_asn e r)
unfolding refresh_asn
refresh_asn-IsGoogleRow e r h = (rw (named_back e.as_name) h.0, h.1)

new_asn_row-IsGoogleRow :
    (e : AsnCacheEntry) (range : IpRange) → IsGoogleEntry e → IsGoogleRow (new_asn_row e range)
unfolding new_asn_row
new_asn_row-IsGoogleRow e range h = (rw (named_back e.as_name) h.0, h.1)

save_asn-IsGoogleRow :
    (number : Text → Option ℕ) (e : AsnCacheEntry) (asns : List AsnRow)
    → IsGoogleEntry e
    → All IsGoogleRow asns
    → All IsGoogleRow (save_asn number e asns)
unfolding save_asn
save_asn-IsGoogleRow number e asns h all = elim (Option-cases (prefix_to_range number e.prefix)) [
  | inl invalid ↦ rw (invalid, save_asn) all
  | inr (range, parsed) ↦ elim (Bool-cases (any (λ r. text_eq r.prefix e.prefix) asns)) [
    | inl there ↦
        rw (parsed, save_asn, there)
          (All-update IsGoogleRow (λ r. text_eq r.prefix e.prefix) (refresh_asn e) asns
            (λ r was. refresh_asn-IsGoogleRow e r h) all)
    | inr fresh ↦
        rw (parsed, save_asn, fresh)
          (All-append_one IsGoogleRow asns _ all (new_asn_row-IsGoogleRow e range h))
  ]
]

keep_google-IsGoogleRow :
    (number : Text → Option ℕ) (now : ℕ) (ip : Text) (found : AsnLookup) (asns : List AsnRow)
    → All IsGoogleRow asns
    → All IsGoogleRow (keep_google number now ip found asns).0
unfolding keep_google is_google_asn fresh_asn
keep_google-IsGoogleRow number now ip found asns all =
    elim (Bool-cases (not found.ok || not (is_google_asn found.info))) [
      | inl dropped ↦ rw dropped all
      | inr kept ↦ rw kept (
          save_asn-IsGoogleRow number (fresh_asn now ip found) asns (ground arith, ground arith)
            all)
    ]

entry-IsGoogleRow :
    (now : ℕ) (ip : Text) (r : AsnRow) (e : AsnCacheEntry)
    → IsGoogleRow r
    → asn_entry now ip r ≡ some e
    → IsGoogleEntry e
unfolding asn_entry
entry-IsGoogleRow now ip r e h made =
    elim (Bool-cases (is_expired now r.checked_at r.ttl_seconds)) [
      | inl over ↦ absurd (ground arith)
      | inr live ↦
          (subst (λ (n : Text). is_google_name n ≡ true) (ground arith) h.0, ground (arith, h.1))
    ]

-- If every row of the AS cache is of an AS of Google's, then so it is after a look-up for any
-- address, whatever the resolver answers.
pub lookup_google_asn-IsGoogleRow :
    (number : Text → Option ℕ) (resolver : Resolver) (asked now : ℕ) (ip : Text)
    (asns kept : List AsnRow) (answer : AsnInfo × Bool)
    → All IsGoogleRow asns
    → lookup_google_asn number resolver asked now ip asns ≡ some (kept, answer)
    → All IsGoogleRow kept
unfolding lookup_google_asn
lookup_google_asn-IsGoogleRow number resolver asked now ip asns kept answer all done =
    go (get_asn asked ip asns) (lookup_asn resolver ip) done
  where
    result : Option AsnCacheEntry → Option AsnLookup → Option (List AsnRow × (AsnInfo × Bool))
    result cached looked = elim cached [
      | some e ↦ some (asns, (info_of e, e.lookup_ok))
      | none ↦ elim looked [
        | none ↦ none
        | some found ↦ some (keep_google number now ip found asns)
      ]
    ]

    rows : Option (List AsnRow × (AsnInfo × Bool)) → List AsnRow
    rows none = kept
    rows (some r) = r.0

    go :
        (cached : Option AsnCacheEntry) (looked : Option AsnLookup)
        → result cached looked ≡ some (kept, answer)
        → All IsGoogleRow kept
    go (some e) looked h = subst (All IsGoogleRow) (ap rows h) all
    go none none h = absurd (ground arith)
    go none (some found) h =
        subst (All IsGoogleRow) (ap rows h) (keep_google-IsGoogleRow number now ip found asns all)

-- If every row of the AS cache is of an AS of Google's, then an address that the cache answers for
-- passes the gate, whatever the resolver would answer.
asn_gate-cached :
    (number : Text → Option ℕ) (resolver : Resolver) (asked now : ℕ) (ip : Text)
    (asns : List AsnRow) (e : AsnCacheEntry)
    → All IsGoogleRow asns
    → get_asn asked ip asns ≡ some e
    → asn_gate (lookup_google_asn number resolver asked now ip asns) ≡ is_google
unfolding lookup_google_asn asn_gate is_google_asn info_of
asn_gate-cached number resolver asked now ip asns e all hit =
    let (r, point, at, there, passes, longest, made, live) = get_asn-Longest asked ip asns e hit in
    let (google, ok) = entry-IsGoogleRow asked ip r e (All-In IsGoogleRow r asns there all) made in
    rw (hit, lookup_google_asn, google, ok)
