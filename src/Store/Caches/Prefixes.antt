-- ===== src/Store/Caches/Prefixes.antt =====
-- Longest-prefix match in the AS cache (src/store.ts).
use gwsdb.Prelude.{
  ℕ, ◌≤◌, ◌<◌, Text, text_eq, Bool, true, false, Option, none, some, List, [], ◌∷◌, ◌++◌, ◌+◌, ◌*◌,
  subst, ◌≡◌, refl, ap, ◌∙◌, arith, All, In, any, keep, Option-cases, Bool-cases, inl, inr, ltb,
  ◌==◌, or_else,
}
use gwsdb.IpAddr.{IpRange, ip_to_hex, prefix_to_range}
use gwsdb.Store.Caches.{
  AsnCacheEntry, AsnRow, covers, most_specific, asn_row, asn_entry, get_asn, save_asn, new_asn_row,
  is_expired, or_null, number_or_null,
}

abbrev is_ipv6_text : Text → Bool
is_ipv6_text ip = any (λ c. c == b':') ip

-- The rows that a test keeps have no longer prefix than `n`.
abbrev NoLonger : (AsnRow → Bool) → ℕ → List AsnRow → Type 0
NoLonger p n = All (λ q. p q ≡ true → q.prefix_len ≤ n)

NoLonger-weaken :
    (p : AsnRow → Bool) (m n : ℕ) (rows : List AsnRow)
    → m ≤ n
    → NoLonger p m rows
    → NoLonger p n rows
NoLonger-weaken p m n [] le h = tt
NoLonger-weaken p m n (q ∷ rows) le h =
    (λ e. omega (arith, h.0 e), NoLonger-weaken p m n rows le h.1)

module _ (p : AsnRow → Bool) where
  most_specific-none :
      (n : ℕ) (rows : List AsnRow) → most_specific (keep p rows) ≡ none → NoLonger p n rows
  unfolding most_specific
  most_specific-none n [] h = tt
  most_specific-none n (q ∷ rows) h = elim (Bool-cases (p q)) [
    | inl kept ↦ absurd (ground (arith, Option-cases (most_specific (keep p rows))))
    | inr dropped ↦ (λ e. absurd (ground arith), most_specific-none n rows (ground arith))
  ]

  -- The row that is kept has the longest prefix of those that pass.
  abbrev Longest : List AsnRow → AsnRow → Type 0
  Longest rows r = In r rows × (p r ≡ true) × NoLonger p r.prefix_len rows

  most_specific-Longest :
      (rows : List AsnRow) (r : AsnRow) → most_specific (keep p rows) ≡ some r → Longest rows r
  unfolding most_specific
  most_specific-Longest [] r h = absurd (ground arith)
  most_specific-Longest (q ∷ rows) r h = elim (Bool-cases (p q)) [
    | inr dropped ↦
        let (there, passes, longest) = most_specific-Longest rows r (ground arith) in
        (inr there, passes, (λ e. absurd (ground arith), longest))
    | inl kept ↦ elim (Option-cases (most_specific (keep p rows))) [
      | inl alone ↦
          let same : q ≡ r = ground arith in
          subst (λ (o : AsnRow). Longest (q ∷ rows) o) same
            (inl refl, kept, (λ e. omega arith, most_specific-none q.prefix_len rows alone))
      | inr (b, best) ↦
          let (there, passes, longest) = most_specific-Longest rows b best in
          elim (Bool-cases (ltb q.prefix_len b.prefix_len)) [
            | inl below ↦
                let same : b ≡ r = ground arith in
                subst (λ (o : AsnRow). Longest (q ∷ rows) o) same
                  (inr there, passes, (λ e. ground arith, longest))
            | inr above ↦
                let same : q ≡ r = ground arith in
                subst (λ (o : AsnRow). Longest (q ∷ rows) o) same
                  (
                    inl refl,
                    kept,
                    (
                      λ e. omega arith,
                      NoLonger-weaken p b.prefix_len q.prefix_len rows (ground arith) longest,
                    ),
                  )
          ]
    ]
  ]

  -- A row at the end that passes, and is longer than all others that do.
  most_specific-last :
      (rows : List AsnRow) (r : AsnRow)
      → p r ≡ true
      → All (λ q. p q ≡ true → q.prefix_len < r.prefix_len) rows
      → most_specific (keep p (rows ++ r ∷ [])) ≡ some r
  unfolding most_specific
  most_specific-last [] r h a = rw h
  most_specific-last (q ∷ rows) r h (shorter, a) = elim (Bool-cases (p q)) [
    | inr dropped ↦ rw dropped (most_specific-last rows r h a)
    | inl kept ↦
        let less : ltb q.prefix_len r.prefix_len ≡ true = ground (arith, shorter kept) in
        rw (kept, most_specific-last rows r h a, less)
  ]

asn_row-at :
    (ip : Text) (point : ℕ) (asns : List AsnRow)
    → ip_to_hex ip ≡ some point
    → asn_row ip asns ≡ most_specific (keep (covers (is_ipv6_text ip) point) asns)
unfolding asn_row
asn_row-at ip point asns at = rw (at, asn_row) refl

asn_row-Longest :
    (ip : Text) (asns : List AsnRow) (r : AsnRow)
    → asn_row ip asns ≡ some r
    → (point : ℕ) × (ip_to_hex ip ≡ some point) × Longest (covers (is_ipv6_text ip) point) asns r
unfolding asn_row
asn_row-Longest ip asns r h = elim (Option-cases (ip_to_hex ip)) [
  | inl invalid ↦ absurd (ground arith)
  | inr (point, e) ↦
      (point, e, most_specific-Longest (covers (is_ipv6_text ip) point) asns r (ground arith))
]

-- What `getASN` answers for an address comes from a cached row whose range holds the address, whose
-- TTL is not over, and whose prefix is as long as that of any cached row whose range holds it.
pub get_asn-Longest :
    (now : ℕ) (ip : Text) (asns : List AsnRow) (e : AsnCacheEntry)
    → get_asn now ip asns ≡ some e
    → (r : AsnRow) × (point : ℕ) × (ip_to_hex ip ≡ some point)
      × In r asns
      × (covers (is_ipv6_text ip) point r ≡ true)
      × All (λ q. covers (is_ipv6_text ip) point q ≡ true → q.prefix_len ≤ r.prefix_len) asns
      × (asn_entry now ip r ≡ some e)
      × (now ≤ r.checked_at + r.ttl_seconds * 1000)
unfolding get_asn asn_entry is_expired
get_asn-Longest now ip asns e h = elim (Option-cases (asn_row ip asns)) [
  | inl missed ↦ absurd (ground arith)
  | inr (r, hit) ↦
      let (point, at, (there, passes, longest)) = asn_row-Longest ip asns r hit in
      (r, point, at, there, passes, longest, ground arith, ground arith)
]

save_asn-fresh :
    (number : Text → Option ℕ) (e : AsnCacheEntry) (asns : List AsnRow) (range : IpRange)
    → prefix_to_range number e.prefix ≡ some range
    → any (λ r. text_eq r.prefix e.prefix) asns ≡ false
    → save_asn number e asns ≡ asns ++ new_asn_row e range ∷ []
unfolding save_asn
save_asn-fresh number e asns range parsed fresh = rw (parsed, save_asn) (rw fresh)

new_row-covers :
    (ip : Text) (point : ℕ) (e : AsnCacheEntry) (range : IpRange)
    → is_ipv6_text ip ≡ range.is_ipv6
    → range.start ≤ point
    → point ≤ range.end_
    → covers (is_ipv6_text ip) point (new_asn_row e range) ≡ true
unfolding covers new_asn_row
new_row-covers ip point e range family low high = elim (Bool-cases range.is_ipv6) [
  | inl six ↦ rw (family, six) (ground arith)
  | inr four ↦ rw (family, four) (ground arith)
]

abbrev AllShorter : Text → ℕ → ℕ → List AsnRow → Type 0
AllShorter ip point n = All (λ q. covers (is_ipv6_text ip) point q ≡ true → q.prefix_len < n)

new_row-shorter :
    (ip : Text) (point : ℕ) (e : AsnCacheEntry) (range : IpRange) (asns : List AsnRow)
    → AllShorter ip point range.prefix_len asns
    → AllShorter ip point (new_asn_row e range).prefix_len asns
unfolding new_asn_row
new_row-shorter ip point e range asns h = h

new_row-entry :
    (now : ℕ) (ip : Text) (e : AsnCacheEntry) (range : IpRange)
    → now ≤ e.checked_at + e.ttl_seconds * 1000
    → asn_entry now ip (new_asn_row e range) ≡ some (record e { ip = ip })
unfolding asn_entry is_expired new_asn_row
new_row-entry now ip e range live =
    let in_time : ltb (e.checked_at + e.ttl_seconds * 1000) now ≡ false = ground arith in
    rw (in_time, text_back e.as_name, text_back e.country, number_back e.asn)
  where
    text_back : (t : Text) → or_else (or_null t) [] ≡ t
    text_back [] = refl
    text_back (c ∷ s) = refl

    number_back : (n : ℕ) → or_else (number_or_null n) 0 ≡ n
    number_back n = ground arith

-- A prefix that the cache does not hold is saved. Every address in its range whose other cached
-- prefixes are shorter then finds the saved entry, under its own text, as long as the TTL is not
-- over.
pub save_asn-get_asn :
    (number : Text → Option ℕ) (now : ℕ) (e : AsnCacheEntry) (asns : List AsnRow) (range : IpRange)
    (ip : Text) (point : ℕ)
    → prefix_to_range number e.prefix ≡ some range
    → any (λ r. text_eq r.prefix e.prefix) asns ≡ false
    → ip_to_hex ip ≡ some point
    → is_ipv6_text ip ≡ range.is_ipv6
    → range.start ≤ point
    → point ≤ range.end_
    → All (λ q. covers (is_ipv6_text ip) point q ≡ true → q.prefix_len < range.prefix_len) asns
    → now ≤ e.checked_at + e.ttl_seconds * 1000
    → get_asn now ip (save_asn number e asns) ≡ some (record e { ip = ip })
unfolding get_asn
save_asn-get_asn number now e asns range ip point parsed fresh at family low high shorter live =
    let covered : covers (is_ipv6_text ip) point (new_asn_row e range) ≡ true =
      new_row-covers ip point e range family low high in
    ap (λ rows. get_asn now ip rows) (save_asn-fresh number e asns range parsed fresh)
    ∙ ap (λ o. with_row o)
        (asn_row-at ip point (asns ++ new_asn_row e range ∷ []) at
          ∙ most_specific-last (covers (is_ipv6_text ip) point) asns (new_asn_row e range) covered
              (new_row-shorter ip point e range asns shorter))
    ∙ new_row-entry now ip e range live
  where
    with_row : Option AsnRow → Option AsnCacheEntry
    with_row none = none
    with_row (some row) = asn_entry now ip row
