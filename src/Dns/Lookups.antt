-- ===== src/Dns/Lookups.antt =====
-- Live look-ups over HTTPS: `queryDoH` of src/doh.ts, `lookupPTR`, `lookupHost` and `lookupTXT` of
-- src/resolver.ts, and `lookupASN` of src/asn.ts. The resolver is a parameter: what `fetch` comes to
-- for a name and a type. A look-up that throws is `none`.
use gwsdb.Prelude.{
  ℕ, ◌+◌, Text, split, Bool, true, false, Option, none, some, List, [], ◌∷◌, ◌++◌, map, ltb, ◌==◌,
  if◌then◌else◌, or_else, length, any, keep, join,
}
use gwsdb.IpAddr.{normalize_ip_address}
use gwsdb.Dns.Names.{strip_dot, is_filled, dedupe_sorted, reverse_name, min_ttl}

-- `DNSType`
abbrev pub type_a : ℕ
type_a = 1

abbrev pub type_ptr : ℕ
type_ptr = 12

abbrev pub type_txt : ℕ
type_txt = 16

abbrev pub type_aaaa : ℕ
type_aaaa = 28

pub record DohAnswer : Type 0 where
  pub name : Text
  pub type : ℕ
  pub ttl : ℕ
  pub data_ : Text

-- No answer in time, a status that is no success, or a body.
pub data Fetched : Type 0 where
  no_response bad_status : Fetched
  body : ℕ → Option (List DohAnswer) → Fetched

-- A resolver, by the name and the type that it is asked for.
abbrev pub Resolver : Type 0
Resolver = Text → ℕ → Fetched

pub data Queried : Type 0 where
  threw no_such_name : Queried
  answers : List DohAnswer → Queried

-- `queryDoH`, with an endpoint configured.
unfoldable pub query_doh : Resolver → Text → ℕ → Queried
query_doh resolver name type = elim (resolver name type) [
  | no_response ↦ threw
  | bad_status ↦ threw
  | body status found ↦
      if status == 3
      then no_such_name
      else if status == 0
      then answers (or_else found [])
      else threw
]

abbrev of_type : ℕ → List DohAnswer → List DohAnswer
of_type t found = keep (λ a. a.type == t) found

abbrev ttls : List DohAnswer → List ℕ
ttls found = map (λ a. a.ttl) found

pub record PtrLookup : Type 0 where
  pub hostnames : List Text
  pub ttl_seconds : ℕ
  pub ok : Bool

unfoldable pub no_ptr : PtrLookup
no_ptr = record { hostnames = []; ttl_seconds = 0; ok = false }

-- The loop of `lookupPTR`, and what follows.
unfoldable pub ptr_of_answers : List DohAnswer → PtrLookup
unfolding strip_dot dedupe_sorted min_ttl no_ptr
ptr_of_answers found =
    let named = keep (λ a. is_filled (strip_dot a.data_)) (of_type type_ptr found) in
    elim named [
      | [] ↦ no_ptr
      | a ∷ more ↦ record {
        hostnames = dedupe_sorted (map (λ b. strip_dot b.data_) (a ∷ more));
        ttl_seconds = min_ttl 0 (ttls (a ∷ more));
        ok = true;
      }
    ]

unfoldable pub lookup_ptr : Resolver → Text → Option PtrLookup
unfolding query_doh ptr_of_answers reverse_name no_ptr
lookup_ptr resolver ip = elim (reverse_name ip) [
  | none ↦ none
  | some name ↦ elim (query_doh resolver name type_ptr) [
    | threw ↦ none
    | no_such_name ↦ some no_ptr
    | answers found ↦ some (ptr_of_answers found)
  ]
]

pub record HostLookup : Type 0 where
  pub ipv4 : List Text
  pub ipv6 : List Text
  pub ttl_seconds : ℕ
  pub ok : Bool

-- The addresses of AAAA records that are IPv6 addresses, in their canonical text.
unfoldable pub ipv6_texts : List DohAnswer → List Text
unfolding normalize_ip_address
ipv6_texts [] = []
ipv6_texts (a ∷ more) =
    let rest = ipv6_texts more in
    elim (normalize_ip_address a.data_) [
      | none ↦ rest
      | some ip ↦ if any (λ c. c == b':') ip then ip ∷ rest else rest
    ]

unfoldable pub host_of_answers : List DohAnswer → List DohAnswer → HostLookup
unfolding dedupe_sorted min_ttl ipv6_texts
host_of_answers a_found aaaa_found =
    let a = of_type type_a a_found in
    let aaaa = of_type type_aaaa aaaa_found in
    let v4 = dedupe_sorted (map (λ r. r.data_) a) in
    let v6 = dedupe_sorted (ipv6_texts aaaa) in
    record {
      ipv4 = v4;
      ipv6 = v6;
      ttl_seconds = min_ttl 0 (ttls a ++ ttls aaaa);
      ok = ltb 0 (length v4 + length v6);
    }

-- `answers ?? []`, where the look-up has not thrown.
unfoldable pub found_answers : Queried → Option (List DohAnswer)
found_answers threw = none
found_answers no_such_name = some []
found_answers (answers found) = some found

unfoldable pub lookup_host : Resolver → Text → Option HostLookup
unfolding query_doh found_answers host_of_answers
lookup_host resolver host = elim (found_answers (query_doh resolver host type_a)) [
  | none ↦ none
  | some a ↦ elim (found_answers (query_doh resolver host type_aaaa)) [
    | none ↦ none
    | some aaaa ↦ some (host_of_answers a aaaa)
  ]
]

abbrev quote : ℕ
quote = b'"'

abbrev strip_first : Text → Text
strip_first [] = []
strip_first (c ∷ s) = if c == quote then s else c ∷ s

abbrev strip_last : Text → Text
strip_last [] = []
strip_last (c ∷ []) = if c == quote then [] else c ∷ []
strip_last (c ∷ d ∷ s) = c ∷ strip_last (d ∷ s)

-- `unwrapTXT`
unfoldable pub unwrap_txt : Text → Text
unfolding split join
unwrap_txt s = strip_last (strip_first (join [] (split (quote ∷ b' ' ∷ quote ∷ []) s)))

pub record TxtLookup : Type 0 where
  pub txts : List Text
  pub ttl_seconds : ℕ
  pub ok : Bool

unfoldable pub no_txt : TxtLookup
no_txt = record { txts = []; ttl_seconds = 0; ok = false }

unfoldable pub txt_of_answers : List DohAnswer → TxtLookup
unfolding unwrap_txt min_ttl no_txt
txt_of_answers found = elim (of_type type_txt found) [
  | [] ↦ no_txt
  | a ∷ more ↦ record {
    txts = map (λ b. unwrap_txt b.data_) (a ∷ more);
    ttl_seconds = min_ttl 0 (ttls (a ∷ more));
    ok = true;
  }
]

unfoldable pub lookup_txt : Resolver → Text → Option TxtLookup
unfolding query_doh txt_of_answers no_txt
lookup_txt resolver name = elim (query_doh resolver name type_txt) [
  | threw ↦ none
  | no_such_name ↦ some no_txt
  | answers found ↦ some (txt_of_answers found)
]
