-- ===== src/Dns/Asn.antt =====
-- `lookupASN` of src/asn.ts: the announcing AS of an address, its prefix and its name, from two TXT
-- look-ups. A sign before an AS number is not read.
use gwsdb.Prelude.{
  ℕ, zero, suc, ◌+◌, ◌/◌, ◌%◌, Text, codes, split, Bool, true, false, not, ◌&&◌, Option, none, some,
  List, [], ◌∷◌, ◌++◌, ltb, leb, ◌==◌, if◌then◌else◌, length, every,
}
use gwsdb.IpAddr.{expand_ipv6}
use gwsdb.IpAddr.Hex.{is_digit, decimal_value}
use gwsdb.Geo.Names.{is_space, trim}
use gwsdb.Dns.Names.{reverse_nibbles_dotted}
use gwsdb.Dns.Lookups.{Resolver, TxtLookup, lookup_txt}

pub record AsnInfo : Type 0 where
  pub asn : ℕ
  pub as_name : Text
  pub prefix : Text
  pub country : Text

pub record AsnLookup : Type 0 where
  pub info : AsnInfo
  pub ttl_seconds : ℕ
  pub ok : Bool

unfoldable pub no_info : AsnInfo
no_info = record { asn = 0; as_name = []; prefix = []; country = [] }

unfoldable pub no_asn : AsnLookup
unfolding no_info
no_asn = record { info = no_info; ttl_seconds = 0; ok = false }

abbrev is_short_number : Text → Bool
is_short_number s = (leb 1 (length s) && leb (length s) 3) && every is_digit s

-- `isIPv4`, with the four parts that it finds.
unfoldable pub ipv4_parts : Text → Option (List Text)
unfolding split is_digit
ipv4_parts ip =
    let parts = split (codes ".") ip in
    if (length parts == 4) && every is_short_number parts then some parts else none

unfoldable pub reversed_origin : List Text → Option Text
reversed_origin (a ∷ b ∷ c ∷ d ∷ []) = some (
    d
    ++ (codes "."
        ++ (c ++ (codes "." ++ (b ++ (codes "." ++ (a ++ codes ".origin.asn.cymru.com")))))))
reversed_origin _ = none

-- The name that is asked for the origin.
unfoldable pub origin_query : Text → Option Text
unfolding ipv4_parts reversed_origin expand_ipv6 reverse_nibbles_dotted
origin_query ip = elim (ipv4_parts ip) [
  | some parts ↦ reversed_origin parts
  | none ↦ elim (expand_ipv6 ip) [
    | none ↦ none
    | some full ↦ some (reverse_nibbles_dotted full ++ codes ".origin6.asn.cymru.com")
  ]
]

-- The characters of a text before the first that fails a test.
unfoldable pub leading : (ℕ → Bool) → Text → Text
leading p [] = []
leading p (c ∷ s) = let rest = leading p s in if p c then c ∷ rest else []

-- `parseInt(s, 10)`, where it is a number.
unfoldable pub parse_int : Text → Option ℕ
unfolding leading is_digit decimal_value
parse_int s = elim (leading is_digit s) [ [] ↦ none | c ∷ t ↦ some (decimal_value (c ∷ t)) ]

abbrev first_or_empty : List Text → Text
first_or_empty [] = []
first_or_empty (t ∷ ts) = t

abbrev three_fields : List Text → Option (Text × Text × Text)
three_fields (a ∷ b ∷ c ∷ more) = some (a, b, c)
three_fields _ = none

-- "13335 | 1.1.1.0/24 | US | apnic | 2011-08-11": the first line's first three fields.
unfoldable pub origin_info : Text → Option AsnInfo
unfolding split trim leading parse_int is_space
origin_info txt = elim (three_fields (split (codes "|") (first_or_empty (split (10 ∷ []) txt)))) [
  | none ↦ none
  | some (asn, prefix, country) ↦ elim (parse_int (leading (λ c. not (is_space c)) (trim asn))) [
    | none ↦ none
    | some n ↦ some (record { asn = n; as_name = []; prefix = trim prefix; country = trim country })
  ]
]

-- `${n}`, in at most as many digits as there are rounds.
unfoldable pub digits_from : ℕ → ℕ → Text → Text
digits_from zero n acc = acc
digits_from (suc f) n acc = elim (ltb n 10) [
  | true ↦ (b'0' + n) ∷ acc
  | false ↦ digits_from f (n / 10) ((b'0' + n % 10) ∷ acc)
]

unfoldable pub decimal_text : ℕ → Text
unfolding digits_from
decimal_text n = digits_from (suc n) n []

-- "13335 | US | arin | 2010-07-14 | CLOUDFLARENET, US": the fifth field.
unfoldable pub name_field : Text → Option Text
unfolding split trim
name_field txt = fifth (split (codes "|") txt)
  where
    fifth : List Text → Option Text
    fifth (a ∷ b ∷ c ∷ d ∷ e ∷ more) = some (trim e)
    fifth _ = none

-- What the look-up of the name adds: `none` where it throws.
unfoldable pub with_name : Option TxtLookup → ℕ → AsnInfo → Option AsnLookup
unfolding name_field
with_name none ttl info = none
with_name (some name) ttl info = some (named name.ok name.txts)
  where
    plain : AsnLookup
    plain = record { info = info; ttl_seconds = ttl; ok = true }

    named : Bool → List Text → AsnLookup
    named false txts = plain
    named true [] = plain
    named true (txt ∷ more) = record {
      info = elim (name_field txt) [ none ↦ info | some n ↦ record info { as_name = n } ];
      ttl_seconds = if ltb name.ttl_seconds ttl then name.ttl_seconds else ttl;
      ok = true;
    }

-- From the answer for the origin on.
unfoldable pub with_origin : Resolver → Option TxtLookup → Option AsnLookup
unfolding origin_info lookup_txt decimal_text with_name no_asn
with_origin resolver none = none
with_origin resolver (some origin) = elim (first_info origin.ok origin.txts) [
  | none ↦ some no_asn
  | some info ↦
      with_name
        (lookup_txt resolver (codes "AS" ++ (decimal_text info.asn ++ codes ".asn.cymru.com")))
        origin.ttl_seconds info
]
  where
    first_info : Bool → List Text → Option AsnInfo
    first_info false txts = none
    first_info true [] = none
    first_info true (txt ∷ more) = origin_info txt

unfoldable pub lookup_asn : Resolver → Text → Option AsnLookup
unfolding origin_query lookup_txt with_origin no_asn
lookup_asn resolver ip = elim (origin_query ip) [
  | none ↦ some no_asn
  | some query ↦ with_origin resolver (lookup_txt resolver query)
]
