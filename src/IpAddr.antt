-- ===== src/IpAddr.antt =====
-- src/ipAddr.ts: the parsing and the canonical text of IP addresses, and the range of a CIDR prefix.
-- A range's bound is the number that its 32 hexadecimal digits write; such texts of one length are
-- ordered as their numbers.
pub mod Hex
pub mod Ranges
use Hex.{is_digit, is_hex_digit, lower, pad_start, to_hex, hex_value, decimal_value}
use gwsdb.Prelude.{
  ℕ, zero, suc, ◌+◌, ◌-◌, ◌*◌, ◌/◌, ◌%◌, ◌^◌, Text, codes, text_eq, Bool, true, false, not, ◌&&◌,
  ◌||◌, Option, none, some, List, [], ◌∷◌, ◌++◌, map, ltb, leb, ◌==◌, if◌then◌else◌, is_some,
  length, take, drop, replicate, any, every, join, split, starts_with, concat,
}

-- `/^\d{1,3}$/` on one part.
unfoldable pub is_octet_text : Text → Bool
unfolding is_digit
is_octet_text p = leb 1 (length p) && (leb (length p) 3 && every is_digit p)

abbrev pub dot_parts : Text → List Text
dot_parts s = split (codes ".") s

-- `isIPv4`: four parts of one to three digits, each at most 255.
unfoldable pub is_ipv4 : Text → Bool
unfolding is_octet_text decimal_value split
is_ipv4 s =
    (length (dot_parts s) == 4)
    && (every is_octet_text (dot_parts s) && every (λ o. leb (decimal_value o) 255) (dot_parts s))

-- `s.indexOf(p)`: the first position at which `p` stands.
unfoldable pub index_of : Text → Text → Option ℕ
unfolding starts_with
index_of p [] = if starts_with [] p then some 0 else none
index_of p (c ∷ s) =
    let rest = index_of p s in
    if starts_with (c ∷ s) p then some 0 else elim rest [ none ↦ none | some i ↦ some (suc i) ]

-- `s.lastIndexOf(p)`
unfoldable pub last_index_of : Text → Text → Option ℕ
unfolding starts_with
last_index_of p [] = if starts_with [] p then some 0 else none
last_index_of p (c ∷ s) = elim (last_index_of p s) [
  | some i ↦ some (suc i)
  | none ↦ if starts_with (c ∷ s) p then some 0 else none
]

-- `head ? head.split(":") : []`
unfoldable pub colon_parts : Text → List Text
unfolding split
colon_parts [] = []
colon_parts (c ∷ s) = split (codes ":") (c ∷ s)

-- `/^[0-9a-fA-F]{1,4}$/`
unfoldable pub is_group : Text → Bool
unfolding is_hex_digit
is_group g = leb 1 (length g) && (leb (length g) 4 && every is_hex_digit g)

-- The last loop of `expandIPv6`.
unfoldable pub hex_of_groups : List Text → Option Text
unfolding is_group lower pad_start
hex_of_groups [] = some []
hex_of_groups (g ∷ gs) =
    let rest = hex_of_groups gs in
    if is_group g
    then elim rest [ none ↦ none | some hex ↦ some (map lower (pad_start 4 b'0' g) ++ hex) ]
    else none

-- With no "::" the parts are the groups; with one, zeros fill the gap, of one group at least.
unfoldable pub expand_plain : List Text → Option Text
unfolding hex_of_groups
expand_plain parts = if length parts == 8 then hex_of_groups parts else none

unfoldable pub expand_gap : List Text → List Text → Option Text
unfolding hex_of_groups
expand_gap head tail =
    if leb 8 (length head + length tail)
    then none
    else hex_of_groups (head ++ (replicate (8 - length head - length tail) (codes "0") ++ tail))

abbrev pub gap : Text
gap = codes "::"

-- `expandIPv6`
unfoldable pub expand_ipv6 : Text → Option Text
unfolding index_of last_index_of colon_parts expand_plain expand_gap
expand_ipv6 ip = if any (λ c. c == b'%') ip then none else elim (index_of gap ip) [
  | none ↦ expand_plain (colon_parts ip)
  | some i ↦ elim (last_index_of gap ip) [
    | none ↦ none
    | some j ↦
        if i == j
        then expand_gap (colon_parts (take i ip)) (colon_parts (drop (i + 2) ip))
        else none
  ]
]

-- `isIPAddress`
unfoldable pub is_ip_address : Text → Bool
unfolding is_ipv4 expand_ipv6
is_ip_address s = is_ipv4 s || is_some (expand_ipv6 s)

-- `BigInt("0x" + hex.slice(i, i + 4))` for each i; a round takes four digits.
unfoldable pub group_values : ℕ → Text → List ℕ
unfolding hex_value
group_values zero hex = []
group_values (suc rounds) hex = hex_value (take 4 hex) ∷ group_values rounds (drop 4 hex)

-- The run of zero groups that starts the list.
unfoldable pub zero_run : List ℕ → ℕ
zero_run [] = 0
zero_run (g ∷ gs) = let n = zero_run gs in if g == 0 then suc n else 0

-- The longest run of zero groups, the leftmost of those: (start, length). The loop stands at the
-- group `i`; `skip` groups of a run that it has counted are still to be passed over.
unfoldable pub best_run : ℕ → ℕ → ℕ × ℕ → List ℕ → ℕ × ℕ
unfolding zero_run
best_run i skip best [] = best
best_run i (suc skip) best (g ∷ gs) = best_run (suc i) skip best gs
best_run i zero best (g ∷ gs) =
    let run = zero_run (g ∷ gs) in
    best_run (suc i) (run - 1) (if ltb best.1 run then (i, run) else best) gs

abbrev pub colons : List Text → Text
colons parts = join (codes ":") parts

-- The text of eight groups.
unfoldable pub render_groups : List ℕ → Text
unfolding best_run join to_hex
render_groups gs =
    let best = best_run 0 0 (0, 0) gs in
    if ltb best.1 2
    then colons (map to_hex gs)
    else colons (map to_hex (take best.0 gs))
      ++ (gap ++ colons (map to_hex (drop (best.0 + best.1) gs)))

-- `normalizeIPAddress`
unfoldable pub normalize_ip_address : Text → Option Text
unfolding is_ipv4 expand_ipv6 group_values render_groups
normalize_ip_address s =
    if is_ipv4 s
    then some s
    else elim (expand_ipv6 s) [ none ↦ none | some hex ↦ some (render_groups (group_values 8 hex)) ]

unfoldable pub ipv4_value : ℕ → List Text → ℕ
unfolding decimal_value
ipv4_value v [] = v
ipv4_value v (o ∷ os) = ipv4_value (v * 256 + decimal_value o) os

-- `ipToHex`, as the number that its digits write.
unfoldable pub ip_to_hex : Text → Option ℕ
unfolding is_ipv4 ipv4_value expand_ipv6 hex_value
ip_to_hex ip =
    if is_ipv4 ip
    then some (ipv4_value 0 (dot_parts ip))
    else elim (expand_ipv6 ip) [ none ↦ none | some hex ↦ some (hex_value hex) ]

pub record IpRange : Type 0 where
  pub start : ℕ
  pub end_ : ℕ
  pub prefix_len : ℕ
  pub is_ipv6 : Bool

-- The range of an address and a prefix length: `value & ~hostMask` and `value | hostMask`.
unfoldable pub range_of : ℕ → ℕ → Bool → ℕ → IpRange
range_of value host_bits v6 prefix_len =
    let mask = 2 ^ host_bits in
    record {
      start = value / mask * mask;
      end_ = value / mask * mask + (mask - 1);
      prefix_len = prefix_len;
      is_ipv6 = v6;
    }

-- The width of an address, by its text.
abbrev pub bits_of : Text → ℕ
bits_of addr = if is_ipv4 addr then 32 else 128

-- The range of the address text and the length, where that is a natural number.
unfoldable pub parse_range : Text → Option ℕ → Option IpRange
unfolding is_ipv4 ip_to_hex range_of
parse_range addr none = none
parse_range addr (some prefix_len) =
    if ltb (bits_of addr) prefix_len then none else elim (ip_to_hex addr) [
      | none ↦ none
      | some value ↦
          some (range_of value (bits_of addr - prefix_len) (not (is_ipv4 addr)) prefix_len)
    ]

-- `prefixToRange`. `number` is JavaScript's `Number` of a text, where that is a natural number.
unfoldable pub prefix_to_range : (Text → Option ℕ) → Text → Option IpRange
unfolding parse_range last_index_of
prefix_to_range number prefix = elim (last_index_of (codes "/") prefix) [
  | none ↦ none
  | some slash ↦ parse_range (take slash prefix) (number (drop (slash + 1) prefix))
]
