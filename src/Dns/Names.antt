-- ===== src/Dns/Names.antt =====
-- src/resolver.ts: `dedupeSorted`, `reverseNibblesDotted`, `reverseName`, and the TTL minimum.
use gwsdb.Prelude.{
  ℕ, Text, codes, text_lt, Bool, true, false, not, ◌&&◌, Option, none, some, List, [], ◌∷◌, ◌++◌,
  map, ltb, ◌==◌, if◌then◌else◌, any, split, join, unique, keep,
}
use mathlib.Core.List.{reverse}
use gwsdb.IpAddr.{expand_ipv6}
use gwsdb.Store.Reads.{sort_by}

-- `s.replace(/\.$/, "")`
unfoldable pub strip_dot : Text → Text
strip_dot [] = []
strip_dot (c ∷ []) = if c == b'.' then [] else c ∷ []
strip_dot (c ∷ d ∷ s) = c ∷ strip_dot (d ∷ s)

abbrev pub is_filled : Text → Bool
is_filled [] = false
is_filled (c ∷ s) = true

-- `dedupeSorted`: the array's sort compares code units.
unfoldable pub dedupe_sorted : List Text → List Text
unfolding strip_dot unique sort_by text_lt
dedupe_sorted names = sort_by text_lt (unique (keep is_filled (map strip_dot names)))

-- `reverseNibblesDotted`
unfoldable pub reverse_nibbles_dotted : Text → Text
unfolding join
reverse_nibbles_dotted hex = join (codes ".") (map (λ c. c ∷ []) (reverse hex))

unfoldable pub reverse_ipv4 : List Text → Option Text
reverse_ipv4 (a ∷ b ∷ c ∷ d ∷ []) =
    some (join (codes ".") (d ∷ c ∷ b ∷ a ∷ []) ++ codes ".in-addr.arpa")
reverse_ipv4 _ = none

-- `reverseName`; `none` is its exception.
unfoldable pub reverse_name : Text → Option Text
unfolding reverse_ipv4 expand_ipv6 reverse_nibbles_dotted split
reverse_name ip =
    if any (λ c. c == b'.') ip && not (any (λ c. c == b':') ip)
    then reverse_ipv4 (split (codes ".") ip)
    else elim (expand_ipv6 ip) [
      | none ↦ none
      | some full ↦ some (reverse_nibbles_dotted full ++ codes ".ip6.arpa")
    ]

-- `if (minSeconds === 0 || ttl < minSeconds) minSeconds = ttl`
unfoldable pub observe : ℕ → ℕ → ℕ
observe min ttl = if min == 0 then ttl else if ltb ttl min then ttl else min

unfoldable pub min_ttl : ℕ → List ℕ → ℕ
unfolding observe
min_ttl min [] = min
min_ttl min (t ∷ ts) = min_ttl (observe min t) ts
