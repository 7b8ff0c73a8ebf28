-- ===== src/Geo/Sibling.antt =====
-- `isHostname` and `siblingHostname` of public/static/geo.js: the other name of a server, whose index
-- stands in the other base.
pub mod Digits
pub mod RoundTrip
use gwsdb.Prelude.{
  ℕ, ◌+◌, ◌-◌, ◌/◌, ◌%◌, Text, codes, text_eq, Bool, not, ◌&&◌, ◌||◌, Option, none, some, List, [],
  ◌∷◌, ◌++◌, ltb, leb, ◌==◌, if◌then◌else◌, length, drop, every,
}
use gwsdb.IpAddr.Hex.{pad_start, to_hex, hex_value, decimal_value}
use gwsdb.Dns.Names.{strip_dot}
use gwsdb.Geo.Names.{
  Marker, decimal, hexadecimal, and_then, literal, marker, is_tail, trim, lower_case,
}

-- `s.endsWith(suffix)`
unfoldable pub ends_with : Text → Text → Bool
unfolding text_eq
ends_with s suffix =
    leb (length suffix) (length s) && text_eq (drop (length s - length suffix) s) suffix

unfoldable pub is_hostname : Text → Bool
unfolding ends_with strip_dot trim lower_case
is_hostname s = ends_with (strip_dot (lower_case (trim s))) (codes ".1e100.net")

-- What the sibling's expression captures; the text before the index is in two parts, of which the
-- second is `-in-`.
pub record SiblingMatch : Type 0 where
  pub before : Text
  pub index : Marker
  pub suffix : Text

unfoldable pub index_here : Text → Option SiblingMatch
unfolding literal marker is_tail
index_here s = and_then (literal (codes "-in-") s) (λ r. and_then (marker r) (λ (m, tail).
    if is_tail tail then some (record { before = []; index = m; suffix = tail }) else none))

-- `.+` takes as much as it can, so the last place counts.
unfoldable pub last_index : Text → Option SiblingMatch
unfolding index_here
last_index [] = none
last_index (c ∷ s) =
    let rest = last_index s in
    elim rest [
      | some m ↦ some (record { before = c ∷ m.before; index = m.index; suffix = m.suffix })
      | none ↦ index_here (c ∷ s)
    ]

-- What `.` does not match.
unfoldable pub is_line_end : ℕ → Bool
is_line_end c = (c == 10) || (c == 13) || (c == 8232) || (c == 8233)

unfoldable pub sibling_match : Text → Option SiblingMatch
unfolding last_index is_line_end
sibling_match h = and_then (last_index h) (λ m.
    if leb 1 (length m.before) && every (λ c. not (is_line_end c)) m.before then some m else none)

-- `${n}` of a number below 1000.
unfoldable pub number_text : ℕ → Text
number_text n =
    if ltb n 10
    then (b'0' + n) ∷ []
    else if ltb n 100
    then (b'0' + n / 10) ∷ (b'0' + n % 10) ∷ []
    else (b'0' + n / 100) ∷ (b'0' + n / 10 % 10) ∷ (b'0' + n % 10) ∷ []

-- The index in the other base; `none` above 0xff.
unfoldable pub other_base : Marker → Option Text
unfolding pad_start to_hex hex_value decimal_value number_text
other_base (decimal d) =
    let n = decimal_value d in if ltb 255 n then none else some (b'x' ∷ pad_start 2 b'0' (to_hex n))
other_base (hexadecimal x) = some (b'f' ∷ number_text (hex_value x))

unfoldable pub sibling_hostname : Text → Option Text
unfolding is_hostname sibling_match other_base trim lower_case
sibling_hostname hostname =
    let found = and_then (sibling_match (lower_case (trim hostname))) (λ m.
      and_then (other_base m.index)
        (λ index. some (m.before ++ (codes "-in-" ++ (index ++ m.suffix))))) in
    if is_hostname hostname then found else none
