-- ===== src/Geo/Sibling/Digits.antt =====
-- The 256 indexes of public/static/geo.js in both bases, by evaluation.
use gwsdb.Prelude.{
  map-down, ℕ, ◌<◌, ◌==◌, Text, codes, Bool, true, not, ◌&&◌, Option, some, [], ◌∷◌, ◌++◌, ◌≡◌,
  refl, every,
}
use gwsdb.IpAddr.Hex.{pad_start, to_hex, lower}
use gwsdb.Geo.Names.{Marker, decimal, hexadecimal, is_space}
use gwsdb.Geo.Sibling.{SiblingMatch, last_index, is_line_end, number_text, other_base}

abbrev pub host_end : Text
host_end = codes ".1e100.net"

abbrev pub decimal_index : ℕ → Text
decimal_index n = codes "-in-f" ++ number_text n

abbrev pub hex_digits : ℕ → Text
hex_digits n = pad_start 2 b'0' (to_hex n)

abbrev pub hex_index : ℕ → Text
hex_index n = codes "-in-x" ++ hex_digits n

abbrev pub found : Marker → Option SiblingMatch
found m = some (record { before = []; index = m; suffix = host_end })

pub decimal_found :
    (n : ℕ) → n < 256 → last_index (decimal_index n ++ host_end) ≡ found (decimal (number_text n))
unfolding last_index number_text
decimal_found n =
    map-down (λ i. last_index (decimal_index i ++ host_end)) (λ i. found (decimal (number_text i)))
      256 n refl

pub hex_found :
    (n : ℕ) → n < 256 → last_index (hex_index n ++ host_end) ≡ found (hexadecimal (hex_digits n))
unfolding last_index pad_start to_hex
hex_found n =
    map-down (λ i. last_index (hex_index i ++ host_end)) (λ i. found (hexadecimal (hex_digits i)))
      256 n refl

pub decimal_other :
    (n : ℕ) → n < 256 → other_base (decimal (number_text n)) ≡ some (b'x' ∷ hex_digits n)
unfolding other_base
decimal_other n =
    map-down (λ i. other_base (decimal (number_text i))) (λ i. some (b'x' ∷ hex_digits i)) 256 n
      refl

pub hex_other :
    (n : ℕ) → n < 256 → other_base (hexadecimal (hex_digits n)) ≡ some (b'f' ∷ number_text n)
unfolding other_base
hex_other n =
    map-down (λ i. other_base (hexadecimal (hex_digits i))) (λ i. some (b'f' ∷ number_text i)) 256 n
      refl

-- A character that `trim`, `toLowerCase` and `.` leave.
abbrev pub is_plain : ℕ → Bool
is_plain c = (not (is_space c) && not (is_line_end c)) && (lower c == c)

pub decimal_plain : (n : ℕ) → n < 256 → every is_plain (decimal_index n ++ host_end) ≡ true
unfolding number_text is_space is_line_end lower
decimal_plain n =
    map-down (λ i. every is_plain (decimal_index i ++ host_end)) (λ i. true) 256 n refl

pub hex_plain : (n : ℕ) → n < 256 → every is_plain (hex_index n ++ host_end) ≡ true
unfolding pad_start to_hex is_space is_line_end lower
hex_plain n = map-down (λ i. every is_plain (hex_index i ++ host_end)) (λ i. true) 256 n refl
