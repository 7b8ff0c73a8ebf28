-- ===== src/IpAddr/Hex.antt =====
-- Digits: the character classes, the padding and the number texts that src/ipAddr.ts uses.
use gwsdb.Prelude.{
  ℕ, ◌+◌, ◌-◌, ◌*◌, ◌/◌, ◌%◌, Text, Bool, ◌&&◌, ◌||◌, [], ◌∷◌, ◌++◌, ltb, leb, if◌then◌else◌,
  length, replicate,
}

unfoldable pub is_digit : ℕ → Bool
is_digit c = leb b'0' c && leb c b'9'

unfoldable pub is_hex_digit : ℕ → Bool
unfolding is_digit
is_hex_digit c = is_digit c || ((leb b'a' c && leb c b'f') || (leb b'A' c && leb c b'F'))

-- `toLowerCase` on ASCII.
unfoldable pub lower : ℕ → ℕ
lower c = if leb b'A' c && leb c b'Z' then c + 32 else c

-- `s.padStart(n, fill)`
unfoldable pub pad_start : ℕ → ℕ → Text → Text
pad_start n fill s = replicate (n - length s) fill ++ s

unfoldable pub digit_char : ℕ → ℕ
digit_char d = if ltb d 10 then b'0' + d else b'a' + (d - 10)

unfoldable pub digit_value : ℕ → ℕ
unfolding lower is_digit
digit_value c = if is_digit c then c - b'0' else lower c - b'a' + 10

-- `n.toString(16)` of a number below 2 ^ 16.
unfoldable pub to_hex : ℕ → Text
unfolding digit_char
to_hex n =
    if ltb n 16
    then digit_char n ∷ []
    else if ltb n 256
    then digit_char (n / 16) ∷ digit_char (n % 16) ∷ []
    else if ltb n 4096
    then digit_char (n / 256) ∷ digit_char (n / 16 % 16) ∷ digit_char (n % 16) ∷ []
    else digit_char (n / 4096)
      ∷ digit_char (n / 256 % 16)
      ∷ digit_char (n / 16 % 16)
      ∷ digit_char (n % 16)
      ∷ []

value_from : ℕ → ℕ → Text → ℕ
unfolding digit_value
value_from base acc [] = acc
value_from base acc (c ∷ s) = value_from base (acc * base + digit_value c) s

-- `BigInt("0x" + s)`
unfoldable pub hex_value : Text → ℕ
unfolding value_from
hex_value s = value_from 16 0 s

-- `Number(s)` of decimal digits.
unfoldable pub decimal_value : Text → ℕ
unfolding value_from
decimal_value s = value_from 10 0 s
