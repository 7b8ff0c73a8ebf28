-- ===== src/Tests/Geo.antt =====
-- Names of Google's servers.
use gwsdb.Prelude.{Text, codes, some, [], ◌∷◌, ◌≡◌, ◌⊎◌, none, true, every, refl, length, arith}
use gwsdb.IpAddr.Hex.{lower}
use gwsdb.Geo.Data.Airports.{airport_codes}
use gwsdb.Geo.Names.{is_space}
use gwsdb.Geo.{decode, decode_best, country_code, regional_codes}
use gwsdb.Geo.Best.{Cut, decode_best-Cut}
use gwsdb.Geo.Flags.{decode-flag}
use gwsdb.Geo.Sibling.{sibling_hostname, is_line_end}
use gwsdb.Geo.Sibling.Digits.{is_plain}
use gwsdb.Geo.Sibling.RoundTrip.{decimal_name, hex_name, sibling_hostname-swaps}

abbrev dallas : Text
dallas = codes "dfw06s16-in-f31.1e100.net"

abbrev regional : Text
regional = codes "BC-in-x64.1e100.net."

dallas_place : (decode dallas).city ≡ codes "Dallas-Fort Worth, TX"
unfolding decode airport_codes
dallas_place = refl

aurora_place : (decode (codes "lcauzi-in-f90.1e100.net")).airport_code ≡ codes "auz"
unfolding decode
aurora_place = refl

anycast_place : (decode (codes "any-in-201d.1e100.net")).server_index ≡ codes "0x201d"
unfolding decode
anycast_place = refl

best_place : (decode_best (regional ∷ dallas ∷ [])).airport_code ≡ codes "dfw"
unfolding decode_best regional_codes airport_codes
best_place = refl

american : country_code (decode regional).country ≡ codes "us"
unfolding decode country_code regional_codes
american = refl

decode-flag_example :
    ((decode regional).country ≡ []) ⊎ (length (country_code (decode regional).country) ≡ 2)
decode-flag_example = decode-flag regional

decode_best-Cut_example : Cut (regional ∷ dallas ∷ []) (some (decode_best (regional ∷ dallas ∷ [])))
decode_best-Cut_example = decode_best-Cut regional (dallas ∷ [])

above_ff : sibling_hostname (codes "tf-in-f256.1e100.net") ≡ none
unfolding sibling_hostname
above_ff = refl

plain_prefix : every is_plain (codes "dfw06s16") ≡ true
unfolding is_space is_line_end lower
plain_prefix = refl

sibling_hostname-swaps_example :
    (sibling_hostname (decimal_name (codes "dfw06s16") 202)
      ≡ some (hex_name (codes "dfw06s16") 202))
    × (sibling_hostname (hex_name (codes "dfw06s16") 202)
        ≡ some (decimal_name (codes "dfw06s16") 202))
sibling_hostname-swaps_example =
    sibling_hostname-swaps (codes "dfw06s16") 202 (omega arith) plain_prefix (omega arith)
