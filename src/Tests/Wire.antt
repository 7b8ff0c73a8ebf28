-- ===== src/Tests/Wire.antt =====
-- A name that points at itself, and one that is written and read.
use gwsdb.Prelude.{
  ◌+◌, ◌++◌, codes, Text, All, join, false, ◌≡◌, refl, [], ◌∷◌, List, length, arith,
}
use gwsdb.Dns.Wire.{Bytes, skip_name, encode_qname, decoded, decode_name}
use gwsdb.Dns.Wire.Names.{IsLabel, decode_name-encode_qname}
use gwsdb.Dns.Wire.Ends.{decode_name-ends, is_out_of_fuel}

abbrev self_pointer : Bytes
self_pointer = 3 ∷ 119 ∷ 119 ∷ 119 ∷ 192 ∷ 0 ∷ []

decode_name-ends_example : is_out_of_fuel (decode_name self_pointer 0) ≡ false
decode_name-ends_example = decode_name-ends self_pointer 0

abbrev dns_google : List Text
dns_google = codes "google" ∷ []

labels-IsLabel : All IsLabel (codes "dns" ∷ dns_google)
labels-IsLabel = (
  record { some_byte = omega arith; short = omega arith; bytes = refl; no_dot = refl },
  (record { some_byte = omega arith; short = omega arith; bytes = refl; no_dot = refl }, tt),
)

decode_name-encode_qname_example :
    decode_name
      ((7 ∷ 7 ∷ []) ++ (encode_qname (join (codes ".") (codes "dns" ∷ dns_google)) ++ 9 ∷ []))
      2
    ≡ decoded
        (join (codes ".") (codes "dns" ∷ dns_google))
        (2 + length (encode_qname (join (codes ".") (codes "dns" ∷ dns_google))))
decode_name-encode_qname_example =
    decode_name-encode_qname (codes "dns") dns_google (7 ∷ 7 ∷ []) (9 ∷ []) labels-IsLabel

skips : skip_name self_pointer 0 ≡ 6
unfolding skip_name
skips = refl
