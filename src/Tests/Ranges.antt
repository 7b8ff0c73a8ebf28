-- ===== src/Tests/Ranges.antt =====
-- The range of 8.8.8.0/24.
use gwsdb.Prelude.{ℕ, ◌-◌, ◌/◌, ◌^◌, ◌≤◌, Text, codes, ◌++◌, ◌∷◌, some, ◌≡◌, refl, ◌↔◌, arith}
use gwsdb.IpAddr.{IpRange, prefix_to_range, ip_to_hex, is_ipv4, bits_of}
use gwsdb.IpAddr.Hex.{decimal_value}
use gwsdb.IpAddr.Ranges.{prefix_to_range-members}

abbrev network : Text
network = codes "8.8.8.0"

prefix_to_range-members_example :
    (r : IpRange) × (prefix_to_range (λ t. some (decimal_value t)) (network ++ b'/' ∷ codes "24")
      ≡ some r)
    × ((x : ℕ)
        → ((r.start ≤ x) × (x ≤ r.end_))
          ↔ (x / 2 ^ (bits_of network - 24) ≡ 134744064 / 2 ^ (bits_of network - 24)))
unfolding ip_to_hex is_ipv4
prefix_to_range-members_example =
    prefix_to_range-members (λ t. some (decimal_value t)) network (codes "24") 24 134744064 refl
      refl (omega arith) refl
