-- ===== src/Tests/Addresses.antt =====
-- The cases of tests/ipAddr.test.ts.
use gwsdb.Prelude.{◌≡◌, refl, some, none, codes}
use gwsdb.IpAddr.{normalize_ip_address}

shortest :
    normalize_ip_address (codes "2607:f8b0:4023:0807::5A") ≡ some (codes "2607:f8b0:4023:807::5a")
unfolding normalize_ip_address
shortest = refl

leftmost : normalize_ip_address (codes "2001:0db8:0:0:1:0:0:1") ≡ some (codes "2001:db8::1:0:0:1")
unfolding normalize_ip_address
leftmost = refl

gap_moves : normalize_ip_address (codes "2001:db8:0:0:1::1") ≡ some (codes "2001:db8::1:0:0:1")
unfolding normalize_ip_address
gap_moves = refl

all_zero : normalize_ip_address (codes "0:0:0:0:0:0:0:0") ≡ some (codes "::")
unfolding normalize_ip_address
all_zero = refl

one_zero : normalize_ip_address (codes "2001:db8:0:1:1:1:1:1") ≡ some (codes "2001:db8:0:1:1:1:1:1")
unfolding normalize_ip_address
one_zero = refl

plain : normalize_ip_address (codes "192.0.2.1") ≡ some (codes "192.0.2.1")
unfolding normalize_ip_address
plain = refl

rejected :
    (normalize_ip_address (codes "not-an-ip") ≡ none)
    × (normalize_ip_address (codes "1::2::3") ≡ none)
    × (normalize_ip_address (codes "1:2:3:4:5:6:7:") ≡ none)
    × (normalize_ip_address (codes "fe80::1%eth0") ≡ none)
unfolding normalize_ip_address
rejected = (refl, refl, refl, refl)
