-- ===== src/Tests/Tokens.antt =====
-- A request with the token, and one without, for an encoder of ASCII texts.
use gwsdb.Prelude.{
  ℕ, Text, codes, true, false, some, List, ◌∷◌, [], ◌++◌, ◌≡◌, ◌↔◌, refl, map, ◌%◌, arith,
}
use gwsdb.Auth.{check_bearer_auth}
use gwsdb.Auth.Equal.{AreBytes, check_bearer_auth_iff}

abbrev low_bytes : Text → List ℕ
low_bytes t = map (λ c. c % 256) t

low_bytes-AreBytes : (t : Text) → AreBytes (low_bytes t)
low_bytes-AreBytes [] = tt
low_bytes-AreBytes (c ∷ t) = (omega arith, low_bytes-AreBytes t)

passes : check_bearer_auth low_bytes (some (codes "Bearer secret")) (codes "secret") ≡ true
unfolding check_bearer_auth
passes = refl

fails : check_bearer_auth low_bytes (some (codes "Bearer secreT")) (codes "secret") ≡ false
unfolding check_bearer_auth
fails = refl

check_bearer_auth_iff_example :
    (check_bearer_auth low_bytes (some (codes "Bearer secret")) (codes "secret") ≡ true) ↔ (
      (given : Text) × (some (codes "Bearer secret") ≡ some (codes "Bearer " ++ given))
      × (low_bytes given ≡ low_bytes (codes "secret")))
check_bearer_auth_iff_example =
    check_bearer_auth_iff low_bytes low_bytes-AreBytes (some (codes "Bearer secret"))
      (codes "secret")
