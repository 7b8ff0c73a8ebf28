-- ===== src/Auth.antt =====
-- src/auth.ts: the bearer token of the endpoints that the scanning host calls. `encode` stands for
-- TextEncoder: the bytes of a text.
pub mod Equal
use Prim.Native.Nat.{bit_or, bit_xor}
use gwsdb.Prelude.{
  ℕ, Text, codes, starts_with, Bool, true, false, not, Option, none, some, List, [], ◌∷◌, ◌==◌,
  if◌then◌else◌, length, drop, or_else,
}

-- `for (…) diff |= aBytes[i] ^ bBytes[i]`, over arrays of one length.
unfoldable pub diff_from : ℕ → List ℕ → List ℕ → ℕ
diff_from diff [] b = diff
diff_from diff (x ∷ a) [] = diff
diff_from diff (x ∷ a) (y ∷ b) = diff_from (bit_or diff (bit_xor x y)) a b

module _ (encode : Text → List ℕ) where
  unfoldable pub timing_safe_equal : Text → Text → Bool
  unfolding diff_from
  timing_safe_equal a b =
      let a_bytes = encode a in
      let b_bytes = encode b in
      if length a_bytes == length b_bytes then diff_from 0 a_bytes b_bytes == 0 else false

  -- Of the Authorization header, if there is one, and of INGEST_TOKEN.
  unfoldable pub check_bearer_auth : Option Text → Text → Bool
  unfolding starts_with timing_safe_equal
  check_bearer_auth header token =
      let auth = or_else header [] in
      if starts_with auth (codes "Bearer ")
      then timing_safe_equal (drop (length (codes "Bearer ")) auth) token
      else false
