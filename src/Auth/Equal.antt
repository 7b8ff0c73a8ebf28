-- ===== src/Auth/Equal.antt =====
-- The comparison of src/auth.ts, over every pair of bytes by evaluation, and on whole texts.
use Prim.Native.Nat.{bit_or, bit_xor}
use gwsdb.Prelude.{
  every, down, every-down, ℕ, ◌<◌, Text, codes, starts_with, Bool, true, false, not, ◌&&◌, Option,
  none, some, List, [], ◌∷◌, ◌++◌, ◌≡◌, ◌↔◌, refl, sym, ap, ◌∙◌, ◌==◌, ==_iff, ltb, arith, length,
  drop, or_else, All, Bool-cases, inl, inr,
}
use gwsdb.Auth.{diff_from, timing_safe_equal, check_bearer_auth}

same : Bool → Bool → Bool
same true b = b
same false b = not b

-- What the loop needs of two bytes.
byte_laws : ℕ → ℕ → Bool
unfolding same
byte_laws a b =
    same (bit_xor a b == 0) (a == b)
    && (same (bit_or a b == 0) ((a == 0) && (b == 0))
        && (ltb (bit_xor a b) 256 && ltb (bit_or a b) 256))

byte_table : every (λ a. every (byte_laws a) (down 256)) (down 256) ≡ true
unfolding byte_laws same
byte_table = refl

byte_laws-at : (a b : ℕ) → a < 256 → b < 256 → byte_laws a b ≡ true
byte_laws-at a b h k =
    every-down (byte_laws a) 256 b
      (every-down (λ c. every (byte_laws c) (down 256)) 256 a byte_table h) k

xor_zero : (a b : ℕ) → a < 256 → b < 256 → (bit_xor a b ≡ 0) ↔ (a ≡ b)
unfolding byte_laws same
xor_zero a b h k = ground (arith, byte_laws-at a b h k)

or_zero : (a b : ℕ) → a < 256 → b < 256 → (bit_or a b ≡ 0) ↔ ((a ≡ 0) × (b ≡ 0))
unfolding byte_laws same
or_zero a b h k = ground (arith, byte_laws-at a b h k)

xor_byte : (a b : ℕ) → a < 256 → b < 256 → bit_xor a b < 256
unfolding byte_laws
xor_byte a b h k = ground (arith, byte_laws-at a b h k)

or_byte : (a b : ℕ) → a < 256 → b < 256 → bit_or a b < 256
unfolding byte_laws
or_byte a b h k = ground (arith, byte_laws-at a b h k)

abbrev pub AreBytes : List ℕ → Type 0
AreBytes = All (λ b. b < 256)

abbrev head_or : ℕ → List ℕ → ℕ
head_or d [] = d
head_or d (c ∷ s) = c

abbrev tail_of : List ℕ → List ℕ
tail_of [] = []
tail_of (c ∷ s) = s

diff_from-zero :
    (diff : ℕ) (a b : List ℕ)
    → diff < 256
    → AreBytes a
    → AreBytes b
    → length a ≡ length b
    → (diff_from diff a b ≡ 0) ↔ ((diff ≡ 0) × (a ≡ b))
unfolding diff_from
diff_from-zero diff [] [] d p q l = (λ h. (h, refl), λ h. h.0)
diff_from-zero diff [] (y ∷ b) d p q l = absurd (omega arith)
diff_from-zero diff (x ∷ a) [] d p q l = absurd (omega arith)
diff_from-zero diff (x ∷ a) (y ∷ b) d p q l =
    let xor_small = xor_byte x y p.0 q.0 in
    let rest =
      diff_from-zero (bit_or diff (bit_xor x y)) a b (or_byte diff _ d xor_small) p.1 q.1
        (omega arith) in
    let parts = or_zero diff (bit_xor x y) d xor_small in
    let heads = xor_zero x y p.0 q.0 in
    (
      λ h.
          let (o, e) = rest.0 h in
          let (z, x0) = parts.0 o in (z, ap (λ u. u ∷ a) (heads.0 x0) ∙ ap (◌∷◌ y) e),
      λ (z, e). rest.1 (parts.1 (z, heads.1 (ap (head_or x) e)), ap tail_of e),
    )

starts_with-cut : (s p : Text) → starts_with s p ≡ true → s ≡ p ++ drop (length p) s
unfolding starts_with
starts_with-cut s [] h = refl
starts_with-cut [] (c ∷ p) h = absurd (ground arith)
starts_with-cut (d ∷ s) (c ∷ p) h =
    ap (λ u. u ∷ s) ((==_iff d c).0 (ground arith))
    ∙ ap (◌∷◌ c) (starts_with-cut s p (ground arith))

starts_with-append : (p r : Text) → starts_with (p ++ r) p ≡ true
unfolding starts_with
starts_with-append [] r = refl
starts_with-append (c ∷ p) r = ground (arith, starts_with-append p r)

module _ (encode : Text → List ℕ) (bytes : (t : Text) → AreBytes (encode t)) where
  timing_safe_equal_iff :
      (a b : Text) → (timing_safe_equal encode a b ≡ true) ↔ (encode a ≡ encode b)
  unfolding timing_safe_equal
  timing_safe_equal_iff a b = elim (Bool-cases (length (encode a) == length (encode b))) [
    | inr differ ↦
        rw differ (λ h. absurd (ground arith), λ e. absurd (ground (arith, ap length e, differ)))
    | inl size ↦
        let zero =
          diff_from-zero 0 (encode a) (encode b) (omega arith) (bytes a) (bytes b)
            ((==_iff _ _).0 size) in
        rw size (λ h. (zero.0 ((==_iff _ 0).0 h)).1, λ e. (==_iff _ 0).1 (zero.1 (refl, e)))
  ]

  abbrev bearer : Text
  bearer = codes "Bearer "

  check_there :
      (auth token : Text)
      → starts_with auth bearer ≡ true
      → check_bearer_auth encode (some auth) token
        ≡ timing_safe_equal encode (drop (length bearer) auth) token
  unfolding check_bearer_auth
  check_there auth token h = rw h

  check_missing :
      (auth token : Text)
      → starts_with auth bearer ≡ false
      → check_bearer_auth encode (some auth) token ≡ false
  unfolding check_bearer_auth
  check_missing auth token h = rw h

  check_empty : (token : Text) → check_bearer_auth encode none token ≡ false
  unfolding check_bearer_auth starts_with
  check_empty token = refl

  -- A request passes exactly when it has an Authorization header that is `Bearer ` and a text after
  -- it whose bytes are those of the token. It is assumed of the encoder only that it gives bytes.
  pub check_bearer_auth_iff :
      (header : Option Text) (token : Text)
      → (check_bearer_auth encode header token ≡ true) ↔ (
          (given : Text) × (header ≡ some (codes "Bearer " ++ given))
          × (encode given ≡ encode token))
  check_bearer_auth_iff none token =
      (λ h. absurd (no_header h), λ (given, e, same_bytes). absurd (ground arith))
    where
      no_header : check_bearer_auth encode none token ≡ true → ⊥
      no_header h = absurd (ground (arith, check_empty token))
  check_bearer_auth_iff (some auth) token = elim (Bool-cases (starts_with auth bearer)) [
    | inr missing ↦ (
      λ h. absurd (ground (arith, check_missing auth token missing)),
      λ (given, e, same_bytes). absurd (
          ground (
            arith,
            missing,
            ap (λ o. starts_with (or_else o []) bearer) e,
            starts_with-append bearer given,
          )),
    )
    | inl there ↦
        let taken = check_there auth token there in
        let equal = timing_safe_equal_iff (drop (length bearer) auth) token in
        (
          λ h. (
            drop (length bearer) auth,
            ap some (starts_with-cut auth bearer there),
            equal.0 (sym taken ∙ h),
          ),
          λ (given, e, same_bytes).
              taken
              ∙ equal.1 (ap (λ o. encode (drop (length bearer) (or_else o []))) e ∙ same_bytes),
        )
  ]
