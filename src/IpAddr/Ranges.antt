-- ===== src/IpAddr/Ranges.antt =====
-- Which addresses the range of a CIDR prefix holds.
use native.Mathlib.Nat.{div-eq_of_lt-le, div-mul-le_self, lt-div-mul-add, one-le-pow}
use gwsdb.Prelude.{
  ℕ, suc, ◌+◌, ◌-◌, ◌*◌, ◌/◌, ◌^◌, ◌≤◌, ◌<◌, Text, codes, Bool, false, not, Option, none, some, [],
  ◌∷◌, ◌++◌, ◌≡◌, refl, ap, subst, ◌∙◌, ◌↔◌, arith, Bool-cases, inl, inr, ltb, ltb→lt, ◌==◌, length,
  take, drop, any, starts_with,
}
use gwsdb.IpAddr.{
  is_ipv4, ip_to_hex, last_index_of, IpRange, range_of, prefix_to_range, parse_range, bits_of,
}

-- The numbers that agree with `value` above its lowest `host_bits` bits.
range_of-members :
    (value host_bits : ℕ) (v6 : Bool) (n x : ℕ)
    → (((range_of value host_bits v6 n).start ≤ x) × (x ≤ (range_of value host_bits v6 n).end_))
      ↔ (x / 2 ^ host_bits ≡ value / 2 ^ host_bits)
unfolding range_of
range_of-members value host_bits v6 n x =
    let mask = 2 ^ host_bits in
    let some_mask = one-le-pow host_bits 2 (omega arith) in
    (
      λ h. div-eq_of_lt-le mask (h.0) (grind (arith, h.1, some_mask)),
      λ e. (
        subst (λ q. q * mask ≤ x) e (div-mul-le_self x mask),
        omega (arith, subst (λ q. x < q * mask + mask) e (lt-div-mul-add some_mask)),
      ),
    )

no_slash : (s : Text) → any (λ c. c == b'/') s ≡ false → last_index_of (codes "/") s ≡ none
unfolding last_index_of starts_with
no_slash [] h = refl
no_slash (c ∷ s) h = rw (no_slash s (ground arith)) (ground arith)

last_index_of-after :
    (addr len : Text)
    → any (λ c. c == b'/') len ≡ false
    → last_index_of (codes "/") (addr ++ b'/' ∷ len) ≡ some (length addr)
unfolding last_index_of starts_with
last_index_of-after [] len h = rw (no_slash len h) refl
last_index_of-after (c ∷ addr) len h = rw (last_index_of-after addr len h) refl

take-address : (addr rest : Text) → take (length addr) (addr ++ rest) ≡ addr
take-address [] rest = refl
take-address (c ∷ addr) rest = ap (◌∷◌ c) (take-address addr rest)

drop-address :
    (addr : Text) (c : ℕ) (rest : Text) → drop (length addr + 1) (addr ++ c ∷ rest) ≡ rest
drop-address [] c rest = refl
drop-address (d ∷ addr) c rest =
    ap (λ n. drop n (d ∷ (addr ++ c ∷ rest))) (ap_suc (length addr)) ∙ drop-address addr c rest
  where
    ap_suc : (n : ℕ) → suc n + 1 ≡ suc (n + 1)
    ap_suc n = omega arith

parse_range-some :
    (addr : Text) (n value : ℕ)
    → n ≤ bits_of addr
    → ip_to_hex addr ≡ some value
    → parse_range addr (some n) ≡ some (range_of value (bits_of addr - n) (not (is_ipv4 addr)) n)
unfolding parse_range
parse_range-some addr n value fits is_value = elim (Bool-cases (ltb (bits_of addr) n)) [
  | inl over ↦ absurd (omega (arith, fits, ltb→lt (bits_of addr) n over))
  | inr within ↦ rw (within, is_value) refl
]

prefix_to_range-parts :
    (number : Text → Option ℕ) (addr len : Text)
    → any (λ c. c == b'/') len ≡ false
    → prefix_to_range number (addr ++ b'/' ∷ len) ≡ parse_range addr (number len)
unfolding prefix_to_range
prefix_to_range-parts number addr len h =
    rw (last_index_of-after addr len h, prefix_to_range)
      (ap (λ a. parse_range a (number (drop (length addr + 1) (addr ++ b'/' ∷ len))))
          (take-address addr (b'/' ∷ len))
        ∙ ap (λ l. parse_range addr (number l)) (drop-address addr b'/' len))

-- A prefix of a valid address and a length within its width parses, whatever the address's form, and
-- the range holds exactly the addresses that agree with it above the host bits.
pub prefix_to_range-members :
    (number : Text → Option ℕ) (addr len : Text) (n value : ℕ)
    → any (λ c. c == b'/') len ≡ false
    → number len ≡ some n
    → n ≤ bits_of addr
    → ip_to_hex addr ≡ some value
    → (r : IpRange) × (prefix_to_range number (addr ++ b'/' ∷ len) ≡ some r)
      × ((x : ℕ)
          → ((r.start ≤ x) × (x ≤ r.end_))
            ↔ (x / 2 ^ (bits_of addr - n) ≡ value / 2 ^ (bits_of addr - n)))
prefix_to_range-members number addr len n value no_slashes is_n fits is_value = (
  range_of value (bits_of addr - n) (not (is_ipv4 addr)) n,
  prefix_to_range-parts number addr len no_slashes
      ∙ ap (parse_range addr) is_n
      ∙ parse_range-some addr n value fits is_value,
  range_of-members value (bits_of addr - n) (not (is_ipv4 addr)) n,
)
