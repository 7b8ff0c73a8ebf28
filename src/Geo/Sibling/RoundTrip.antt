-- ===== src/Geo/Sibling/RoundTrip.antt =====
-- The two names of a server lead to each other (public/static/geo.js).
use mathlib.Core.List.{append_assoc}
use gwsdb.Prelude.{
  ℕ, ◌-◌, ◌≤◌, ◌<◌, ==_iff, Text, codes, text_eq_refl, true, not, some, [], ◌∷◌, ◌++◌, ◌≡◌, refl,
  ap, sym, ◌∙◌, every, length, drop, leb, arith, length-append,
}
use gwsdb.IpAddr.Hex.{lower}
use gwsdb.Dns.Names.{strip_dot}
use gwsdb.Geo.Names.{Marker, trim, trim_start, trim_end, lower_case}
use gwsdb.Geo.Sibling.{
  ends_with, is_hostname, last_index, is_line_end, sibling_match, other_base, sibling_hostname,
}
use gwsdb.Geo.Sibling.Digits.{
  host_end, decimal_index, hex_index, found, is_plain, decimal_found, hex_found, decimal_other,
  hex_other, decimal_plain, hex_plain,
}

abbrev IsPlain : Text → Type 0
IsPlain s = every is_plain s ≡ true

append-IsPlain : (s t : Text) → IsPlain s → IsPlain t → IsPlain (s ++ t)
append-IsPlain [] t h k = k
append-IsPlain (c ∷ s) t h k = ground (arith, append-IsPlain s t)

trim_end_plain : (s : Text) → IsPlain s → trim_end s ≡ s
unfolding trim_end
trim_end_plain [] h = refl
trim_end_plain (c ∷ []) h = ground arith
trim_end_plain (c ∷ d ∷ s) h = rw (trim_end_plain (d ∷ s) (ground arith))

trim_start_plain : (s : Text) → IsPlain s → trim_start s ≡ s
unfolding trim_start
trim_start_plain [] h = refl
trim_start_plain (c ∷ s) h = ground arith

lower_case_plain : (s : Text) → IsPlain s → lower_case s ≡ s
unfolding lower_case
lower_case_plain [] h = refl
lower_case_plain (c ∷ s) h = ground (arith, lower_case_plain s, ==_iff (lower c) c)

-- `hostname.trim().toLowerCase()`
normal_plain : (s : Text) → IsPlain s → lower_case (trim s) ≡ s
unfolding trim
normal_plain s h =
    ap (λ t. lower_case (trim_start t)) (trim_end_plain s h)
    ∙ ap lower_case (trim_start_plain s h)
    ∙ lower_case_plain s h

strip_dot-host_end : (s : Text) → strip_dot (s ++ host_end) ≡ s ++ host_end
unfolding strip_dot
strip_dot-host_end [] = refl
strip_dot-host_end (c ∷ []) = refl
strip_dot-host_end (c ∷ d ∷ s) = ap (◌∷◌ c) (strip_dot-host_end (d ∷ s))

drop-append : (s t : Text) → drop (length s) (s ++ t) ≡ t
drop-append [] t = refl
drop-append (c ∷ s) t = drop-append s t

ends_with-append : (s t : Text) → ends_with (s ++ t) t ≡ true
unfolding ends_with
ends_with-append s t =
    let size : length (s ++ t) - length t ≡ length s = omega (arith, length-append s t) in
    let fits : leb (length t) (length (s ++ t)) ≡ true = ground (arith, length-append s t) in
    rw (fits, size, drop-append s t) (text_eq_refl t)

last_index-append :
    (s t : Text) (m : Marker)
    → last_index t ≡ found m
    → last_index (s ++ t) ≡ some (record { before = s; index = m; suffix = host_end })
unfolding last_index
last_index-append [] t m h = h
last_index-append (c ∷ s) t m h = rw (last_index-append s t m h)

line_plain : (s : Text) → IsPlain s → every (λ c. not (is_line_end c)) s ≡ true
line_plain [] h = refl
line_plain (c ∷ s) h = ground (arith, line_plain s)

-- The name of a server whose index stands after `before`.
abbrev pub decimal_name : Text → ℕ → Text
decimal_name before n = before ++ (decimal_index n ++ host_end)

abbrev pub hex_name : Text → ℕ → Text
hex_name before n = before ++ (hex_index n ++ host_end)

sibling_of :
    (before index : Text) (m : Marker) (other : Text)
    → 1 ≤ length before
    → IsPlain before
    → IsPlain (index ++ host_end)
    → last_index (index ++ host_end) ≡ found m
    → other_base m ≡ some other
    → sibling_hostname (before ++ (index ++ host_end))
      ≡ some (before ++ (codes "-in-" ++ (other ++ host_end)))
unfolding sibling_hostname is_hostname sibling_match
sibling_of before index m other some_before plain plain_index here base =
    let normal =
      normal_plain (before ++ (index ++ host_end))
        (append-IsPlain before (index ++ host_end) plain plain_index) in
    let last = last_index-append before (index ++ host_end) m here in
    let long : leb 1 (length before) ≡ true = ground arith in
    let ends : ends_with (strip_dot (before ++ (index ++ host_end))) host_end ≡ true =
      rw (sym (append_assoc before index host_end), strip_dot-host_end (before ++ index))
        (ends_with-append (before ++ index) host_end) in
    rw (normal, ends, last, long, line_plain before plain, base)

-- A server's name that is trimmed and lower-case, with its index below 256 in base 10 after some
-- text, has the name with the index in base 16 for its sibling, and that name has it.
pub sibling_hostname-swaps :
    (before : Text) (n : ℕ)
    → 1 ≤ length before
    → every is_plain before ≡ true
    → n < 256
    → (sibling_hostname (decimal_name before n) ≡ some (hex_name before n))
      × (sibling_hostname (hex_name before n) ≡ some (decimal_name before n))
sibling_hostname-swaps before n some_before plain small = (
  sibling_of before (decimal_index n) _ _ some_before plain (decimal_plain n small)
      (decimal_found n small) (decimal_other n small),
  sibling_of before (hex_index n) _ _ some_before plain (hex_plain n small) (hex_found n small)
      (hex_other n small),
)
