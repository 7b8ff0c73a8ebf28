-- ===== src/Markup.antt =====
-- The language's own text functions that the pages are made with: template literals,
-- `encodeURIComponent` and the test of a text.
pub mod Outline
use gwsdb.Prelude.{
  ℕ, Text, codes, Bool, true, false, not, ◌&&◌, ◌||◌, List, [], ◌∷◌, ◌++◌, map, any, concat, ltb,
  leb, ◌==◌, ◌+◌, ◌-◌, ◌*◌, ◌/◌, ◌%◌, if◌then◌else◌,
}

-- A template literal, from its pieces in their order.
unfoldable pub template : List Text → Text
template pieces = concat pieces

-- A text where a Boolean is expected.
unfoldable pub is_truthy : Text → Bool
is_truthy [] = false
is_truthy (c ∷ s) = true

-- `xs.length` where a Boolean is expected.
unfoldable pub has_any : {A : Type 0} → List A → Bool
has_any [] = false
has_any (x ∷ xs) = true

abbrev is_between : ℕ → ℕ → ℕ → Bool
is_between lo hi c = leb lo c && leb c hi

-- The characters that `encodeURIComponent` leaves alone.
unfoldable pub is_unreserved : ℕ → Bool
is_unreserved c =
    is_between b'a' b'z' c
    || (is_between b'A' b'Z' c || (is_between b'0' b'9' c || any (λ d. c == d) (codes "-_.!~*'()")))

unfoldable pub upper_digit : ℕ → ℕ
upper_digit d = if ltb d 10 then b'0' + d else b'A' + (d - 10)

-- A byte as `%XX`.
unfoldable pub percent : ℕ → Text
unfolding upper_digit
percent b = b'%' ∷ upper_digit (b / 16 % 16) ∷ upper_digit (b % 16) ∷ []

-- The bytes of a code point in UTF-8.
unfoldable pub utf8_bytes : ℕ → List ℕ
utf8_bytes p =
    if ltb p 128
    then p ∷ []
    else if ltb p 2048
    then (192 + p / 64) ∷ (128 + p % 64) ∷ []
    else if ltb p 65536
    then (224 + p / 4096) ∷ (128 + p / 64 % 64) ∷ (128 + p % 64) ∷ []
    else (240 + p / 262144) ∷ (128 + p / 4096 % 64) ∷ (128 + p / 64 % 64) ∷ (128 + p % 64) ∷ []

abbrev is_lead : ℕ → Bool
is_lead c = is_between 55296 56319 c

-- The code points of a text of UTF-16 units. The first argument is the lead of a pair, 0 where none
-- is open. A text with a lone surrogate, for which `encodeURIComponent` throws, is not modelled.
unfoldable pub code_points : ℕ → Text → List ℕ
code_points lead [] = []
code_points lead (c ∷ s) =
    let pair = (65536 + (lead - 55296) * 1024 + (c - 56320)) ∷ code_points 0 s in
    let opened = code_points c s in
    let single = c ∷ code_points 0 s in
    if not (lead == 0) then pair else if is_lead c then opened else single

unfoldable pub encode_point : ℕ → Text
unfolding is_unreserved utf8_bytes percent
encode_point p = if is_unreserved p then p ∷ [] else concat (map percent (utf8_bytes p))

unfoldable pub encode_uri_component : Text → Text
unfolding code_points encode_point
encode_uri_component s = concat (map encode_point (code_points 0 s))
