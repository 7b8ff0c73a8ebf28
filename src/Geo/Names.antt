-- ===== src/Geo/Names.antt =====
-- The regular expressions of public/static/geo.js over the names of Google's servers.
use gwsdb.Prelude.{
  ℕ, suc, zero, Text, codes, text_eq, Bool, ◌&&◌, ◌||◌, Option, none, some, [], ◌∷◌, ◌++◌, map, leb,
  ◌==◌, if◌then◌else◌, length,
}
use gwsdb.IpAddr.Hex.{is_digit, lower}

-- White space and line ends, which `trim` drops.
unfoldable pub is_space : ℕ → Bool
is_space c =
    (leb 9 c && leb c 13)
    || (c == 32)
    || (c == 160)
    || (c == 5760)
    || (leb 8192 c && leb c 8202)
    || (c == 8232)
    || (c == 8233)
    || (c == 8239)
    || (c == 8287)
    || (c == 12288)
    || (c == 65279)

unfoldable pub trim_start : Text → Text
unfolding is_space
trim_start [] = []
trim_start (c ∷ s) = let rest = trim_start s in if is_space c then rest else c ∷ s

unfoldable pub trim_end : Text → Text
unfolding is_space
trim_end [] = []
trim_end (c ∷ s) = add c (trim_end s)
  where
    add : ℕ → Text → Text
    add d [] = if is_space d then [] else d ∷ []
    add d (e ∷ t) = d ∷ e ∷ t

unfoldable pub trim : Text → Text
unfolding trim_start trim_end
trim s = trim_start (trim_end s)

unfoldable pub lower_case : Text → Text
unfolding lower
lower_case s = map lower s

abbrev is_letter : ℕ → Bool
is_letter c = leb b'a' c && leb c b'z'

-- `[0-9a-f]`
unfoldable pub is_lower_hex : ℕ → Bool
unfolding is_digit
is_lower_hex c = is_digit c || (leb b'a' c && leb c b'f')

-- A part of an expression takes characters off the text, and may fail: what it took, and the rest.
abbrev pub Taken : Type 0
Taken = Option (Text × Text)

abbrev pub and_then : {A B : Type 0} → Option A → (A → Option B) → Option B
and_then none f = none
and_then (some a) f = f a

-- `n` characters of a class.
unfoldable pub exactly : (ℕ → Bool) → ℕ → Text → Taken
exactly p zero s = some ([], s)
exactly p (suc n) [] = none
exactly p (suc n) (c ∷ s) =
    let more = exactly p n s in
    if p c then and_then more (λ (t, rest). some (c ∷ t, rest)) else none

-- As many characters of a class as there are, up to `n`.
unfoldable pub up_to : (ℕ → Bool) → ℕ → Text → Text × Text
up_to p zero s = ([], s)
up_to p (suc n) [] = ([], [])
up_to p (suc n) (c ∷ s) =
    let more = up_to p n s in if p c then (c ∷ more.0, more.1) else ([], c ∷ s)

-- Between `m` and `n` characters of a class. The rest of each expression goes on with a character
-- that is not of the class, so that only the longest match can succeed.
unfoldable pub between : (ℕ → Bool) → ℕ → ℕ → Text → Taken
unfolding exactly up_to
between p m n s =
    and_then (exactly p m s) (λ (t, rest). let more = up_to p n rest in some (t ++ more.0, more.1))

-- A literal text.
unfoldable pub literal : Text → Text → Option Text
literal [] s = some s
literal (c ∷ l) [] = none
literal (c ∷ l) (d ∷ s) = let more = literal l s in if c == d then more else none

-- `\.1e100\.net\.?$`
unfoldable pub is_tail : Text → Bool
unfolding text_eq
is_tail s = text_eq s (codes ".1e100.net") || text_eq s (codes ".1e100.net.")

-- `f(\d{1,3})` or `x([0-9a-f]{2})`
pub data Marker : Type 0 where
  decimal hexadecimal : Text → Marker

unfoldable pub marker : Text → Option (Marker × Text)
unfolding exactly between is_digit is_lower_hex
marker [] = none
marker (c ∷ s) =
    if c == b'f'
    then and_then (between is_digit 1 2 s) (λ (t, rest). some (decimal t, rest))
    else if c == b'x'
    then and_then (exactly is_lower_hex 2 s) (λ (t, rest). some (hexadecimal t, rest))
    else none

-- `m[4] ? m[4] : "0x" + m[5]`, of a part that is not empty.
unfoldable pub server_index : Marker → Text
server_index (decimal t) = t
server_index (hexadecimal t) = codes "0x" ++ t

-- `-in-`, the index, and the end.
unfoldable pub in_index : Text → Option Text
unfolding literal marker is_tail server_index
in_index s =
    and_then (literal (codes "-in-") s)
      (λ r. and_then (marker r) (λ (m, tail). if is_tail tail then some (server_index m) else none))

-- What the first three expressions capture.
pub record Matched : Type 0 where
  pub code : Text
  pub cluster : Text
  pub index : Text

unfoldable pub pattern1 : Text → Option Matched
unfolding exactly is_digit literal in_index
pattern1 h = and_then (exactly is_letter 3 h) (λ (code, h1).
    and_then (exactly is_digit 2 h1) (λ (left, h2). and_then (literal (codes "s") h2) (λ h3.
      and_then (exactly is_digit 2 h3) (λ (right, h4). and_then (in_index h4) (λ index.
        some (record { code = code; cluster = left ++ (codes "s" ++ right); index = index }))))))

unfoldable pub pattern2 : Text → Option Matched
unfolding exactly in_index
pattern2 h = and_then (exactly is_letter 2 h) (λ (code, h1).
    and_then (in_index h1) (λ index. some (record { code = code; cluster = []; index = index })))

abbrev is_tag : ℕ → Bool
is_tag c = is_letter c || is_digit c

-- `(?:-([a-z0-9]+))?-in-…`: with the cluster's tag first, and without it where that fails.
unfoldable pub tagged_index : Text → Option (Text × Text)
unfolding between literal in_index is_digit
tagged_index h =
    let tagged = and_then (literal (codes "-") h) (λ h1.
      and_then (between is_tag 1 (length h1) h1)
        (λ (tag, h2). and_then (in_index h2) (λ index. some (tag, index)))) in
    let plain = and_then (in_index h) (λ index. some ([], index)) in
    elim tagged [ some found ↦ some found | none ↦ plain ]

unfoldable pub pattern3 : Text → Option Matched
unfolding exactly between tagged_index
pattern3 h = and_then (exactly is_letter 2 h) (λ (metro, h1).
    and_then (exactly is_letter 3 h1) (λ (code, h2).
      and_then (between is_letter 1 2 h2) (λ (server, h3).
        and_then (tagged_index h3)
          (λ (cluster, index). some (record { code = code; cluster = cluster; index = index })))))

unfoldable pub pattern4 : Text → Option Text
unfolding between literal is_tail is_lower_hex
pattern4 h = and_then (literal (codes "any-in-") h) (λ h1.
    and_then (between is_lower_hex 2 4 h1)
      (λ (index, tail). if is_tail tail then some index else none))
