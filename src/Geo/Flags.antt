-- ===== src/Geo/Flags.antt =====
-- The countries of the tables of public/static/geoData.js, and the flags that stand for them.
use gwsdb.Prelude.{
  Text, text_eq, Bool, true, ◌++◌, some, List, [], ◌∷◌, ◌≡◌, ◌⊎◌, refl, length, every, ◌==◌, arith,
  Option-cases, Bool-cases, inl, inr,
}
use gwsdb.Geo.Data.{Place, get}
use gwsdb.Geo.Data.RegionalFirst.{regional_first}
use gwsdb.Geo.Data.RegionalSecond.{regional_second}
use gwsdb.Geo.Data.RegionalThird.{regional_third}
use gwsdb.Geo.Data.Airports.{airport_codes}
use gwsdb.Geo.Names.{Matched, trim, lower_case, pattern1, pattern2, pattern3, pattern4}
use gwsdb.Geo.{decode, placed, anycast, empty_location, regional_codes, country_code, country_codes}

abbrev has_flag : Text × Place → Bool
has_flag e = length (country_code e.1.country) == 2

every-append :
    (xs ys : List (Text × Place))
    → every has_flag xs ≡ true
    → every has_flag ys ≡ true
    → every has_flag (xs ++ ys) ≡ true
every-append [] ys h k = k
every-append (x ∷ xs) ys h k = ground (arith, every-append xs ys)

first_flagged : every has_flag regional_first ≡ true
unfolding regional_first country_code get text_eq country_codes
first_flagged = refl

second_flagged : every has_flag regional_second ≡ true
unfolding regional_second country_code get text_eq country_codes
second_flagged = refl

third_flagged : every has_flag regional_third ≡ true
unfolding regional_third country_code get text_eq country_codes
third_flagged = refl

airports_flagged : every has_flag airport_codes ≡ true
unfolding airport_codes country_code get text_eq country_codes
airports_flagged = refl

regional_flagged : every has_flag regional_codes ≡ true
unfolding regional_codes
regional_flagged =
    every-append regional_first (regional_second ++ regional_third) first_flagged
      (every-append regional_second regional_third second_flagged third_flagged)

get-flag :
    (key : Text) (table : List (Text × Place)) (place : Place)
    → every has_flag table ≡ true
    → get key table ≡ some place
    → length (country_code place.country) ≡ 2
unfolding get
get-flag key [] place h e = absurd (ground arith)
get-flag key ((k, p) ∷ table) place h e = elim (Bool-cases (text_eq k key)) [
  | inl hit ↦ ground arith
  | inr miss ↦ ground (arith, get-flag key table place)
]

abbrev IsFlagged : Text → Type 0
IsFlagged country = (country ≡ []) ⊎ (length (country_code country) ≡ 2)

placed-flag :
    (hostname : Text) (m : Matched) (table : List (Text × Place))
    → every has_flag table ≡ true
    → IsFlagged (placed hostname m (get m.code table)).country
unfolding placed
placed-flag hostname m table h = elim (Option-cases (get m.code table)) [
  | inl unknown ↦ inl (rw unknown)
  | inr (place, known) ↦ inr (rw known (get-flag m.code table place h known))
]

-- Whatever the host name, the country that `decode` finds for it is none, or one for which
-- `countryCode` has a code of two letters.
pub decode-flag :
    (hostname : Text)
    → ((decode hostname).country ≡ []) ⊎ (length (country_code (decode hostname).country) ≡ 2)
unfolding decode anycast empty_location
decode-flag hostname =
    let h = lower_case (trim hostname) in
    elim (Option-cases (pattern1 h)) [
      | inr (m, e1) ↦ rw (e1, decode) (placed-flag hostname m airport_codes airports_flagged)
      | inl n1 ↦ elim (Option-cases (pattern2 h)) [
        | inr (m, e2) ↦ rw (n1, e2, decode) (placed-flag hostname m regional_codes regional_flagged)
        | inl n2 ↦ elim (Option-cases (pattern3 h)) [
          | inr (m, e3) ↦
              rw (n1, n2, e3, decode) (placed-flag hostname m airport_codes airports_flagged)
          | inl n3 ↦ elim (Option-cases (pattern4 h)) [
            | inr (index, e4) ↦ rw (n1, n2, n3, e4, decode) (inl refl)
            | inl n4 ↦ rw (n1, n2, n3, n4, decode) (inl refl)
          ]
        ]
      ]
    ]
