-- ===== src/Geo.antt =====
-- Where a server of Google stands, by its PTR name (public/static/geo.js, which src/geo.ts passes on
-- to the server's side): `decode`, `siblingHostname`, `decodeBest` and `countryCode`.
-- Each regular expression is read from the left; where one of its parts could match in two ways, the
-- text below says why that makes no difference. `toLowerCase` is that of ASCII letters.
pub mod Data
pub mod Names
pub mod Flags
pub mod Best
pub mod Sibling
use gwsdb.Prelude.{
  ℕ, ◌+◌, suc, Text, codes, text_eq, Bool, true, false, ◌&&◌, ◌||◌, Option, none, some, List, [],
  ◌∷◌, ◌++◌, ltb, leb, length, ◌==◌, if◌then◌else◌, or_else,
}
use gwsdb.Geo.Data.{Place, get}
use gwsdb.Geo.Data.RegionalFirst.{regional_first}
use gwsdb.Geo.Data.RegionalSecond.{regional_second}
use gwsdb.Geo.Data.RegionalThird.{regional_third}
use gwsdb.Geo.Data.Airports.{airport_codes}
use gwsdb.Geo.Names.{Matched, trim, lower_case, pattern1, pattern2, pattern3, pattern4}

pub record Location : Type 0 where
  pub hostname : Text
  pub airport_code : Text
  pub cluster : Text
  pub server_index : Text
  pub city : Text
  pub country : Text
  pub matched : Bool

unfoldable pub empty_location : Text → Location
empty_location hostname = record {
  hostname = hostname;
  airport_code = [];
  cluster = [];
  server_index = [];
  city = [];
  country = [];
  matched = false;
}

abbrev city_of : Option Place → Text
city_of none = []
city_of (some place) = place.city

abbrev pub country_of : Option Place → Text
country_of none = []
country_of (some place) = place.country

-- What a pattern has matched, with the place that its code has in a table.
unfoldable pub placed : Text → Matched → Option Place → Location
placed hostname m place = record {
  hostname = hostname;
  airport_code = m.code;
  cluster = m.cluster;
  server_index = m.index;
  city = city_of place;
  country = country_of place;
  matched = true;
}

-- The branch of pattern 4.
unfoldable pub anycast : Text → Text → Location
anycast hostname index = record {
  hostname = hostname;
  airport_code = codes "any";
  cluster = [];
  server_index = codes "0x" ++ index;
  city = codes "Anycast";
  country = [];
  matched = true;
}

unfoldable pub regional_codes : List (Text × Place)
unfolding regional_first regional_second regional_third
regional_codes = regional_first ++ (regional_second ++ regional_third)

unfoldable pub decode : Text → Location
unfolding empty_location placed anycast pattern1 pattern2 pattern3 pattern4 trim lower_case get
decode hostname =
    let h = lower_case (trim hostname) in
    elim (pattern1 h) [
      | some m ↦ placed hostname m (get m.code airport_codes)
      | none ↦ elim (pattern2 h) [
        | some m ↦ placed hostname m (get m.code regional_codes)
        | none ↦ elim (pattern3 h) [
          | some m ↦ placed hostname m (get m.code airport_codes)
          | none ↦ elim (pattern4 h) [
            | some index ↦ anycast hostname index
            | none ↦ empty_location hostname
          ]
        ]
      ]
    ]

unfoldable pub decode_rank : Location → ℕ
unfolding text_eq
decode_rank loc =
    let base =
      if text_eq loc.airport_code (codes "any")
      then 1
      else if length loc.airport_code == 2
      then 2
      else 3 in
    if loc.matched then base + (if text_eq loc.country [] then 0 else 10) else 0

-- `rank > bestRank`
unfoldable pub outranks : Location → Option Location → Bool
unfolding decode_rank
outranks loc none = true
outranks loc (some best) = ltb (decode_rank best) (decode_rank loc)

-- The loop of `decodeBest`. The best rank starts below every rank, so there is none at first.
unfoldable pub best_from : Option Location → List Text → Option Location
unfolding decode outranks
best_from best [] = best
best_from best (h ∷ hostnames) =
    let loc = decode h in best_from (if outranks loc best then some loc else best) hostnames

unfoldable pub decode_best : List Text → Location
unfolding best_from empty_location
decode_best hostnames = or_else (best_from none hostnames) (empty_location [])

unfoldable pub country_codes : List (Text × Text)
country_codes =
    (codes "Argentina", codes "ar")
    ∷ (codes "Australia", codes "au")
    ∷ (codes "Austria", codes "at")
    ∷ (codes "Belgium", codes "be")
    ∷ (codes "Brazil", codes "br")
    ∷ (codes "Bulgaria", codes "bg")
    ∷ (codes "Canada", codes "ca")
    ∷ (codes "Chile", codes "cl")
    ∷ (codes "China", codes "cn")
    ∷ (codes "Colombia", codes "co")
    ∷ (codes "Czechia", codes "cz")
    ∷ (codes "Denmark", codes "dk")
    ∷ (codes "Egypt", codes "eg")
    ∷ (codes "Finland", codes "fi")
    ∷ (codes "France", codes "fr")
    ∷ (codes "Germany", codes "de")
    ∷ (codes "Hong Kong", codes "hk")
    ∷ (codes "Hungary", codes "hu")
    ∷ (codes "India", codes "in")
    ∷ (codes "Indonesia", codes "id")
    ∷ (codes "Ireland", codes "ie")
    ∷ (codes "Israel", codes "il")
    ∷ (codes "Italy", codes "it")
    ∷ (codes "Japan", codes "jp")
    ∷ (codes "Kenya", codes "ke")
    ∷ (codes "Malaysia", codes "my")
    ∷ (codes "Mexico", codes "mx")
    ∷ (codes "Netherlands", codes "nl")
    ∷ (codes "New Zealand", codes "nz")
    ∷ (codes "Nigeria", codes "ng")
    ∷ (codes "Norway", codes "no")
    ∷ (codes "Oman", codes "om")
    ∷ (codes "Peru", codes "pe")
    ∷ (codes "Philippines", codes "ph")
    ∷ (codes "Poland", codes "pl")
    ∷ (codes "Portugal", codes "pt")
    ∷ (codes "Qatar", codes "qa")
    ∷ (codes "Romania", codes "ro")
    ∷ (codes "Saudi Arabia", codes "sa")
    ∷ (codes "Singapore", codes "sg")
    ∷ (codes "South Africa", codes "za")
    ∷ (codes "South Korea", codes "kr")
    ∷ (codes "Spain", codes "es")
    ∷ (codes "Sweden", codes "se")
    ∷ (codes "Switzerland", codes "ch")
    ∷ (codes "Taiwan", codes "tw")
    ∷ (codes "Thailand", codes "th")
    ∷ (codes "United Arab Emirates", codes "ae")
    ∷ (codes "United Kingdom", codes "gb")
    ∷ (codes "United States", codes "us")
    ∷ (codes "Uruguay", codes "uy")
    ∷ []

unfoldable pub country_code : Text → Text
unfolding get country_codes
country_code country = or_else (get country country_codes) []
