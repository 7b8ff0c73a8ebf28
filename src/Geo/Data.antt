-- ===== src/Geo/Data.antt =====
-- The places that the names of Google's servers stand for (public/static/geoData.js), in the order
-- of the source. Each object is a list of its keys and values, and a key of an object stands once.
pub mod RegionalFirst
pub mod RegionalSecond
pub mod RegionalThird
pub mod Airports
use Prim.Native.String.{String}
use gwsdb.Prelude.{Text, codes, text_eq, Option, none, some, List, [], ◌∷◌, if◌then◌else◌}

pub record Place : Type 0 where
  pub city : Text
  pub country : Text

abbrev pub entry : String → String → String → Text × Place
entry code city country = (codes code, record { city = codes city; country = codes country })

-- `object[key]`, for keys that name no property of every object.
unfoldable pub get : {A : Type 0} → Text → List (Text × A) → Option A
unfolding text_eq
get key [] = none
get key ((k, a) ∷ rest) = if text_eq k key then some a else get key rest
