-- ===== src/Geo/Data/RegionalFirst.antt =====
-- Regional codes, from "bc" to "js" (public/static/geoData.js).
use gwsdb.Prelude.{Text, List, [], ◌∷◌}
use gwsdb.Geo.Data.{Place, entry}

unfoldable pub regional_first : List (Text × Place)
regional_first =
    entry "bc" "Virginia" "United States"
    ∷ entry "bg" "Virginia" "United States"
    ∷ entry "bh" "Virginia" "United States"
    ∷ entry "bi" "Virginia" "United States"
    ∷ entry "bj" "Virginia" "United States"
    ∷ entry "bk" "Virginia" "United States"
    ∷ entry "bl" "Virginia" "United States"
    ∷ entry "bt" "Frankfurt am Main" "Germany"
    ∷ entry "bu" "Melbourne" "Australia"
    ∷ entry "bv" "Melbourne" "Australia"
    ∷ entry "bw" "Melbourne" "Australia"
    ∷ entry "bx" "Frankfurt am Main" "Germany"
    ∷ entry "by" "Frankfurt am Main" "Germany"
    ∷ entry "bz" "Frankfurt am Main" "Germany"
    ∷ entry "cb" "Santiago" "Chile"
    ∷ entry "ce" "Santiago" "Chile"
    ∷ entry "cf" "Santiago Metropolitan" "Chile"
    ∷ entry "cg" "Santiago" "Chile"
    ∷ entry "cj" "Santiago" "Chile"
    ∷ entry "cm" "Mumbai" "India"
    ∷ entry "cn" "Mumbai" "India"
    ∷ entry "co" "Santiago" "Chile"
    ∷ entry "cu" "Milan" "Italy"
    ∷ entry "cv" "Milan" "Italy"
    ∷ entry "cw" "Milan" "Italy"
    ∷ entry "dd" "Las Vegas, NV" "United States"
    ∷ entry "dg" "Dublin" "Ireland"
    ∷ entry "dh" "Dublin" "Ireland"
    ∷ entry "di" "Dublin" "Ireland"
    ∷ entry "dj" "Dublin" "Ireland"
    ∷ entry "dl" "Las Vegas, NV" "United States"
    ∷ entry "dx" "Mumbai" "India"
    ∷ entry "dy" "Las Vegas, NV" "United States"
    ∷ entry "dz" "Las Vegas, NV" "United States"
    ∷ entry "ea" "Groningen" "Netherlands"
    ∷ entry "eb" "Groningen" "Netherlands"
    ∷ entry "ec" "Groningen" "Netherlands"
    ∷ entry "ed" "Groningen" "Netherlands"
    ∷ entry "ef" "Groningen" "Netherlands"
    ∷ entry "eg" "Groningen" "Netherlands"
    ∷ entry "eh" "Groningen" "Netherlands"
    ∷ entry "ei" "Groningen" "Netherlands"
    ∷ entry "ej" "Groningen" "Netherlands"
    ∷ entry "el" "Groningen" "Netherlands"
    ∷ entry "en" "Groningen" "Netherlands"
    ∷ entry "eq" "Groningen" "Netherlands"
    ∷ entry "er" "Groningen" "Netherlands"
    ∷ entry "et" "Madrid" "Spain"
    ∷ entry "eu" "Madrid" "Spain"
    ∷ entry "ev" "Madrid" "Spain"
    ∷ entry "ew" "Madrid" "Spain"
    ∷ entry "fa" "Seoul" "South Korea"
    ∷ entry "fb" "Seoul" "South Korea"
    ∷ entry "fc" "Seoul" "South Korea"
    ∷ entry "ff" "Seoul" "South Korea"
    ∷ entry "fg" "Seoul" "South Korea"
    ∷ entry "fh" "Jakarta" "Indonesia"
    ∷ entry "fi" "Jakarta" "Indonesia"
    ∷ entry "fj" "Jakarta" "Indonesia"
    ∷ entry "fk" "Jakarta" "Indonesia"
    ∷ entry "fl" "Virginia" "United States"
    ∷ entry "fm" "Virginia" "United States"
    ∷ entry "fn" "Virginia" "United States"
    ∷ entry "fo" "Jakarta" "Indonesia"
    ∷ entry "fq" "Sydney" "Australia"
    ∷ entry "fr" "Sydney" "Australia"
    ∷ entry "fs" "Frankfurt am Main" "Germany"
    ∷ entry "ft" "São Paulo" "Brazil"
    ∷ entry "fu" "São Paulo" "Brazil"
    ∷ entry "fv" "São Paulo" "Brazil"
    ∷ entry "fw" "Mumbai" "India"
    ∷ entry "fx" "Mumbai" "India"
    ∷ entry "fy" "Mumbai" "India"
    ∷ entry "ga" "Columbus, OH" "United States"
    ∷ entry "gb" "Columbus, OH" "United States"
    ∷ entry "gc" "" "United States"
    ∷ entry "gd" "" "United States"
    ∷ entry "ge" "" "United States"
    ∷ entry "gf" "" "United States"
    ∷ entry "gg" "" "United States"
    ∷ entry "gh" "Columbus, OH" "United States"
    ∷ entry "gi" "Atlanta, GA" "United States"
    ∷ entry "gj" "" "United States"
    ∷ entry "gk" "" "United States"
    ∷ entry "gl" "Columbus, OH" "United States"
    ∷ entry "gm" "Columbus, OH" "United States"
    ∷ entry "go" "Columbus, OH" "United States"
    ∷ entry "gq" "Sydney" "Australia"
    ∷ entry "gv" "Tel Aviv" "Israel"
    ∷ entry "ha" "Mumbai" "India"
    ∷ entry "hb" "Mumbai" "India"
    ∷ entry "hc" "Mumbai" "India"
    ∷ entry "hd" "Montréal" "Canada"
    ∷ entry "he" "Montréal" "Canada"
    ∷ entry "hf" "Montréal" "Canada"
    ∷ entry "hg" "Los Angeles, CA" "United States"
    ∷ entry "hh" "Los Angeles, CA" "United States"
    ∷ entry "hi" "Los Angeles, CA" "United States"
    ∷ entry "hj" "" "Hong Kong"
    ∷ entry "hk" "" "Hong Kong"
    ∷ entry "hl" "" "Hong Kong"
    ∷ entry "hm" "Los Angeles, CA" "United States"
    ∷ entry "ho" "Los Angeles, CA" "United States"
    ∷ entry "hq" "Osaka" "Japan"
    ∷ entry "hr" "Osaka" "Japan"
    ∷ entry "hs" "Osaka" "Japan"
    ∷ entry "hw" "Zürich" "Switzerland"
    ∷ entry "hx" "Zürich" "Switzerland"
    ∷ entry "hy" "Zürich" "Switzerland"
    ∷ entry "hz" "Paris" "France"
    ∷ entry "ia" "" "United States"
    ∷ entry "ib" "" "United States"
    ∷ entry "ic" "" "United States"
    ∷ entry "ie" "" "United States"
    ∷ entry "if" "" "United States"
    ∷ entry "ii" "Zürich" "Switzerland"
    ∷ entry "ik" "" "United States"
    ∷ entry "il" "" "United States"
    ∷ entry "im" "" "United States"
    ∷ entry "in" "" "United States"
    ∷ entry "io" "" "United States"
    ∷ entry "iq" "" "United States"
    ∷ entry "ir" "" "United States"
    ∷ entry "is" "" "United States"
    ∷ entry "it" "" "United States"
    ∷ entry "iu" "" "United States"
    ∷ entry "iv" "" "United States"
    ∷ entry "iw" "" "United States"
    ∷ entry "ix" "" "United States"
    ∷ entry "iy" "" "United States"
    ∷ entry "iz" "" "United States"
    ∷ entry "ja" "" "United States"
    ∷ entry "jb" "" "United States"
    ∷ entry "jc" "" "United States"
    ∷ entry "jd" "" "United States"
    ∷ entry "je" "" "United States"
    ∷ entry "jf" "" "United States"
    ∷ entry "jg" "" "United States"
    ∷ entry "jh" "" "United States"
    ∷ entry "ji" "" "United States"
    ∷ entry "jj" "" "United States"
    ∷ entry "jl" "" "United States"
    ∷ entry "jm" "" "United States"
    ∷ entry "jn" "" "United States"
    ∷ entry "jo" "" "United States"
    ∷ entry "jp" "" "United States"
    ∷ entry "jq" "" "United States"
    ∷ entry "jr" "" "United States"
    ∷ entry "js" "Council Bluffs, IA" "United States"
    ∷ []
