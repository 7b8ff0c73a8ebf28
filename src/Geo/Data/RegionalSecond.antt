-- ===== src/Geo/Data/RegionalSecond.antt =====
-- Regional codes, from "jt" to "sr" (public/static/geoData.js).
use gwsdb.Prelude.{Text, List, [], ◌∷◌}
use gwsdb.Geo.Data.{Place, entry}

unfoldable pub regional_second : List (Text × Place)
regional_second =
    entry "jt" "Council Bluffs, IA" "United States"
    ∷ entry "jv" "" "United States"
    ∷ entry "jw" "" "United States"
    ∷ entry "jx" "" "United States"
    ∷ entry "jy" "" "United States"
    ∷ entry "jz" "" "United States"
    ∷ entry "kz" "Zürich" "Switzerland"
    ∷ entry "la" "" "Finland"
    ∷ entry "lb" "" "Finland"
    ∷ entry "le" "" "Finland"
    ∷ entry "lf" "" "Finland"
    ∷ entry "lg" "" "Finland"
    ∷ entry "lh" "" "Finland"
    ∷ entry "li" "" "Finland"
    ∷ entry "lj" "" "Finland"
    ∷ entry "lk" "" "Finland"
    ∷ entry "lm" "" "Finland"
    ∷ entry "lo" "" "Finland"
    ∷ entry "lq" "" "Finland"
    ∷ entry "lr" "" "Finland"
    ∷ entry "lt" "" "Finland"
    ∷ entry "lu" "" "Finland"
    ∷ entry "lx" "Tel Aviv" "Israel"
    ∷ entry "ly" "Mumbai" "India"
    ∷ entry "ma" "Tennessee" "United States"
    ∷ entry "mb" "" "United States"
    ∷ entry "md" "Tennessee" "United States"
    ∷ entry "me" "Tennessee" "United States"
    ∷ entry "mf" "" "United States"
    ∷ entry "mg" "" "United States"
    ∷ entry "mh" "" "United States"
    ∷ entry "mj" "" "United States"
    ∷ entry "mr" "" "United States"
    ∷ entry "mu" "Milan" "Italy"
    ∷ entry "my" "Mumbai" "India"
    ∷ entry "na" "Oklahoma" "United States"
    ∷ entry "nb" "Tulsa, OK" "United States"
    ∷ entry "nd" "Tulsa, OK" "United States"
    ∷ entry "ne" "" "United States"
    ∷ entry "nf" "Tulsa, OK" "United States"
    ∷ entry "ng" "Tulsa, OK" "United States"
    ∷ entry "nh" "" "Israel"
    ∷ entry "nj" "" "United States"
    ∷ entry "nk" "" "United States"
    ∷ entry "nl" "" "United States"
    ∷ entry "nm" "Tulsa, OK" "United States"
    ∷ entry "nn" "Tulsa, OK" "United States"
    ∷ entry "nq" "" "Hong Kong"
    ∷ entry "nr" "Santiago" "Chile"
    ∷ entry "nt" "Warsaw" "Poland"
    ∷ entry "nu" "Delhi" "India"
    ∷ entry "nv" "Delhi" "India"
    ∷ entry "nw" "Delhi" "India"
    ∷ entry "nx" "Tel Aviv" "Israel"
    ∷ entry "ny" "" "United States"
    ∷ entry "nz" "" "United States"
    ∷ entry "oa" "Tulsa, OK" "United States"
    ∷ entry "ob" "Oklahoma" "United States"
    ∷ entry "oc" "Oklahoma" "United States"
    ∷ entry "od" "Tulsa, OK" "United States"
    ∷ entry "oe" "" "United States"
    ∷ entry "og" "" "United States"
    ∷ entry "oi" "Oklahoma" "United States"
    ∷ entry "oj" "" "United States"
    ∷ entry "ok" "Oklahoma" "United States"
    ∷ entry "om" "" "United States"
    ∷ entry "on" "" "United States"
    ∷ entry "oo" "Oklahoma" "United States"
    ∷ entry "oq" "Tulsa, OK" "United States"
    ∷ entry "or" "" "United States"
    ∷ entry "os" "" "United States"
    ∷ entry "ot" "Oklahoma" "United States"
    ∷ entry "ou" "Oklahoma" "United States"
    ∷ entry "ov" "Oklahoma" "United States"
    ∷ entry "ow" "Oklahoma" "United States"
    ∷ entry "ox" "Oklahoma" "United States"
    ∷ entry "oy" "Tulsa, OK" "United States"
    ∷ entry "oz" "Tulsa, OK" "United States"
    ∷ entry "pa" "" "United States"
    ∷ entry "pb" "" "United States"
    ∷ entry "pc" "" "United States"
    ∷ entry "pd" "Virginia" "United States"
    ∷ entry "pe" "Virginia" "United States"
    ∷ entry "pf" "The Dalles, OR" "United States"
    ∷ entry "pg" "The Dalles, OR" "United States"
    ∷ entry "ph" "The Dalles, OR" "United States"
    ∷ entry "pi" "The Dalles, OR" "United States"
    ∷ entry "pj" "The Dalles, OR" "United States"
    ∷ entry "pl" "The Dalles, OR" "United States"
    ∷ entry "pm" "Frankfurt am Main" "Germany"
    ∷ entry "pt" "Mumbai" "India"
    ∷ entry "pu" "Mumbai" "India"
    ∷ entry "pv" "The Dalles, OR" "United States"
    ∷ entry "pw" "The Dalles, OR" "United States"
    ∷ entry "px" "The Dalles, OR" "United States"
    ∷ entry "py" "The Dalles, OR" "United States"
    ∷ entry "pz" "The Dalles, OR" "United States"
    ∷ entry "qa" "North Carolina" "United States"
    ∷ entry "qb" "North Carolina" "United States"
    ∷ entry "qc" "North Carolina" "United States"
    ∷ entry "qf" "Salt Lake City, UT" "United States"
    ∷ entry "qi" "North Carolina" "United States"
    ∷ entry "qj" "" "United States"
    ∷ entry "qk" "North Carolina" "United States"
    ∷ entry "ql" "" "United States"
    ∷ entry "qm" "North Carolina" "United States"
    ∷ entry "qn" "North Carolina" "United States"
    ∷ entry "qo" "North Carolina" "United States"
    ∷ entry "qr" "North Carolina" "United States"
    ∷ entry "qs" "North Carolina" "United States"
    ∷ entry "qt" "North Carolina" "United States"
    ∷ entry "qu" "North Carolina" "United States"
    ∷ entry "qv" "North Carolina" "United States"
    ∷ entry "qw" "Columbus, OH" "United States"
    ∷ entry "qy" "Salt Lake City, UT" "United States"
    ∷ entry "ra" "" "Netherlands"
    ∷ entry "rb" "" "Netherlands"
    ∷ entry "rf" "Paris" "France"
    ∷ entry "rg" "Columbus, OH" "United States"
    ∷ entry "rj" "Tokyo" "Japan"
    ∷ entry "rk" "Tokyo" "Japan"
    ∷ entry "rl" "Tokyo" "Japan"
    ∷ entry "ro" "" "United States"
    ∷ entry "rq" "Dallas, TX" "United States"
    ∷ entry "rr" "Dallas, TX" "United States"
    ∷ entry "rs" "Dallas, TX" "United States"
    ∷ entry "rt" "Dallas, TX" "United States"
    ∷ entry "ru" "" "United States"
    ∷ entry "rv" "" "United States"
    ∷ entry "rw" "Dallas, TX" "United States"
    ∷ entry "rx" "Tokyo" "Japan"
    ∷ entry "ry" "Virginia" "United States"
    ∷ entry "rz" "Virginia" "United States"
    ∷ entry "sa" "Singapore" "Singapore"
    ∷ entry "sb" "Singapore" "Singapore"
    ∷ entry "sc" "Singapore" "Singapore"
    ∷ entry "sd" "Singapore" "Singapore"
    ∷ entry "se" "Singapore" "Singapore"
    ∷ entry "sf" "Singapore" "Singapore"
    ∷ entry "sg" "Singapore" "Singapore"
    ∷ entry "sh" "Singapore" "Singapore"
    ∷ entry "si" "Singapore" "Singapore"
    ∷ entry "sj" "Singapore" "Singapore"
    ∷ entry "sk" "Singapore" "Singapore"
    ∷ entry "sl" "Singapore" "Singapore"
    ∷ entry "sm" "Singapore" "Singapore"
    ∷ entry "sn" "Singapore" "Singapore"
    ∷ entry "so" "Singapore" "Singapore"
    ∷ entry "sq" "Jakarta" "Indonesia"
    ∷ entry "sr" "Jakarta" "Indonesia"
    ∷ []
