-- ===== src/Geo/Data/Airports.antt =====
-- The airport codes (public/static/geoData.js).
use gwsdb.Prelude.{Text, List, [], ◌∷◌}
use gwsdb.Geo.Data.{Place, entry}

unfoldable pub airport_codes : List (Text × Place)
airport_codes =
    entry "act" "Waco, TX" "United States"
    ∷ entry "ama" "Amarillo, TX" "United States"
    ∷ entry "atl" "Atlanta, GA" "United States"
    ∷ entry "aus" "Austin, TX" "United States"
    ∷ entry "auz" "Aurora, IL" "United States"
    ∷ entry "bos" "Boston, MA" "United States"
    ∷ entry "cbf" "Council Bluffs, IA" "United States"
    ∷ entry "chs" "Charleston, SC" "United States"
    ∷ entry "ckv" "Clarksville, TN" "United States"
    ∷ entry "clt" "Charlotte, NC" "United States"
    ∷ entry "cmh" "Columbus, OH" "United States"
    ∷ entry "den" "Denver, CO" "United States"
    ∷ entry "dfw" "Dallas-Fort Worth, TX" "United States"
    ∷ entry "dls" "The Dalles, OR" "United States"
    ∷ entry "ewr" "Newark, NJ" "United States"
    ∷ entry "fwa" "Fort Wayne, IN" "United States"
    ∷ entry "hou" "Houston, TX" "United States"
    ∷ entry "iad" "Ashburn/Washington, VA" "United States"
    ∷ entry "iah" "Houston, TX" "United States"
    ∷ entry "jfk" "New York, NY" "United States"
    ∷ entry "las" "Las Vegas, NV" "United States"
    ∷ entry "lax" "Los Angeles, CA" "United States"
    ∷ entry "lga" "New York, NY" "United States"
    ∷ entry "lhm" "Council Bluffs, IA" "United States"
    ∷ entry "lnk" "Lincoln, NE" "United States"
    ∷ entry "mci" "Kansas City, MO" "United States"
    ∷ entry "mia" "Miami, FL" "United States"
    ∷ entry "mrn" "Morganton, NC" "United States"
    ∷ entry "msp" "Minneapolis, MN" "United States"
    ∷ entry "nuq" "Mountain View, CA" "United States"
    ∷ entry "oak" "Oakland, CA" "United States"
    ∷ entry "okc" "Oklahoma City, OK" "United States"
    ∷ entry "ord" "Chicago, IL" "United States"
    ∷ entry "pao" "Palo Alto, CA" "United States"
    ∷ entry "pdx" "Portland, OR" "United States"
    ∷ entry "phx" "Phoenix, AZ" "United States"
    ∷ entry "rfd" "Rockford, IL" "United States"
    ∷ entry "rno" "Reno, NV" "United States"
    ∷ entry "sea" "Seattle, WA" "United States"
    ∷ entry "sfo" "San Francisco, CA" "United States"
    ∷ entry "sjc" "San Jose, CA" "United States"
    ∷ entry "slc" "Salt Lake City, UT" "United States"
    ∷ entry "stl" "St. Louis, MO" "United States"
    ∷ entry "swo" "Stillwater, OK" "United States"
    ∷ entry "tul" "Tulsa, OK" "United States"
    ∷ entry "uos" "Franklin County, TN" "United States"
    ∷ entry "yul" "Montreal" "Canada"
    ∷ entry "yyz" "Toronto" "Canada"
    ∷ entry "ams" "Amsterdam/Eemshaven" "Netherlands"
    ∷ entry "arn" "Stockholm" "Sweden"
    ∷ entry "ber" "Berlin" "Germany"
    ∷ entry "bru" "Brussels" "Belgium"
    ∷ entry "bud" "Budapest" "Hungary"
    ∷ entry "buh" "Bucharest" "Romania"
    ∷ entry "cdg" "Paris" "France"
    ∷ entry "cph" "Copenhagen" "Denmark"
    ∷ entry "dub" "Dublin" "Ireland"
    ∷ entry "fco" "Rome" "Italy"
    ∷ entry "fra" "Frankfurt" "Germany"
    ∷ entry "gro" "Girona/Barcelona" "Spain"
    ∷ entry "grq" "Groningen" "Netherlands"
    ∷ entry "ham" "Hamburg" "Germany"
    ∷ entry "hel" "Helsinki" "Finland"
    ∷ entry "hem" "Helsinki" "Finland"
    ∷ entry "lcy" "London" "United Kingdom"
    ∷ entry "lhr" "London" "United Kingdom"
    ∷ entry "lis" "Lisbon" "Portugal"
    ∷ entry "lpp" "Lappeenranta" "Finland"
    ∷ entry "mad" "Madrid" "Spain"
    ∷ entry "man" "Manchester" "United Kingdom"
    ∷ entry "mil" "Milan" "Italy"
    ∷ entry "mrs" "Marseille" "France"
    ∷ entry "muc" "Munich" "Germany"
    ∷ entry "mxp" "Milan" "Italy"
    ∷ entry "ork" "Cork" "Ireland"
    ∷ entry "osl" "Oslo" "Norway"
    ∷ entry "otp" "Bucharest" "Romania"
    ∷ entry "par" "Paris" "France"
    ∷ entry "prg" "Prague" "Czechia"
    ∷ entry "ske" "Skien" "Norway"
    ∷ entry "sof" "Sofia" "Bulgaria"
    ∷ entry "vie" "Vienna" "Austria"
    ∷ entry "waw" "Warsaw" "Poland"
    ∷ entry "zrh" "Zurich" "Switzerland"
    ∷ entry "akl" "Auckland" "New Zealand"
    ∷ entry "bkk" "Bangkok" "Thailand"
    ∷ entry "blr" "Bengaluru" "India"
    ∷ entry "bom" "Mumbai" "India"
    ∷ entry "cgk" "Jakarta" "Indonesia"
    ∷ entry "del" "Delhi" "India"
    ∷ entry "gmp" "Seoul" "South Korea"
    ∷ entry "hkg" "Hong Kong" "Hong Kong"
    ∷ entry "hnd" "Tokyo" "Japan"
    ∷ entry "hyd" "Hyderabad" "India"
    ∷ entry "icn" "Seoul" "South Korea"
    ∷ entry "kix" "Osaka" "Japan"
    ∷ entry "kul" "Kuala Lumpur" "Malaysia"
    ∷ entry "maa" "Chennai" "India"
    ∷ entry "mel" "Melbourne" "Australia"
    ∷ entry "mnl" "Manila" "Philippines"
    ∷ entry "nrt" "Tokyo" "Japan"
    ∷ entry "pek" "Beijing" "China"
    ∷ entry "per" "Perth" "Australia"
    ∷ entry "pnq" "Pune" "India"
    ∷ entry "sha" "Shanghai" "China"
    ∷ entry "sin" "Singapore" "Singapore"
    ∷ entry "syd" "Sydney" "Australia"
    ∷ entry "tsa" "Taipei" "Taiwan"
    ∷ entry "bog" "Bogotá" "Colombia"
    ∷ entry "eze" "Buenos Aires" "Argentina"
    ∷ entry "gig" "Rio de Janeiro" "Brazil"
    ∷ entry "gru" "São Paulo" "Brazil"
    ∷ entry "lim" "Lima" "Peru"
    ∷ entry "mex" "Mexico City" "Mexico"
    ∷ entry "mvd" "Montevideo" "Uruguay"
    ∷ entry "qro" "Querétaro" "Mexico"
    ∷ entry "rio" "Rio de Janeiro" "Brazil"
    ∷ entry "scl" "Santiago" "Chile"
    ∷ entry "cai" "Cairo" "Egypt"
    ∷ entry "dia" "Doha" "Qatar"
    ∷ entry "dmm" "Dammam" "Saudi Arabia"
    ∷ entry "doh" "Doha" "Qatar"
    ∷ entry "dxb" "Dubai" "United Arab Emirates"
    ∷ entry "fjr" "Fujairah" "United Arab Emirates"
    ∷ entry "jnb" "Johannesburg" "South Africa"
    ∷ entry "los" "Lagos State" "Nigeria"
    ∷ entry "mba" "Mombasa" "Kenya"
    ∷ entry "mct" "Muscat" "Oman"
    ∷ entry "tlv" "Tel Aviv" "Israel"
    ∷ []
