-- ===== src/Geo/Data/RegionalThird.antt =====
-- Regional codes, from "st" to "zv" (public/static/geoData.js).
use gwsdb.Prelude.{Text, List, [], ◌∷◌}
use gwsdb.Geo.Data.{Place, entry}

unfoldable pub regional_third : List (Text × Place)
regional_third =
    entry "st" "England" "United Kingdom"
    ∷ entry "sv" "England" "United Kingdom"
    ∷ entry "sx" "Singapore" "Singapore"
    ∷ entry "sy" "Singapore" "Singapore"
    ∷ entry "ta" "Taiwan" "Taiwan"
    ∷ entry "tb" "Taiwan" "Taiwan"
    ∷ entry "tc" "Taiwan" "Taiwan"
    ∷ entry "td" "Taiwan" "Taiwan"
    ∷ entry "tf" "Taipei" "Taiwan"
    ∷ entry "tg" "Taiwan" "Taiwan"
    ∷ entry "th" "Taiwan" "Taiwan"
    ∷ entry "ti" "Taiwan" "Taiwan"
    ∷ entry "tj" "Taiwan" "Taiwan"
    ∷ entry "tk" "Taiwan" "Taiwan"
    ∷ entry "tl" "Taiwan" "Taiwan"
    ∷ entry "tm" "Taiwan" "Taiwan"
    ∷ entry "tp" "Taiwan" "Taiwan"
    ∷ entry "ts" "The Dalles, OR" "United States"
    ∷ entry "tt" "The Dalles, OR" "United States"
    ∷ entry "tu" "Osaka" "Japan"
    ∷ entry "tv" "Osaka" "Japan"
    ∷ entry "tw" "Doha" "Qatar"
    ∷ entry "tx" "Doha" "Qatar"
    ∷ entry "ty" "Doha" "Qatar"
    ∷ entry "ua" "South Carolina" "United States"
    ∷ entry "ub" "South Carolina" "United States"
    ∷ entry "uc" "South Carolina" "United States"
    ∷ entry "ud" "South Carolina" "United States"
    ∷ entry "ue" "South Carolina" "United States"
    ∷ entry "uf" "South Carolina" "United States"
    ∷ entry "ug" "South Carolina" "United States"
    ∷ entry "uh" "South Carolina" "United States"
    ∷ entry "ui" "South Carolina" "United States"
    ∷ entry "uj" "South Carolina" "United States"
    ∷ entry "uk" "South Carolina" "United States"
    ∷ entry "ul" "London" "United Kingdom"
    ∷ entry "um" "London" "United Kingdom"
    ∷ entry "uo" "London" "United Kingdom"
    ∷ entry "uv" "England" "United Kingdom"
    ∷ entry "ux" "South Carolina" "United States"
    ∷ entry "uy" "South Carolina" "United States"
    ∷ entry "vb" "" "United States"
    ∷ entry "vc" "Berlin" "Germany"
    ∷ entry "vd" "Berlin" "Germany"
    ∷ entry "vg" "" "United States"
    ∷ entry "vh" "South Carolina" "United States"
    ∷ entry "vj" "South Carolina" "United States"
    ∷ entry "vk" "South Carolina" "United States"
    ∷ entry "vl" "South Carolina" "United States"
    ∷ entry "vn" "South Carolina" "United States"
    ∷ entry "vo" "South Carolina" "United States"
    ∷ entry "vq" "South Carolina" "United States"
    ∷ entry "vr" "South Carolina" "United States"
    ∷ entry "vs" "South Carolina" "United States"
    ∷ entry "vt" "South Carolina" "United States"
    ∷ entry "vu" "South Carolina" "United States"
    ∷ entry "vw" "South Carolina" "United States"
    ∷ entry "vx" "South Carolina" "United States"
    ∷ entry "vz" "South Carolina" "United States"
    ∷ entry "wa" "Brussels" "Belgium"
    ∷ entry "wb" "Brussels" "Belgium"
    ∷ entry "wd" "Brussels" "Belgium"
    ∷ entry "we" "Brussels" "Belgium"
    ∷ entry "wf" "Brussels" "Belgium"
    ∷ entry "wg" "Brussels" "Belgium"
    ∷ entry "wh" "Brussels" "Belgium"
    ∷ entry "wi" "Brussels" "Belgium"
    ∷ entry "wk" "Brussels" "Belgium"
    ∷ entry "wl" "Brussels" "Belgium"
    ∷ entry "wm" "Brussels" "Belgium"
    ∷ entry "wn" "Brussels" "Belgium"
    ∷ entry "wo" "Brussels" "Belgium"
    ∷ entry "wq" "Brussels" "Belgium"
    ∷ entry "wr" "Brussels" "Belgium"
    ∷ entry "ws" "Brussels" "Belgium"
    ∷ entry "wt" "Frankfurt am Main" "Germany"
    ∷ entry "wu" "Seoul" "South Korea"
    ∷ entry "wv" "Virginia" "United States"
    ∷ entry "ww" "Virginia" "United States"
    ∷ entry "wx" "Turin" "Italy"
    ∷ entry "wy" "Turin" "Italy"
    ∷ entry "wz" "Turin" "Italy"
    ∷ entry "xa" "Tokyo" "Japan"
    ∷ entry "xb" "Tokyo" "Japan"
    ∷ entry "xc" "Tokyo" "Japan"
    ∷ entry "xd" "London" "United Kingdom"
    ∷ entry "xe" "London" "United Kingdom"
    ∷ entry "xf" "London" "United Kingdom"
    ∷ entry "xg" "Virginia" "United States"
    ∷ entry "xh" "Virginia" "United States"
    ∷ entry "xi" "Virginia" "United States"
    ∷ entry "xj" "Frankfurt am Main" "Germany"
    ∷ entry "xk" "Frankfurt am Main" "Germany"
    ∷ entry "xm" "Frankfurt am Main" "Germany"
    ∷ entry "xn" "Sydney" "Australia"
    ∷ entry "xo" "Sydney" "Australia"
    ∷ entry "xq" "Sydney" "Australia"
    ∷ entry "xu" "São Paulo" "Brazil"
    ∷ entry "xv" "São Paulo" "Brazil"
    ∷ entry "xw" "São Paulo" "Brazil"
    ∷ entry "xy" "Frankfurt am Main" "Germany"
    ∷ entry "xz" "Tokyo" "Japan"
    ∷ entry "ya" "Atlanta, GA" "United States"
    ∷ entry "yb" "Atlanta, GA" "United States"
    ∷ entry "yd" "Paris" "France"
    ∷ entry "ye" "Paris" "France"
    ∷ entry "yi" "Atlanta, GA" "United States"
    ∷ entry "yj" "Berlin" "Germany"
    ∷ entry "yk" "" "United States"
    ∷ entry "yl" "Atlanta, GA" "United States"
    ∷ entry "ym" "Atlanta, GA" "United States"
    ∷ entry "yo" "Atlanta, GA" "United States"
    ∷ entry "yq" "Atlanta, GA" "United States"
    ∷ entry "yr" "Atlanta, GA" "United States"
    ∷ entry "ys" "Atlanta, GA" "United States"
    ∷ entry "yt" "Atlanta, GA" "United States"
    ∷ entry "yv" "Atlanta, GA" "United States"
    ∷ entry "yw" "Atlanta, GA" "United States"
    ∷ entry "yx" "Atlanta, GA" "United States"
    ∷ entry "zd" "Salt Lake City, UT" "United States"
    ∷ entry "ze" "Salt Lake City, UT" "United States"
    ∷ entry "zf" "Salt Lake City, UT" "United States"
    ∷ entry "zg" "Tokyo" "Japan"
    ∷ entry "zh" "Tokyo" "Japan"
    ∷ entry "zi" "" "Hong Kong"
    ∷ entry "zj" "Tokyo" "Japan"
    ∷ entry "zk" "Las Vegas, NV" "United States"
    ∷ entry "zl" "Las Vegas, NV" "United States"
    ∷ entry "zm" "Las Vegas, NV" "United States"
    ∷ entry "zo" "Warsaw" "Poland"
    ∷ entry "zq" "Warsaw" "Poland"
    ∷ entry "zr" "Warsaw" "Poland"
    ∷ entry "zs" "Frankfurt am Main" "Germany"
    ∷ entry "zt" "Frankfurt am Main" "Germany"
    ∷ entry "zu" "Frankfurt am Main" "Germany"
    ∷ entry "zv" "Frankfurt am Main" "Germany"
    ∷ []
