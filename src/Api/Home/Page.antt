-- ===== src/Api/Home/Page.antt =====
-- The page of GET / (functions/index.ts), as text, and the rows that it shows (`toIPRow` of src/pool.ts).
-- `href` writes a location of the page as `withParams` does, path and search part: that is URL's.
pub mod Outline
use gwsdb.Prelude.{
  ℕ, Text, codes, text_eq, Bool, true, false, not, ◌||◌, ◌==◌, Option, none, some, List, [], ◌∷◌,
  ◌++◌, map, join, if◌then◌else◌,
}
use gwsdb.Dns.Asn.{decimal_text}
use gwsdb.Store.Reads.{IpStatus, Stats}
use gwsdb.Geo.{decode_best, country_code}
use gwsdb.Html.{escape_html, BuildInfo}
use gwsdb.Html.Shell.{page_shell}
use gwsdb.Html.Time.{format_time}
use gwsdb.Markup.{template, is_truthy, has_any, encode_uri_component}
use gwsdb.Api.Pool.{family_of}
use gwsdb.Api.Home.{
  HomeColumn, HomeParams, sort_columns, active_sort, active_desc, header_link, family_link,
}

pub record IpRow : Type 0 where
  pub ip : Text
  pub revision : ℕ
  pub ptr_list : List Text
  pub country : Text
  pub country_code : Text
  pub status : Text
  pub first_seen : Text
  pub last_seen : Text
  pub last_rtt_ms : ℕ

unfoldable pub status_for : IpStatus → Text
status_for st =
    if not st.has_check
    then codes "-"
    else if st.last_check_ok
    then codes "Reachable"
    else codes "Unreachable"

unfoldable pub row_country : List Text → Text
unfolding decode_best
row_country [] = []
row_country (h ∷ hs) = (decode_best (h ∷ hs)).country

unfoldable pub row_country_code : List Text → Text
unfolding decode_best country_code
row_country_code [] = []
row_country_code (h ∷ hs) = country_code (decode_best (h ∷ hs)).country

unfoldable pub to_ip_row : IpStatus → IpRow
unfolding row_country row_country_code status_for format_time
to_ip_row st = record {
  ip = st.ip;
  revision = st.revision;
  ptr_list = st.ptr_hostname;
  country = row_country st.ptr_hostname;
  country_code = row_country_code st.ptr_hostname;
  status = status_for st;
  first_seen = format_time st.first_seen;
  last_seen = format_time st.last_seen;
  last_rtt_ms = st.last_rtt_ms;
}

-- `statusHTML` of this page.
unfoldable pub row_status_html : Text → Text
unfolding text_eq
row_status_html status =
    if text_eq status (codes "Reachable")
    then template (
        codes "<font color=\"#008000\" title=\"Reachable\" aria-label=\"Reachable\">&#x2713;</font>"
        ∷ [])
    else if text_eq status (codes "Unreachable")
    then template (
        codes
          "<font color=\"#CC0000\" title=\"Unreachable\" aria-label=\"Unreachable\">&#x2717;</font>"
        ∷ [])
    else []

unfoldable pub ptr_list_link : Text → Text
ptr_list_link h = template (
    codes "<a href=\"/query?ip="
    ∷ encode_uri_component h
    ∷ codes "\">"
    ∷ escape_html h
    ∷ codes "</a>"
    ∷ [])

unfoldable pub ptr_cell_html : List Text → Text
unfolding join
ptr_cell_html [] = codes "-"
ptr_cell_html (h ∷ hs) =
    template
      (codes "<tt>" ∷ (join (codes "<br>") (map ptr_list_link (h ∷ hs))) ∷ codes "</tt>" ∷ [])

unfoldable pub country_cell_html : IpRow → Text
unfolding is_truthy
country_cell_html row =
    let img =
      if is_truthy row.country_code
      then template (
          codes "<img src=\"/static/flags/"
          ∷ encode_uri_component row.country_code
          ∷ codes ".gif\" alt=\""
          ∷ escape_html row.country_code
          ∷ codes "\" title=\""
          ∷ escape_html row.country
          ∷ codes "\" height=\"11\"> "
          ∷ [])
      else [] in
    let name = if is_truthy (escape_html row.country) then escape_html row.country else codes "-" in
    img ++ name

-- The status at the start of a row, if it has one of the two.
unfoldable pub row_status : Text → Text
unfolding text_eq
row_status status =
    if text_eq status (codes "Reachable") || text_eq status (codes "Unreachable")
    then template
        (codes "<span class=\"gwsdb-row-status\">" ∷ row_status_html status ∷ codes "</span>" ∷ [])
    else []

unfoldable pub row_class : Text → Text
unfolding text_eq
row_class status =
    if text_eq status (codes "Unreachable") then codes " class=\"gwsdb-unreachable\"" else []

unfoldable pub rtt_text : ℕ → Text
rtt_text ms = if ms == 0 then codes "-" else template ((decimal_text ms) ∷ codes " ms" ∷ [])

unfoldable pub table_row : IpRow → Text
table_row row = template (
    codes "<tr"
    ∷ row_class row.status
    ∷ codes ">\n<td>"
    ∷ row_status row.status
    ∷ codes "<tt><a href=\"/query?ip="
    ∷ encode_uri_component row.ip
    ∷ codes "\">"
    ∷ escape_html row.ip
    ∷ codes "</a></tt></td>\n<td>"
    ∷ ptr_cell_html row.ptr_list
    ∷ codes "</td>\n<td>"
    ∷ country_cell_html row
    ∷ codes "</td>\n<td>"
    ∷ escape_html row.first_seen
    ∷ codes "</td>\n<td>"
    ∷ escape_html row.last_seen
    ∷ codes "</td>\n<td>"
    ∷ rtt_text row.last_rtt_ms
    ∷ codes "</td>\n</tr>"
    ∷ [])

unfoldable pub js_shell_body : Text → Text
unfolding is_truthy
js_shell_body revision =
    let version = if is_truthy revision then template (codes "?v=" ∷ revision ∷ []) else [] in
    template (
      codes "<p>The table below lists tracked Google Web Server (GWS) IP addresses and their "
      ∷ codes "reachability status.</p>\n\n"
      ∷ codes "<noscript><p><i>This page needs JavaScript to fetch and render the IP list "
      ∷ codes "client-side. You should have been redirected automatically -- if not, <a "
      ∷ codes "href=\"/?nojs=1\">click here for the full list</a>.</i></p></noscript>\n\n"
      ∷ codes "<p id=\"poolStatus\">Loading&hellip;</p>\n\n<p>\n"
      ∷ codes
          "<span id=\"visibleCount\">0</span> / <span id=\"familyCount\">0</span> match filter\n"
      ∷ codes "</p>\n\n<p class=\"gwsdb-filters\">\n<span class=\"gwsdb-search-filter\">\n"
      ∷ codes "<input type=\"text\" id=\"searchInput\" placeholder=\"Search IP, PTR or country\" "
      ∷ codes
          "size=\"30\">\n<input type=\"button\" id=\"clearButton\" value=\"Clear\">\n</span>\n</p>\n\n"
      ∷ codes "<div class=\"gwsdb-family-tabs\" role=\"group\" aria-label=\"IP address family\">\n"
      ∷ codes "<input type=\"radio\" id=\"family4\" name=\"family\" value=\"4\" checked>\n"
      ∷ codes "<label for=\"family4\">IPv4</label>\n"
      ∷ codes "<input type=\"radio\" id=\"family6\" name=\"family\" value=\"6\">\n"
      ∷ codes "<label for=\"family6\">IPv6</label>\n</div>\n"
      ∷ codes "<div class=\"gwsdb-scroll gwsdb-tab-panel gwsdb-hidden\" id=\"ipTableWrap\">\n"
      ∷ codes "<table class=\"gwsdb-data gwsdb-pool\" id=\"ipTable\">\n<thead><tr>\n"
      ∷ codes
          "<th scope=\"col\"><a href=\"#\" data-sort=\"ip\" data-sort-desc=\"0\">IP Address<span "
      ∷ codes "class=\"arrow\" data-col=\"ip\">&nbsp;&nbsp;&nbsp;</span></a></th>\n"
      ∷ codes "<th scope=\"col\"><a href=\"#\" data-sort=\"ptr\" data-sort-desc=\"0\">PTR<span "
      ∷ codes "class=\"arrow\" data-col=\"ptr\">&nbsp;&nbsp;&nbsp;</span></a></th>\n"
      ∷ codes
          "<th scope=\"col\"><a href=\"#\" data-sort=\"country\" data-sort-desc=\"0\">Country<span "
      ∷ codes "class=\"arrow\" data-col=\"country\">&nbsp;&nbsp;&nbsp;</span></a></th>\n"
      ∷ codes "<th scope=\"col\"><a href=\"#\" data-sort=\"firstSeen\" data-sort-desc=\"1\">First "
      ∷ codes
          "Seen<span class=\"arrow\" data-col=\"firstSeen\">&nbsp;&nbsp;&nbsp;</span></a></th>\n"
      ∷ codes "<th scope=\"col\"><a href=\"#\" data-sort=\"lastSeen\" data-sort-desc=\"1\">Last "
      ∷ codes
          "Reachable<span class=\"arrow\" data-col=\"lastSeen\">&nbsp;&nbsp;&nbsp;</span></a></th>\n"
      ∷ codes
          "<th scope=\"col\"><a href=\"#\" data-sort=\"rtt\" data-sort-desc=\"1\">Last RTT<span "
      ∷ codes "class=\"arrow\" data-col=\"rtt\">&nbsp;&nbsp;&nbsp;</span></a></th>\n</tr></thead>\n"
      ∷ codes "<tbody id=\"ipTableBody\">\n</tbody>\n</table>\n</div>\n"
      ∷ codes "<p align=\"center\" id=\"pagerWrap\" class=\"gwsdb-pager gwsdb-hidden\">\n"
      ∷ codes
          "<button type=\"button\" id=\"prevButton\" class=\"gwsdb-pager-arrow\">&lt;-</button>\n"
      ∷ codes "<span id=\"pageInfo\"></span>\n"
      ∷ codes
          "<button type=\"button\" id=\"nextButton\" class=\"gwsdb-pager-arrow\">-&gt;</button>\n"
      ∷ codes "</p>\n<script type=\"module\" src=\"/static/home.js"
      ∷ version
      ∷ codes "\"></script>\n\n<hr>\n<table border=\"0\" cellpadding=\"2\" cellspacing=\"0\">\n"
      ∷ codes "<tr><td colspan=\"2\"><b>Statistics</b></td></tr>\n"
      ∷ codes "<tr><td>Total Known IPs</td><td id=\"totalKnownIPs\">-</td></tr>\n"
      ∷ codes "<tr><td>Total Checks</td><td id=\"totalChecks\">-</td></tr>\n"
      ∷ codes "<tr><td>Last Check</td><td id=\"lastCheck\">-</td></tr>\n</table>"
      ∷ [])

module _ (href : HomeParams → Text) where
  -- `option` of the family filter.
  unfoldable pub family_option : HomeParams → Text → Option Text → Bool → Text
  family_option p label value active =
      if active
      then template (codes "<b>" ∷ escape_html label ∷ codes "</b>" ∷ [])
      else template (
          codes "<a href=\""
          ∷ (escape_html (href (family_link p value)))
          ∷ codes "\">"
          ∷ escape_html label
          ∷ codes "</a>"
          ∷ [])

  abbrev is_family : ℕ → Option ℕ → Bool
  is_family n none = false
  is_family n (some f) = f == n

  abbrev no_family : Option ℕ → Bool
  no_family none = true
  no_family (some f) = false

  unfoldable pub family_filter_html : HomeParams → Option ℕ → Text
  family_filter_html p family = template (
      codes "<p>Family: "
      ∷ (family_option p (codes "All") none (no_family family))
      ∷ codes " | "
      ∷ (family_option p (codes "IPv4 only") (some (codes "4")) (is_family 4 family))
      ∷ codes " | "
      ∷ (family_option p (codes "IPv6 only") (some (codes "6")) (is_family 6 family))
      ∷ codes "</p>"
      ∷ [])

  unfoldable pub arrow : HomeParams → HomeColumn → Text
  unfolding active_sort active_desc text_eq
  arrow p col = elim (active_sort p) [
    | none ↦ codes "&nbsp;&nbsp;&nbsp;"
    | some s ↦
        if not (text_eq s col.param)
        then codes "&nbsp;&nbsp;&nbsp;"
        else if active_desc p
        then codes "&nbsp;&nbsp;&#8595;"
        else codes "&nbsp;&nbsp;&#8593;"
  ]

  unfoldable pub sort_header_cell : HomeParams → HomeColumn → Text
  sort_header_cell p col = template (
      codes "<th scope=\"col\"><a href=\""
      ∷ (escape_html (href (header_link p col)))
      ∷ codes "\">"
      ∷ escape_html col.label
      ∷ codes "<span class=\"arrow\">"
      ∷ arrow p col
      ∷ codes "</span></a></th>"
      ∷ [])

  unfoldable pub sort_header_html : HomeParams → Text
  unfolding sort_columns join
  sort_header_html p = template (
      codes "<thead><tr>\n"
      ∷ (join (codes "\n") (map (sort_header_cell p) sort_columns))
      ∷ codes "\n</tr></thead>"
      ∷ [])

  unfoldable pub pool_table : HomeParams → List IpRow → Text
  unfolding has_any join
  pool_table p ips =
      if has_any ips
      then template (
          codes "<div class=\"gwsdb-scroll\">\n<table class=\"gwsdb-data gwsdb-pool\">\n"
          ∷ sort_header_html p
          ∷ codes "\n<tbody>\n"
          ∷ (join (codes "\n") (map table_row ips))
          ∷ codes "\n</tbody>\n</table>\n</div>"
          ∷ [])
      else template
          (codes "<p><i>No data yet. Please run a scan and import the results first.</i></p>" ∷ [])

  unfoldable pub render_full_table : HomeParams → List IpRow → Stats → Text → Text
  unfolding is_truthy
  render_full_table p ips stats scan_mode =
      let mode =
        if is_truthy scan_mode
        then template (codes " (" ∷ escape_html scan_mode ∷ codes ")" ∷ [])
        else [] in
      template (
        codes "<p>The table below lists tracked Google Web Server (GWS) IP addresses and their "
        ∷ codes "reachability status.</p>\n"
        ∷ (family_filter_html p (family_of p.family))
        ∷ codes "\n"
        ∷ pool_table p ips
        ∷ codes "\n<hr>\n<table border=\"0\" cellpadding=\"2\" cellspacing=\"0\">\n"
        ∷ codes
            "<tr><td colspan=\"2\"><b>Statistics</b></td></tr>\n<tr><td>Total Known IPs</td><td>"
        ∷ decimal_text stats.total_known_ips
        ∷ codes "</td></tr>\n<tr><td>Total Checks</td><td>"
        ∷ decimal_text stats.total_checks
        ∷ codes "</td></tr>\n<tr><td>Last Check</td><td>"
        ∷ escape_html (format_time stats.last_check_at)
        ∷ mode
        ∷ codes "</td></tr>\n</table>"
        ∷ [])

  abbrev home_description : Text
  home_description =
      codes
        "Live-updated list of known Google Web Server (GWS) IPs reachable from China, with PTR, country, and reachability status."

  -- The page of the table that the handler answers with.
  unfoldable pub home_html : BuildInfo → HomeParams → List IpRow → Stats → Text
  unfolding page_shell
  home_html build p ips stats = page_shell (record {
    title = codes "Home";
    body = render_full_table p ips stats stats.scan_mode;
    build = build;
    extra_head = none;
    lang = none;
    description = some home_description;
  })
