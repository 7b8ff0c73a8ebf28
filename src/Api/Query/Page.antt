-- ===== src/Api/Query/Page.antt =====
-- The page of GET /query (functions/query.ts), as text: its description and its body, and the answer of
-- the handler that they are part of.
pub mod Outline
use gwsdb.Prelude.{
  ℕ, Text, codes, text_eq, Bool, true, false, Option, none, some, List, [], ◌∷◌, ◌++◌, map, join,
  ◌==◌, not, if◌then◌else◌,
}
use gwsdb.Dns.Asn.{decimal_text}
use gwsdb.Html.{escape_html, BuildInfo}
use gwsdb.Html.Shell.{page_shell}
use gwsdb.Html.Time.{format_time}
use gwsdb.Markup.{template, is_truthy, has_any, encode_uri_component}
use gwsdb.Api.Query.{AddrStatus, HostnameForm, QueryData, QueryReply, redirect, page}

-- The place that the description names.
unfoldable pub described_location : QueryData → Text
unfolding is_truthy
described_location d =
    if d.matched
    then if is_truthy d.city then template (d.city ∷ codes ", " ∷ d.country ∷ []) else d.country
    else []

unfoldable pub query_description : QueryData → Text
unfolding is_truthy
query_description d =
    let location = described_location d in
    let parts =
      template
        (d.query ∷ codes ": " ∷ (if d.has_history then d.status else codes "no scan history") ∷ [])
      ∷ (if is_truthy location
          then template (codes "estimated location " ∷ location ∷ []) ∷ []
          else []) in
    if not d.submitted
    then template (
        codes "Look up whether an IP address or 1e100.net hostname belongs to a Google Web Server "
        ∷ codes "reachable from China."
        ∷ [])
    else if is_truthy d.error
    then template (d.query ∷ codes ": " ∷ d.error ∷ codes "." ∷ [])
    else if d.query_is_hostname
    then if is_truthy location
      then template
          (d.query ∷ codes ": 1e100.net hostname, estimated location " ∷ location ∷ codes "." ∷ [])
      else template (d.query ∷ codes ": 1e100.net hostname." ∷ [])
    else template ((join (codes ", ") parts) ∷ codes "." ∷ [])

unfoldable pub status_html : Text → Text → Text → Text
unfolding text_eq
status_html status reachable_label unreachable_label =
    if text_eq status (codes "Reachable")
    then template
        (codes "<font color=\"#008000\">&#x2713; " ∷ reachable_label ∷ codes "</font>" ∷ [])
    else if text_eq status (codes "Unreachable")
    then template
        (codes "<font color=\"#CC0000\">&#x2717; " ∷ unreachable_label ∷ codes "</font>" ∷ [])
    else codes "-"

-- One address of a host.
unfoldable pub addr_item : AddrStatus → Text
addr_item a = template (
    codes "<tt><a href=\"/query?ip="
    ∷ encode_uri_component a.addr
    ∷ codes "\">"
    ∷ escape_html a.addr
    ∷ codes "</a></tt> "
    ∷ status_html a.status [] []
    ∷ codes "<br>"
    ∷ [])

unfoldable pub addr_col : Bool → List AddrStatus → Text
unfolding has_any join
addr_col failed addrs =
    if has_any addrs
    then join [] (map addr_item addrs)
    else if failed
    then codes "<i>lookup failed</i>"
    else codes "<i>none</i>"

unfoldable pub hostname_row : HostnameForm → Text
hostname_row form = template (
    codes "<tr>\n<td><tt><a href=\"/query?ip="
    ∷ encode_uri_component form.hostname
    ∷ codes "\">"
    ∷ escape_html form.hostname
    ∷ codes "</a></tt></td>\n<td>"
    ∷ addr_col form.failed form.ipv4
    ∷ codes "</td>\n<td>"
    ∷ addr_col form.failed form.ipv6
    ∷ codes "</td>\n</tr>"
    ∷ [])

-- The estimated location, of an airport code that the table has or has not.
unfoldable pub location_cell : QueryData → Text
unfolding is_truthy
location_cell d =
    if is_truthy d.country
    then if is_truthy d.city
      then template ((escape_html d.city) ∷ codes ", " ∷ escape_html d.country ∷ [])
      else escape_html d.country
    else codes "<i>Airport code not in database, cannot estimate</i>"

unfoldable pub hostname_location_rows : QueryData → Text
hostname_location_rows d =
    if d.matched
    then template (
        codes "<tr>\n<td>Airport Code</td>\n<td colspan=\"2\"><tt>"
        ∷ escape_html d.airport_code
        ∷ codes "</tt></td>\n</tr>\n<tr>\n<td>Estimated Location</td>\n<td colspan=\"2\">"
        ∷ location_cell d
        ∷ codes "</td>\n</tr>"
        ∷ [])
    else template (
        codes "<tr>\n"
        ∷ codes "<td colspan=\"3\"><i>This does not match the known 1e100.net naming convention, "
        ∷ codes "cannot estimate a location</i></td>\n</tr>"
        ∷ [])

unfoldable pub render_hostname_branch : QueryData → Text
unfolding join
render_hostname_branch d = template (
    codes "<div class=\"gwsdb-scroll\">\n<table class=\"gwsdb-data\">\n<thead>\n"
    ∷ codes "<tr><th colspan=\"3\">Query Result: "
    ∷ escape_html d.query
    ∷ codes "</th></tr>\n"
    ∷ codes
        "<tr><th scope=\"col\">Hostname</th><th scope=\"col\">A (IPv4)</th><th scope=\"col\">AAAA "
    ∷ codes "(IPv6)</th></tr>\n</thead>\n<tbody>\n"
    ∷ (join (codes "\n") (map hostname_row d.hostname_forms))
    ∷ codes "\n"
    ∷ hostname_location_rows d
    ∷ codes "\n</tbody>\n</table>\n</div>"
    ∷ [])

unfoldable pub ptr_link : Text → Text
ptr_link h = template (
    codes "<a href=\"/query?ip="
    ∷ encode_uri_component h
    ∷ codes "\">"
    ∷ escape_html h
    ∷ codes "</a>"
    ∷ [])

unfoldable pub ptr_cell : QueryData → Text
unfolding has_any join
ptr_cell d =
    if has_any d.ptr_hostnames
    then template
        (codes "<tt>" ∷ (join (codes "<br>") (map ptr_link d.ptr_hostnames)) ∷ codes "</tt>" ∷ [])
    else if d.ptr_failed
    then template (
        codes "<i>(PTR lookup failed -- the reverse zone for this address did not answer)</i>" ∷ [])
    else codes "<i>(no PTR record)</i>"

unfoldable pub ip_location_rows : QueryData → Text
unfolding has_any
ip_location_rows d =
    if d.matched
    then template (
        codes "<tr>\n<td>Airport Code</td>\n<td><tt>"
        ∷ escape_html d.airport_code
        ∷ codes "</tt></td>\n</tr>\n<tr>\n<td>Estimated Location</td>\n<td>"
        ∷ location_cell d
        ∷ codes "</td>\n</tr>"
        ∷ [])
    else if has_any d.ptr_hostnames
    then template (
        codes "<tr>\n<td>Estimated Location</td>\n"
        ∷ codes "<td><i>This PTR does not match the known 1e100.net naming convention, cannot "
        ∷ codes "parse</i></td>\n</tr>"
        ∷ [])
    else []

unfoldable pub overview_rows : QueryData → Text
overview_rows d =
    if d.has_history
    then template (
        codes "<tr><th colspan=\"2\">Reachability Overview</th></tr>\n"
        ∷ codes "<tr><td>Current Status</td><td>"
        ∷ (status_html d.status (codes "Reachable") (codes "Unreachable"))
        ∷ codes "</td></tr>\n<tr><td>First Seen</td><td>"
        ∷ escape_html (format_time d.first_seen)
        ∷ codes "</td></tr>\n<tr><td>Last Reachable</td><td>"
        ∷ escape_html (format_time d.last_seen)
        ∷ codes "</td></tr>\n<tr><td>Total Times Seen</td><td>"
        ∷ decimal_text d.times_seen
        ∷ codes "</td></tr>\n<tr><td>Last RTT</td><td>"
        ∷ (if d.last_rtt_ms == 0
            then codes "-"
            else template (decimal_text d.last_rtt_ms ∷ codes " ms" ∷ []))
        ∷ codes "</td></tr>"
        ∷ [])
    else template (
        codes "<tr><td colspan=\"2\"><i>This IP is not in the known scan results (it may not have "
        ∷ codes "been scanned, or was never found reachable)</i></td></tr>"
        ∷ [])

-- The section that query.js fills, for an address with history.
unfoldable pub checks_table : QueryData → Text
checks_table d =
    if d.has_history
    then template (
        codes "<p></p>\n<div id=\"historySection\" data-ip=\""
        ∷ escape_html d.query
        ∷ codes "\">\n"
        ∷ codes "<noscript><p><i>JavaScript is required to load check history.</i></p></noscript>\n"
        ∷ codes "<p id=\"historyStatus\">Loading check history&hellip;</p>\n"
        ∷ codes "<div class=\"gwsdb-scroll gwsdb-hidden\" id=\"historyTableWrap\">\n"
        ∷ codes "<table class=\"gwsdb-data\" id=\"historyTable\">\n<thead>\n"
        ∷ codes
            "<tr><th colspan=\"4\">Check History (<span id=\"historyCount\">0</span> checks, newest "
        ∷ codes "first)</th></tr>\n"
        ∷ codes "<tr><th scope=\"col\">Time</th><th scope=\"col\">Result</th><th "
        ∷ codes "scope=\"col\">Reason</th><th scope=\"col\">RTT</th></tr>\n</thead>\n"
        ∷ codes "<tbody id=\"historyTableBody\"></tbody>\n</table>\n</div>\n"
        ∷ codes "<p align=\"center\" id=\"historyPager\" class=\"gwsdb-pager gwsdb-hidden\">\n"
        ∷ codes
            "<button type=\"button\" id=\"historyPrev\" class=\"gwsdb-pager-arrow\">&lt;-</button>\n"
        ∷ codes "<span id=\"historyPageInfo\"></span>\n"
        ∷ codes
            "<button type=\"button\" id=\"historyNext\" class=\"gwsdb-pager-arrow\">-&gt;</button>\n"
        ∷ codes "</p>\n</div>"
        ∷ [])
    else []

unfoldable pub probe_cell : QueryData → Text
probe_cell d =
    if d.can_probe
    then template (
        codes "<button type=\"button\" id=\"probeBtn\" data-ip=\""
        ∷ escape_html d.query
        ∷ codes "\">立即检测</button> <span id=\"probeStatus\"></span>"
        ∷ [])
    else template (codes "<font color=\"#666666\">仅中国大陆IP可即时检测</font>" ∷ [])

-- The revision that the address of a script ends in.
unfoldable pub script_version : Text → Text
unfolding is_truthy
script_version revision = if is_truthy revision then template (codes "?v=" ∷ revision ∷ []) else []

unfoldable pub render_ip_branch : QueryData → Text → Text
render_ip_branch d revision = template (
    codes "<div class=\"gwsdb-scroll\">\n<table class=\"gwsdb-data\">\n"
    ∷ codes "<thead><tr><th colspan=\"2\">Query Result: "
    ∷ escape_html d.query
    ∷ codes "</th></tr></thead>\n<tbody>\n<tr>\n<td width=\"30%\">PTR Record</td>\n<td>"
    ∷ ptr_cell d
    ∷ codes "</td>\n</tr>\n"
    ∷ ip_location_rows d
    ∷ codes "\n"
    ∷ overview_rows d
    ∷ codes "\n</tbody>\n</table>\n</div>\n"
    ∷ checks_table d
    ∷ codes "\n\n<p></p>\n<div class=\"gwsdb-scroll\">\n<table class=\"gwsdb-data\">\n"
    ∷ codes "<thead><tr><th>即时检测</th></tr></thead>\n<tbody>\n<tr>\n<td>\n"
    ∷ probe_cell d
    ∷ codes "\n</td>\n</tr>\n</tbody>\n</table>\n</div>\n<script src=\"/static/query.js"
    ∷ script_version revision
    ∷ codes "\"></script>"
    ∷ [])

unfoldable pub query_form : QueryData → Text
query_form d = template (
    codes "<p>Enter an IP address within a Google ASN to look up its PTR record, or a "
    ∷ codes "1e100.net hostname to look up its A/AAAA records, and estimate its geographic "
    ∷ codes "location.</p>\n\n<form method=\"GET\" action=\"/query\">\n"
    ∷ codes "<table border=\"0\" cellpadding=\"4\" cellspacing=\"0\">\n<tr>\n"
    ∷ codes "<td>IP or 1e100.net Hostname</td>\n"
    ∷ codes "<td><input type=\"text\" name=\"ip\" size=\"28\" value=\""
    ∷ escape_html d.query
    ∷ codes "\"></td>\n<td><input type=\"submit\" value=\"Query\"></td>\n</tr>\n</table>\n</form>"
    ∷ [])

unfoldable pub query_result : QueryData → Text → Text
unfolding is_truthy
query_result d revision =
    if not d.submitted
    then []
    else if is_truthy d.error
    then template
        (codes "<hr>\n<p><font color=\"#CC0000\">" ∷ escape_html d.error ∷ codes "</font></p>" ∷ [])
    else if d.query_is_hostname
    then template (codes "<hr>\n" ∷ render_hostname_branch d ∷ [])
    else template (codes "<hr>\n" ∷ render_ip_branch d revision ∷ [])

unfoldable pub render_query_body : QueryData → Text → Text
render_query_body d revision = template (
    (query_form d)
    ∷ codes "\n"
    ∷ query_result d revision
    ∷ codes "\n\n<hr>\n<p><font size=\"-2\" color=\"#666666\">\n"
    ∷ codes "Location estimates are based on the <a "
    ∷ codes "href=\"https://github.com/lennylxx/ipv6-hosts/wiki/1e100.net\">1e100.net PTR naming "
    ∷ codes "convention</a> (a community-maintained, unofficial document, for reference only).\n"
    ∷ codes "</font></p>"
    ∷ [])

-- The page that the handler answers with.
unfoldable pub query_html : BuildInfo → QueryData → Text
query_html build d = page_shell (record {
  title = codes "Query";
  body = render_query_body d build.revision;
  build = build;
  extra_head = none;
  lang = none;
  description = some (query_description d);
})
