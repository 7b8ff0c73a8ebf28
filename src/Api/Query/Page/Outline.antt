-- ===== src/Api/Query/Page/Outline.antt =====
-- The tags of the query page, whatever the texts on it.
use gwsdb.Prelude.{Text, codes, Bool, List, [], ◌≡◌, map, none}
use gwsdb.Html.{BuildInfo}
use gwsdb.Html.Shell.{page_shell}
use gwsdb.Markup.Outline.{
  outline, outline-template, outline-escape_html, outline-encode_uri_component, outline-if,
  outline-decimal_text, outline-join_blank, blank, is_truthy-blank, has_any-map,
}
use gwsdb.Api.Query.{AddrStatus, HostnameForm, QueryData}
use gwsdb.Api.Query.Page.{
  addr_item, addr_col, hostname_row, location_cell, hostname_location_rows, render_hostname_branch,
  ptr_link, ptr_cell, ip_location_rows, overview_rows, checks_table, probe_cell, render_ip_branch,
  query_form, query_result, render_query_body, query_html,
}

ruleset outlines = (
  outline-template, outline-escape_html, outline-encode_uri_component, outline-if,
  outline-decimal_text, is_truthy-blank, has_any-map,
)

-- The page's data with every text taken out that is not one of the three statuses. What the page
-- tests is left: whether there is an error, a city and a country, and how many names there are.
unfoldable pub blank_addr : AddrStatus → AddrStatus
blank_addr a = record a { addr = [] }

unfoldable pub blank_form : HostnameForm → HostnameForm
blank_form f = record f {
  hostname = [];
  ipv4 = map blank_addr f.ipv4;
  ipv6 = map blank_addr f.ipv6;
}

unfoldable pub blank_data : QueryData → QueryData
blank_data d = record d {
  query = [];
  error = blank d.error;
  ptr_hostnames = map (λ h. []) d.ptr_hostnames;
  airport_code = [];
  city = blank d.city;
  country = blank d.country;
  first_seen = none;
  last_seen = none;
  times_seen = 0;
  hostname_forms = map blank_form d.hostname_forms;
}

addr_item-outline : (a : AddrStatus) → outline (addr_item a) ≡ outline (addr_item (blank_addr a))
unfolding addr_item blank_addr
addr_item-outline a = simp outlines

location_cell-outline :
    (d : QueryData) → outline (location_cell d) ≡ outline (location_cell (blank_data d))
unfolding location_cell blank_data
location_cell-outline d = simp outlines

overview_rows-outline :
    (d : QueryData) → outline (overview_rows d) ≡ outline (overview_rows (blank_data d))
unfolding overview_rows blank_data
overview_rows-outline d = simp outlines

addr_col-outline :
    (failed : Bool) (addrs : List AddrStatus)
    → outline (addr_col failed addrs) ≡ outline (addr_col failed (map blank_addr addrs))
unfolding addr_col
addr_col-outline failed addrs =
    simp (outlines, outline-join_blank [] addr_item blank_addr addrs addr_item-outline)

hostname_row-outline :
    (f : HostnameForm) → outline (hostname_row f) ≡ outline (hostname_row (blank_form f))
unfolding hostname_row blank_form
hostname_row-outline f =
    simp (outlines, addr_col-outline f.failed f.ipv4, addr_col-outline f.failed f.ipv6)

hostname_location_rows-outline :
    (d : QueryData)
    → outline (hostname_location_rows d) ≡ outline (hostname_location_rows (blank_data d))
unfolding hostname_location_rows blank_data
hostname_location_rows-outline d = simp (outlines, location_cell-outline d)

render_hostname_branch-outline :
    (d : QueryData)
    → outline (render_hostname_branch d) ≡ outline (render_hostname_branch (blank_data d))
unfolding render_hostname_branch blank_data
render_hostname_branch-outline d = simp (
  outlines,
  hostname_location_rows-outline d,
  outline-join_blank (codes "\n") hostname_row blank_form d.hostname_forms hostname_row-outline,
)

ptr_link-outline : (h : Text) → outline (ptr_link h) ≡ outline (ptr_link [])
unfolding ptr_link
ptr_link-outline h = simp outlines

ptr_cell-outline : (d : QueryData) → outline (ptr_cell d) ≡ outline (ptr_cell (blank_data d))
unfolding ptr_cell blank_data
ptr_cell-outline d = simp (
  outlines,
  outline-join_blank (codes "<br>") ptr_link (λ (h : Text). []) d.ptr_hostnames ptr_link-outline,
)

ip_location_rows-outline :
    (d : QueryData) → outline (ip_location_rows d) ≡ outline (ip_location_rows (blank_data d))
unfolding ip_location_rows blank_data
ip_location_rows-outline d = simp (outlines, location_cell-outline d)

checks_table-outline :
    (d : QueryData) → outline (checks_table d) ≡ outline (checks_table (blank_data d))
unfolding checks_table blank_data
checks_table-outline d = simp outlines

probe_cell-outline : (d : QueryData) → outline (probe_cell d) ≡ outline (probe_cell (blank_data d))
unfolding probe_cell blank_data
probe_cell-outline d = simp outlines

render_ip_branch-outline :
    (d : QueryData) (revision : Text)
    → outline (render_ip_branch d revision) ≡ outline (render_ip_branch (blank_data d) revision)
unfolding render_ip_branch
render_ip_branch-outline d revision = simp (
  outlines,
  ptr_cell-outline d,
  ip_location_rows-outline d,
  overview_rows-outline d,
  checks_table-outline d,
  probe_cell-outline d,
)

query_form-outline : (d : QueryData) → outline (query_form d) ≡ outline (query_form (blank_data d))
unfolding query_form blank_data
query_form-outline d = simp outlines

query_result-outline :
    (d : QueryData) (revision : Text)
    → outline (query_result d revision) ≡ outline (query_result (blank_data d) revision)
unfolding query_result blank_data
query_result-outline d revision =
    simp (outlines, render_hostname_branch-outline d, render_ip_branch-outline d revision)

render_query_body-outline :
    (d : QueryData) (revision : Text)
    → outline (render_query_body d revision) ≡ outline (render_query_body (blank_data d) revision)
unfolding render_query_body
render_query_body-outline d revision =
    simp (outlines, query_form-outline d, query_result-outline d revision)

-- Whatever the texts in the page's data, the page of an answer has the tags and the double-quoted
-- attributes of the page of the same data without its texts: no error, query, host name, address,
-- place, time or count adds an angle bracket or a double quotation mark to the page. Kept are the
-- build, the flags, the statuses and the round-trip time, and whether there is an error, a city and a
-- country.
pub query_html-outline :
    (build : BuildInfo) (d : QueryData)
    → outline (query_html build d) ≡ outline (query_html build (blank_data d))
unfolding query_html page_shell blank_data
query_html-outline build d = simp (outlines, render_query_body-outline d build.revision)
