-- ===== src/Tests/Pages.antt =====
-- Pages whose data hold markup, and the texts that they are made of.
use gwsdb.Prelude.{Text, codes, true, none, some, [], ◌∷◌, ◌≡◌, refl, map, join}
use gwsdb.Store.Reads.{Stats}
use gwsdb.Html.{BuildInfo}
use gwsdb.Html.Time.{format_time}
use gwsdb.Markup.{encode_uri_component, template}
use gwsdb.Markup.Outline.{outline, blank}
use gwsdb.Api.Query.{QueryData, empty_data}
use gwsdb.Api.Query.Page.{query_html, query_description, described_location}
use gwsdb.Api.Query.Page.Outline.{blank_data, query_html-outline}
use gwsdb.Api.Home.{HomeParams}
use gwsdb.Api.Home.Page.{IpRow, home_html}
use gwsdb.Api.Home.Page.Outline.{blank_row, home_html-outline}
use gwsdb.Tests.Fixtures.{noon, google}

abbrev script : Text
script = codes "<script>alert(\"x\")</script>"

epoch : format_time (some 0) ≡ codes "1970-01-01 00:00:00"
unfolding format_time
epoch = refl

leap_day : format_time (some 951_868_799_999) ≡ codes "2000-02-29 23:59:59"
unfolding format_time
leap_day = refl

this_noon : format_time (some noon) ≡ codes "2027-01-15 08:00:00"
unfolding format_time
this_noon = refl

encoded : encode_uri_component (codes "2001:db8::1 é~") ≡ codes "2001%3Adb8%3A%3A1%20%C3%A9~"
unfolding encode_uri_component
encoded = refl

abbrev build : BuildInfo
build = record { revision = codes "0123456"; commit_url = codes "https://example.org/0123456" }

-- An address with a hostile PTR name.
abbrev hostile : QueryData
hostile = record (empty_data google) {
  submitted = true;
  ptr_hostnames = script ∷ codes "dns.google" ∷ [];
  has_history = true;
  status = codes "Reachable";
  first_seen = some noon;
  last_seen = some noon;
  times_seen = 3;
  last_rtt_ms = 40;
}

described : query_description hostile ≡ codes "8.8.8.8: Reachable."
unfolding query_description empty_data template join described_location
described = refl

query_html-outline_example :
    outline (query_html build hostile) ≡ outline (query_html build (blank_data hostile))
query_html-outline_example = query_html-outline build hostile

abbrev hostile_row : IpRow
hostile_row = record {
  ip = google;
  revision = 5;
  ptr_list = script ∷ [];
  country = script;
  country_code = codes "us";
  status = codes "Unreachable";
  first_seen = codes "-";
  last_seen = codes "-";
  last_rtt_ms = 0;
}

abbrev sorted_by_rtt : HomeParams
sorted_by_rtt = record {
  nojs = some (codes "1");
  sort = some (codes "rtt");
  desc = none;
  family = none;
}

abbrev one_known : Stats
one_known = record {
  total_known_ips = 1;
  total_checks = 1;
  last_check_at = some noon;
  scan_mode = script;
}

home_html-outline_example :
    outline (home_html (λ p. script) build sorted_by_rtt (hostile_row ∷ []) one_known)
    ≡ outline (
        home_html
          (λ p. script)
          build
          sorted_by_rtt
          (map blank_row (hostile_row ∷ []))
          (record one_known { scan_mode = blank script }))
home_html-outline_example =
    home_html-outline (λ p. script) sorted_by_rtt build (hostile_row ∷ []) one_known
