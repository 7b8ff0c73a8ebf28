-- ===== src/Html/Shell.antt =====
-- The frame of every page (src/html.ts): `footerHTML` and `pageShell`, and `formatTime`.
use gwsdb.Prelude.{Text, codes, Option, [], ◌∷◌, or_else, if◌then◌else◌}
use gwsdb.Html.{escape_html, BuildInfo, repo_url}
use gwsdb.Markup.{template, is_truthy}

unfoldable pub footer_html : BuildInfo → Text
unfolding is_truthy
footer_html build =
    let stamp = template (
      codes "commit <a href=\""
      ∷ escape_html build.commit_url
      ∷ codes "\">"
      ∷ escape_html build.revision
      ∷ codes "</a>"
      ∷ []) in
    let plain = template (codes "<a href=\"" ∷ repo_url ∷ codes "\">gwsdb</a>" ∷ []) in
    if is_truthy build.revision then stamp else plain

pub data Lang : Type 0 where
  en zh : Lang

unfoldable pub lang_text : Lang → Text
lang_text en = codes "en"
lang_text zh = codes "zh"

-- `NAV_EN` and `NAV_ZH`.
unfoldable pub nav_home : Lang → Text
nav_home en = codes "Home"
nav_home zh = codes "首页"

unfoldable pub nav_query : Lang → Text
nav_query en = codes "Query"
nav_query zh = codes "查询"

abbrev default_description : Text
default_description =
    codes
      "Community-maintained database of Google Web Server (GWS) IPs reachable from China, with PTR/ASN lookups, on-demand probes, and check history."

pub record ShellOpts : Type 0 where
  pub title : Text
  pub body : Text
  pub build : BuildInfo
  pub extra_head : Option Text
  pub lang : Option Lang
  pub description : Option Text

unfoldable pub full_title : Text → Text
full_title title = template ((escape_html title) ∷ codes " - GWS Database" ∷ [])

unfoldable pub page_shell : ShellOpts → Text
unfolding footer_html lang_text nav_home nav_query full_title
page_shell opts =
    let lang = or_else opts.lang en in
    let description = or_else opts.description default_description in
    template (
      codes "<!DOCTYPE html>\n<html lang=\""
      ∷ lang_text lang
      ∷ codes
          "\">\n<head>\n<meta http-equiv=\"Content-Type\" content=\"text/html; charset=UTF-8\">\n"
      ∷ codes "<meta name=\"viewport\" content=\"width=device-width, initial-scale=1\">\n"
      ∷ codes "<meta name=\"description\" content=\""
      ∷ escape_html description
      ∷ codes "\">\n<meta property=\"og:title\" content=\""
      ∷ full_title opts.title
      ∷ codes "\">\n<meta property=\"og:description\" content=\""
      ∷ escape_html description
      ∷ codes "\">\n<meta property=\"og:type\" content=\"website\">\n"
      ∷ or_else opts.extra_head []
      ∷ codes "\n<title>"
      ∷ full_title opts.title
      ∷ codes "</title>\n<link rel=\"stylesheet\" href=\"/static/gwsdb.css\">\n</head>\n"
      ∷ codes "<body bgcolor=\"#FFFFFF\" text=\"#000000\" link=\"#0000EE\" vlink=\"#551A8B\">\n"
      ∷ codes "<div class=\"gwsdb-wrap\">\n"
      ∷ codes "<header class=\"gwsdb-title\"><b>GWS Database</b></header>\n"
      ∷ codes
          "<div class=\"gwsdb-main\">\n<nav class=\"gwsdb-sidebar\" aria-label=\"Quick Links\">\n"
      ∷ codes "<div class=\"gwsdb-menu-header\">Quick Links</div>\n<ul>\n<li><a href=\"/\">"
      ∷ nav_home lang
      ∷ codes "</a></li>\n<li><a href=\"/query\">"
      ∷ nav_query lang
      ∷ codes "</a></li>\n</ul>\n</nav>\n<main class=\"gwsdb-content\">\n"
      ∷ codes "<font face=\"Arial,Helvetica,sans-serif\" size=\"-1\">\n"
      ∷ opts.body
      ∷ codes "\n</font>\n</main>\n</div>\n<footer class=\"gwsdb-footer\">\n"
      ∷ footer_html opts.build
      ∷ codes "\n</footer>\n</div>\n</body>\n</html>\n"
      ∷ [])
