-- ===== src/Tests/Html.antt =====
-- Texts in pages.
use gwsdb.Prelude.{codes, true, false, some, ◌≡◌, refl}
use gwsdb.Html.{escape_html, is_crawler_ua, build_info_from_env}

escaped :
    escape_html (codes "<a href='x'>&lt;</a>")
    ≡ codes "&lt;a href=&#39;x&#39;&gt;&amp;lt;&lt;/a&gt;"
unfolding escape_html
escaped = refl

a_bot : is_crawler_ua (codes "Mozilla/5.0 (compatible; GoogleBot/2.1)") ≡ true
unfolding is_crawler_ua
a_bot = refl

no_bot : is_crawler_ua (codes "Mozilla/5.0 (X11; Linux x86_64)") ≡ false
unfolding is_crawler_ua
no_bot = refl

short_revision : (build_info_from_env (some (codes "0123456789abcdef"))).revision ≡ codes "0123456"
unfolding build_info_from_env
short_revision = refl
