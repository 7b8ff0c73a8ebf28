-- ===== src/Html.antt =====
-- Text in pages (src/html.ts): `escapeHTML`, `isCrawlerUA` and `buildInfoFromEnv`. The pages' own
-- markup is left out. `toLowerCase` is that of ASCII letters.
pub mod Escape
pub mod Shell
pub mod Time
use gwsdb.Prelude.{
  ℕ, Text, codes, Bool, Option, none, some, List, [], ◌∷◌, ◌++◌, ◌==◌, if◌then◌else◌, any, take,
}
use gwsdb.Geo.Names.{lower_case}
use gwsdb.Dns.Caching.{contains}

-- `s.replace(/c/g, entity)`, of one character.
unfoldable pub replace_all : ℕ → Text → Text → Text
replace_all c entity [] = []
replace_all c entity (d ∷ s) =
    let rest = replace_all c entity s in if d == c then entity ++ rest else d ∷ rest

unfoldable pub escape_html : Text → Text
unfolding replace_all
escape_html s =
    let amp = replace_all b'&' (codes "&amp;") s in
    let lt = replace_all b'<' (codes "&lt;") amp in
    let gt = replace_all b'>' (codes "&gt;") lt in
    let quot = replace_all b'"' (codes "&quot;") gt in replace_all b'\'' (codes "&#39;") quot

unfoldable pub crawler_uas : List Text
crawler_uas =
    codes "bot"
    ∷ codes "crawl"
    ∷ codes "spider"
    ∷ codes "slurp"
    ∷ codes "archiver"
    ∷ codes "archive.org"
    ∷ codes "archive.ph"
    ∷ codes "archive.today"
    ∷ codes "heritrix"
    ∷ codes "facebookexternalhit"
    ∷ codes "embedly"
    ∷ codes "quora link preview"
    ∷ codes "outbrain"
    ∷ codes "pinterest"
    ∷ codes "whatsapp"
    ∷ codes "telegrambot"
    ∷ codes "twitterbot"
    ∷ []

unfoldable pub is_crawler_ua : Text → Bool
unfolding contains lower_case crawler_uas
is_crawler_ua ua = any (λ s. contains s (lower_case ua)) crawler_uas

abbrev pub repo_url : Text
repo_url = codes "https://github.com/cuthead/gwsdb"

pub record BuildInfo : Type 0 where
  pub revision : Text
  pub commit_url : Text

unfoldable pub build_info_from_env : Option Text → BuildInfo
build_info_from_env none = record { revision = []; commit_url = [] }
build_info_from_env (some []) = record { revision = []; commit_url = [] }
build_info_from_env (some (c ∷ s)) = record {
  revision = take 7 (c ∷ s);
  commit_url = repo_url ++ (codes "/commit/" ++ (c ∷ s));
}
