-- ===== src/Client/Table.antt =====
-- The table of the home page (public/static/home.js): `filter`, `sort` and the paging. The rows are
-- those that `renderData` has decoded; the page's elements are left out, but for what they show.
-- `toLowerCase` is that of ASCII letters.
pub mod Pages
use gwsdb.Prelude.{
  ℕ, suc, ◌+◌, ◌-◌, ◌*◌, ◌/◌, Text, codes, text_eq, text_lt, starts_with, join, Bool, true, false,
  not, ◌&&◌, ◌||◌, Option, none, some, List, [], ◌∷◌, ◌++◌, map, ltb, ◌==◌, if◌then◌else◌, length,
  keep, any, take, drop,
}
use gwsdb.Store.Reads.{sort_by}
use gwsdb.Geo.Names.{trim, lower_case}
use gwsdb.Dns.Caching.{contains}

pub record TableRow : Type 0 where
  pub ip : Text
  pub ptr_list : List Text
  pub country : Text
  pub status : Text
  pub first_seen : Text
  pub last_seen : Text
  pub last_rtt_ms : ℕ

pub data Column : Type 0 where
  by_rtt by_ip by_ptr by_country by_first_seen by_last_seen : Column

-- `sortState.dir`: 0 ascending, 1 descending, 2 the natural order.
pub record Table : Type 0 where
  pub all_rows : List TableRow
  pub matched : List TableRow
  pub natural_order : List TableRow
  pub sort_col : Option Column
  pub sort_dir : ℕ
  pub page : ℕ

abbrev pub page_size : ℕ
page_size = 1000

-- `Math.max(1, Math.ceil(matched.length / PAGE_SIZE))`
unfoldable pub total_pages : List TableRow → ℕ
total_pages rows =
    let pages = (length rows + (page_size - 1)) / page_size in if ltb pages 1 then 1 else pages

-- The page that `renderPage` settles on.
unfoldable pub settled_page : Table → ℕ
unfolding total_pages
settled_page t =
    let total = total_pages t.matched in
    let below = if ltb total t.page then total else t.page in if ltb below 1 then 1 else below

-- The rows from `start` to `end` of a page.
unfoldable pub page_rows : List TableRow → ℕ → List TableRow
page_rows rows page = take page_size (drop ((page - 1) * page_size) rows)

-- `renderPage`: the page is settled, and its rows are shown.
unfoldable pub render_page : Table → Table × List TableRow
unfolding settled_page page_rows
render_page t = let page = settled_page t in (record t { page = page }, page_rows t.matched page)

-- `hay.indexOf(q) !== -1`, and the family's radio button.
unfoldable pub is_match : Text → Bool → TableRow → Bool
unfolding lower_case contains join
is_match q v6 r =
    let is_ipv6 = any (λ c. c == b':') r.ip in
    let hay =
      lower_case
        (r.ip ++ (codes " " ++ (join (codes " ") r.ptr_list ++ (codes " " ++ r.country)))) in
    (if v6 then is_ipv6 else not is_ipv6) && contains q hay

unfoldable pub filter : Text → Bool → Table → Table × List TableRow
unfolding is_match trim lower_case render_page
filter input v6 t =
    let found = keep (is_match (lower_case (trim input)) v6) t.all_rows in
    render_page (record t { matched = found; natural_order = found; page = 1 })

-- `cycle`: the direction after this one, for a column that sorts descending first or not.
unfoldable pub next_dir : Bool → ℕ → ℕ
next_dir true dir = if dir == 1 then 0 else if dir == 0 then 2 else 1
next_dir false dir = if dir == 0 then 1 else if dir == 1 then 2 else 0

unfoldable pub same_column : Column → Option Column → Bool
same_column by_rtt (some by_rtt) = true
same_column by_ip (some by_ip) = true
same_column by_ptr (some by_ptr) = true
same_column by_country (some by_country) = true
same_column by_first_seen (some by_first_seen) = true
same_column by_last_seen (some by_last_seen) = true
same_column _ _ = false

-- The text that a column sorts by.
abbrev column_text : Column → TableRow → Text
column_text by_ptr r = join (codes " ") r.ptr_list
column_text by_country r = r.country
column_text by_first_seen r = r.first_seen
column_text by_last_seen r = r.last_seen
column_text _ r = r.ip

abbrev text_before : Bool → Text → Text → Bool
text_before desc a b =
    if desc then text_lt (lower_case b) (lower_case a) else text_lt (lower_case a) (lower_case b)

-- Whether the comparator of `sort` is negative.
unfoldable pub comes_before : Column → Bool → TableRow → TableRow → Bool
unfolding text_lt lower_case join
comes_before by_rtt desc a b =
    if desc then ltb b.last_rtt_ms a.last_rtt_ms else ltb a.last_rtt_ms b.last_rtt_ms
comes_before by_ip desc a b = if desc then not (text_lt a.ip b.ip) else text_lt a.ip b.ip
comes_before by_ptr desc a b = text_before desc (column_text by_ptr a) (column_text by_ptr b)
comes_before by_country desc a b =
    text_before desc (column_text by_country a) (column_text by_country b)
comes_before by_first_seen desc a b =
    text_before desc (column_text by_first_seen a) (column_text by_first_seen b)
comes_before by_last_seen desc a b =
    text_before desc (column_text by_last_seen a) (column_text by_last_seen b)

-- A click on a column's header.
unfoldable pub sort : Column → Bool → Table → Table × List TableRow
unfolding next_dir same_column comes_before sort_by render_page
sort col default_desc t =
    let first = if default_desc then 1 else 0 in
    let dir = if same_column col t.sort_col then next_dir default_desc t.sort_dir else first in
    let rows =
      if dir == 2 then t.natural_order else sort_by (comes_before col (dir == 1)) t.matched in
    render_page (record t { matched = rows; sort_col = some col; sort_dir = dir })

-- The two buttons.
unfoldable pub previous : Table → Table × List TableRow
unfolding render_page
previous t = render_page (record t { page = t.page - 1 })

unfoldable pub next : Table → Table × List TableRow
unfolding render_page
next t = render_page (record t { page = t.page + 1 })
