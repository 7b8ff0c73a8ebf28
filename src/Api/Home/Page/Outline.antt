-- ===== src/Api/Home/Page/Outline.antt =====
-- The tags of the home page's table, whatever the texts in it.
use gwsdb.Prelude.{Text, codes, List, [], ◌∷◌, ◌≡◌, refl, map}
use gwsdb.Store.Reads.{Stats}
use gwsdb.Html.{BuildInfo}
use gwsdb.Html.Shell.{page_shell}
use gwsdb.Markup.Outline.{
  outline, outline-append, outline-template, outline-escape_html, outline-encode_uri_component,
  outline-if, outline-decimal_text, outline-join_blank, blank, is_truthy-blank,
  is_truthy-escape_html, has_any-map,
}
use gwsdb.Api.Home.{HomeParams}
use gwsdb.Api.Home.Page.{
  IpRow, ptr_list_link, ptr_cell_html, country_cell_html, table_row, pool_table, render_full_table,
  home_html,
}

ruleset outlines = (
  outline-append, outline-template, outline-escape_html, outline-encode_uri_component, outline-if,
  outline-decimal_text, is_truthy-blank, is_truthy-escape_html, has_any-map,
)

-- A row with every text taken out but the status; whether it has a country and its code is left.
unfoldable pub blank_row : IpRow → IpRow
blank_row r = record r {
  ip = [];
  ptr_list = map (λ h. []) r.ptr_list;
  country = blank r.country;
  country_code = blank r.country_code;
  first_seen = [];
  last_seen = [];
}

ptr_list_link-outline : (h : Text) → outline (ptr_list_link h) ≡ outline (ptr_list_link [])
unfolding ptr_list_link
ptr_list_link-outline h = simp outlines

ptr_cell_html-outline :
    (hs : List Text) → outline (ptr_cell_html hs) ≡ outline (ptr_cell_html (map (λ h. []) hs))
unfolding ptr_cell_html
ptr_cell_html-outline [] = refl
ptr_cell_html-outline (h ∷ hs) = simp (
  outlines,
  outline-join_blank (codes "<br>") ptr_list_link (λ (t : Text). []) (h ∷ hs) ptr_list_link-outline,
)

country_cell_html-outline :
    (r : IpRow) → outline (country_cell_html r) ≡ outline (country_cell_html (blank_row r))
unfolding country_cell_html blank_row
country_cell_html-outline r = simp outlines

table_row-outline : (r : IpRow) → outline (table_row r) ≡ outline (table_row (blank_row r))
unfolding table_row blank_row
table_row-outline r = simp (outlines, ptr_cell_html-outline r.ptr_list, country_cell_html-outline r)

module _ (href : HomeParams → Text) (p : HomeParams) where
  pool_table-outline :
      (rows : List IpRow)
      → outline (pool_table href p rows) ≡ outline (pool_table href p (map blank_row rows))
  unfolding pool_table
  pool_table-outline rows =
      simp (outlines, outline-join_blank (codes "\n") table_row blank_row rows table_row-outline)

  -- Whatever the texts in the pool's rows and the scan mode, the page of the table has the tags and the
  -- double-quoted attributes of the page without them: no address, host name, country or time of the
  -- database adds an angle bracket or a double quotation mark. Kept are the rows' statuses and
  -- round-trip times, and whether they have a country and a flag.
  pub home_html-outline :
      (build : BuildInfo) (rows : List IpRow) (stats : Stats)
      → outline (home_html href build p rows stats)
        ≡ outline (
            home_html href build p
              (map blank_row rows)
              (record stats { scan_mode = blank stats.scan_mode }))
  unfolding home_html page_shell render_full_table
  home_html-outline build rows stats = simp (outlines, pool_table-outline rows)
