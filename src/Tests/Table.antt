-- ===== src/Tests/Table.antt =====
-- A table of two rows, and the cells of one.
use gwsdb.Prelude.{codes, true, false, none, [], ◌∷◌, ◌≡◌, ◌≤◌, refl, concat, map}
use gwsdb.Client.Rows.{
  SentRow, Nodes, no_nodes, and_then, element, text_node, fill_ptr_cell, fill_country_cell,
}
use gwsdb.Client.Table.{
  TableRow, Table, by_ip, by_rtt, filter, sort, render_page, page_rows, total_pages,
}
use gwsdb.Client.Table.Pages.{count_to, render_page-pages}
use gwsdb.Tests.Fixtures.{google}

abbrev first_row : TableRow
first_row = record {
  ip = google;
  ptr_list = codes "dfw06s16-in-f31.1e100.net" ∷ [];
  country = codes "United States";
  status = codes "Reachable";
  first_seen = [];
  last_seen = [];
  last_rtt_ms = 40;
}

abbrev second_row : TableRow
second_row = record first_row { ip = codes "8.8.4.4"; country = codes "Japan"; last_rtt_ms = 50 }

abbrev loaded : Table
loaded = record {
  all_rows = first_row ∷ second_row ∷ [];
  matched = [];
  natural_order = [];
  sort_col = none;
  sort_dir = 0;
  page = 7;
}

abbrev filtered : Table
filtered = (filter (codes " 1E100 ") false loaded).0

finds_both : filtered.matched ≡ first_row ∷ second_row ∷ []
unfolding filter
finds_both = refl

finds_one : (filter (codes "japan") false loaded).1 ≡ second_row ∷ []
unfolding filter
finds_one = refl

-- Three clicks: down, up, and back to the natural order.
down_once : (sort by_rtt true filtered).1 ≡ second_row ∷ first_row ∷ []
unfolding filter sort
down_once = refl

back_again :
    (sort by_rtt true (sort by_rtt true (sort by_rtt true filtered).0).0).1
    ≡ first_row ∷ second_row ∷ []
unfolding filter sort
back_again = refl

by_address : (sort by_ip false filtered).1 ≡ second_row ∷ first_row ∷ []
unfolding filter sort
by_address = refl

abbrev shown : Table
shown = record loaded { matched = first_row ∷ second_row ∷ [] }

render_page-pages_example :
    (1 ≤ (render_page shown).0.page)
    × ((render_page shown).0.page ≤ total_pages shown.matched)
    × ((render_page shown).1 ≡ page_rows shown.matched (render_page shown).0.page)
    × (concat (map (page_rows shown.matched) (count_to (total_pages shown.matched)))
        ≡ shown.matched)
render_page-pages_example = render_page-pages shown

-- The row of an address that did not answer, with two names and no country.
abbrev silent_row : SentRow
silent_row = record {
  ip = google;
  revision = 3;
  ptr_list = codes "a" ∷ codes "<b>" ∷ [];
  country = none;
  country_code = none;
  status = codes "Unreachable";
  first_seen = codes "-";
  last_seen = codes "-";
  last_rtt_ms = 0;
}

abbrev names_cell : Nodes
names_cell =
    and_then
      (element (codes "tt") [] (
        and_then
          (element (codes "a") ((codes "href", codes "/query?ip=a") ∷ [])
            (and_then (text_node (codes "a")) no_nodes))
          (and_then (element (codes "br") [] no_nodes) (
            and_then
              (element (codes "a") ((codes "href", codes "/query?ip=%3Cb%3E") ∷ [])
                (and_then (text_node (codes "<b>")) no_nodes))
              no_nodes))))
      no_nodes

names_built : fill_ptr_cell silent_row.ptr_list ≡ names_cell
unfolding fill_ptr_cell
names_built = refl

no_country : fill_country_cell [] [] ≡ and_then (text_node (codes "-")) no_nodes
unfolding fill_country_cell
no_country = refl
