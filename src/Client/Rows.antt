-- ===== src/Client/Rows.antt =====
-- What a row of the home page says (public/static/home.js): the rows as the API sends them, their
-- decoding in `renderData`, and the elements that `buildRow` makes of one, in their order.
use gwsdb.Prelude.{
  ℕ, Text, codes, text_eq, Bool, true, false, Option, none, some, List, [], ◌∷◌, ◌++◌, ◌≡◌, refl,
  ◌==◌, ◌||◌, if◌then◌else◌, or_else,
}
use gwsdb.Dns.Asn.{decimal_text}
use gwsdb.Geo.{decode_best, country_code}
use gwsdb.Markup.{is_truthy, encode_uri_component}
use gwsdb.Store.Reads.{IpStatus}
use gwsdb.Api.Home.Page.{IpRow, to_ip_row, row_country, row_country_code}

-- A row in the browser; `none` is undefined.
pub record SentRow : Type 0 where
  pub ip : Text
  pub revision : ℕ
  pub ptr_list : List Text
  pub country : Option Text
  pub country_code : Option Text
  pub status : Text
  pub first_seen : Text
  pub last_seen : Text
  pub last_rtt_ms : ℕ

-- `({ country: _country, countryCode: _countryCode, ...rest }) => rest`
unfoldable pub sent_row : IpRow → SentRow
sent_row row = record {
  ip = row.ip;
  revision = row.revision;
  ptr_list = row.ptr_list;
  country = none;
  country_code = none;
  status = row.status;
  first_seen = row.first_seen;
  last_seen = row.last_seen;
  last_rtt_ms = row.last_rtt_ms;
}

-- The decoding of one row in `renderData`.
unfoldable pub decode_row : SentRow → SentRow
unfolding decode_best country_code
decode_row row = elim row.country [
  | some c ↦ row
  | none ↦
      let loc = decode_best row.ptr_list in
      record row { country = some loc.country; country_code = some (country_code loc.country) }
]

-- What the page builds: elements with their attributes and children, and texts.
mutual
  pub data Node : Type 0 where
    element : Text → List (Text × Text) → Nodes → Node
    text_node : Text → Node

  pub data Nodes : Type 0 where
    no_nodes : Nodes
    and_then : Node → Nodes → Nodes

abbrev one_node : Node → Nodes
one_node n = and_then n no_nodes

-- `a.href = '/query?ip=' + …; a.textContent = …`
unfoldable pub query_anchor : Text → Node
unfolding encode_uri_component
query_anchor t =
    element (codes "a") ((codes "href", codes "/query?ip=" ++ encode_uri_component t) ∷ [])
      (one_node (text_node t))

-- The loop over the names: a break before each but the first.
unfoldable pub ptr_anchors : Bool → List Text → Nodes
unfolding query_anchor
ptr_anchors first [] = no_nodes
ptr_anchors first (h ∷ hs) =
    let rest = and_then (query_anchor h) (ptr_anchors false hs) in
    if first then rest else and_then (element (codes "br") [] no_nodes) rest

-- `fillPtrCell`, as the children of the cell.
unfoldable pub fill_ptr_cell : List Text → Nodes
unfolding ptr_anchors
fill_ptr_cell [] = one_node (text_node (codes "-"))
fill_ptr_cell (h ∷ hs) = one_node (element (codes "tt") [] (ptr_anchors true (h ∷ hs)))

-- `fillCountryCell`
unfoldable pub fill_country_cell : Text → Text → Nodes
unfolding is_truthy encode_uri_component
fill_country_cell country code =
    let name = one_node (text_node (if is_truthy country then country else codes "-")) in
    let img =
      element (codes "img")
        ((codes "src", codes "/static/flags/" ++ (encode_uri_component code ++ codes ".gif"))
          ∷ (codes "alt", code)
          ∷ (codes "title", country)
          ∷ (codes "height", codes "11")
          ∷ [])
        no_nodes in
    if is_truthy code then and_then img (and_then (text_node (codes " ")) name) else name

-- The mark before the address, for a row that has one of the two statuses.
unfoldable pub with_mark : Text → Nodes → Nodes
unfolding text_eq
with_mark status after =
    let reachable = text_eq status (codes "Reachable") in
    let font =
      element (codes "font")
        ((codes "class", codes "gwsdb-row-status")
          ∷ (codes "color", if reachable then codes "#008000" else codes "#CC0000")
          ∷ (codes "title", status)
          ∷ (codes "aria-label", status)
          ∷ [])
        (one_node (text_node (if reachable then codes "✓" else codes "✗"))) in
    if reachable || text_eq status (codes "Unreachable") then and_then font after else after

abbrev cell : Nodes → Node
cell children = element (codes "td") [] children

abbrev text_cell : Text → Node
text_cell t = cell (one_node (text_node t))

-- `buildRow` of this page.
unfoldable pub home_row : SentRow → Node
unfolding fill_ptr_cell fill_country_cell with_mark query_anchor text_eq
home_row row =
    let class =
      if text_eq row.status (codes "Unreachable")
      then (codes "class", codes "gwsdb-unreachable") ∷ []
      else [] in
    let rtt =
      if row.last_rtt_ms == 0 then codes "-" else decimal_text row.last_rtt_ms ++ codes " ms" in
    let link = element (codes "tt") [] (one_node (query_anchor row.ip)) in
    let country = fill_country_cell (or_else row.country []) (or_else row.country_code []) in
    element (codes "tr") class (
      and_then (cell (with_mark row.status (one_node link))) (
        and_then (cell (fill_ptr_cell row.ptr_list)) (
          and_then (cell country) (
            and_then (text_cell row.first_seen)
              (and_then (text_cell row.last_seen) (one_node (text_cell rtt)))))))

-- Sending a row without its country loses nothing: what the browser decodes of the row that it is sent
-- is the country, and the code, that the server gives the row of its own page.
decode_row-to_ip_row :
    (st : IpStatus)
    → ((decode_row (sent_row (to_ip_row st))).country ≡ some (to_ip_row st).country)
      × ((decode_row (sent_row (to_ip_row st))).country_code ≡ some (to_ip_row st).country_code)
unfolding decode_row sent_row to_ip_row row_country row_country_code
decode_row-to_ip_row st = by_names st.ptr_hostname
  where
    by_names :
        (hs : List Text)
        → (some (decode_best hs).country ≡ some (row_country hs))
          × (some (country_code (decode_best hs).country) ≡ some (row_country_code hs))
    by_names [] = unfold decode_best country_code in (refl, refl)
    by_names (h ∷ hs) = (refl, refl)
