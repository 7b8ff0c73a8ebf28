-- ===== src/Api/Home.antt =====
-- GET / (functions/index.ts): the parameters of the page without scripts, the links of its headers
-- and its edge-cached load. The markup is left out; a page is the request and what was loaded.
pub mod Cycle
pub mod Page
use gwsdb.Prelude.{
  ℕ, Text, codes, text_eq, Bool, true, false, not, ◌||◌, ◌==◌, Option, none, some, List, [], ◌∷◌,
  map, if◌then◌else◌, or_else,
}
use gwsdb.Store.Schema.{Db}
use gwsdb.Store.Reads.{pool_version}
use gwsdb.Store.Listing.{Loaded, load_pool}
use gwsdb.Html.{is_crawler_ua}
use gwsdb.Api.Pool.{family_of}

-- An entry of `sortColumns`, under its `?sort=` value.
pub record HomeColumn : Type 0 where
  pub param : Text
  pub db_key : Text
  pub label : Text
  pub default_desc : Bool

unfoldable pub sort_columns : List HomeColumn
sort_columns =
    record {
      param = codes "ip";
      db_key = codes "ip";
      label = codes "IP Address";
      default_desc = false;
    }
    ∷ record {
      param = codes "ptr";
      db_key = codes "ptr";
      label = codes "PTR";
      default_desc = false;
    }
    ∷ record {
      param = codes "country";
      db_key = codes "country";
      label = codes "Country";
      default_desc = false;
    }
    ∷ record {
      param = codes "firstSeen";
      db_key = codes "first_seen";
      label = codes "First Seen";
      default_desc = true;
    }
    ∷ record {
      param = codes "lastSeen";
      db_key = codes "last_seen";
      label = codes "Last Reachable";
      default_desc = true;
    }
    ∷ record {
      param = codes "rtt";
      db_key = codes "rtt";
      label = codes "Last RTT";
      default_desc = true;
    }
    ∷ []

unfoldable pub column_of : Text → List HomeColumn → Option HomeColumn
unfolding text_eq
column_of p [] = none
column_of p (c ∷ cs) = let rest = column_of p cs in if text_eq c.param p then some c else rest

-- The parameters of the page's location that the handler reads.
pub record HomeParams : Type 0 where
  pub nojs : Option Text
  pub sort : Option Text
  pub desc : Option Text
  pub family : Option Text

-- `sortCol`; a missing and an empty parameter name no column.
unfoldable pub sort_col : HomeParams → Option HomeColumn
unfolding column_of sort_columns
sort_col p = column_of (or_else p.sort []) sort_columns

unfoldable pub active_sort : HomeParams → Option Text
unfolding sort_col
active_sort p = elim (sort_col p) [ none ↦ none | some c ↦ some (or_else p.sort []) ]

unfoldable pub active_desc : HomeParams → Bool
unfolding sort_col text_eq
active_desc p = elim (sort_col p) [
  | none ↦ true
  | some c ↦ elim p.desc [ none ↦ c.default_desc | some d ↦ text_eq d (codes "1") ]
]

-- What `withParams` sets whatever else is set.
abbrev stay_nojs : HomeParams → HomeParams
stay_nojs p = record p { nojs = some (codes "1") }

abbrev flag : Bool → Text
flag b = if b then codes "1" else codes "0"

abbrev same_order : Bool → Bool → Bool
same_order a b = if a then b else not b

-- The location that the header of a column links to.
unfoldable pub header_link : HomeParams → HomeColumn → HomeParams
unfolding active_sort active_desc text_eq
header_link p col =
    let desc = active_desc p in
    elim (active_sort p) [
      | none ↦ record (stay_nojs p) { sort = some col.param; desc = some (flag col.default_desc) }
      | some s ↦
          if not (text_eq s col.param)
          then record (stay_nojs p) { sort = some col.param; desc = some (flag col.default_desc) }
          else if same_order desc col.default_desc
          then record (stay_nojs p) { sort = some col.param; desc = some (flag (not desc)) }
          else record (stay_nojs p) { sort = none }
    ]

-- The locations of the family filter.
unfoldable pub family_link : HomeParams → Option Text → HomeParams
family_link p family = record (stay_nojs p) { family = family }

pub data HomeReply : Type 0 where
  js_shell : HomeReply
  cached_page : Text → HomeReply
  full_table : HomeParams → Loaded → HomeReply

unfoldable pub wants_table : Text → HomeParams → Bool
unfolding is_crawler_ua text_eq
wants_table ua p = is_crawler_ua ua || text_eq (or_else p.nojs []) (codes "1")

-- The edge cache answers with the page that it holds for the location and the version, if any. The
-- database is that of the three moments at which it is read.
unfoldable pub home_get :
    (List Text → Text)
    → Option (ℕ × ℕ)
    → (HomeParams → ℕ → Option Text)
    → Text
    → HomeParams
    → Db
    → Db
    → Db
    → HomeReply
unfolding wants_table pool_version sort_col active_desc family_of load_pool
home_get country aggregates cache ua p at_version at_load at_overview =
    let sort_by_key : Option Text = elim (sort_col p) [ none ↦ none | some c ↦ some c.db_key ] in
    let loaded =
      load_pool country aggregates
        (record {
          sort_by_key = sort_by_key;
          sort_desc = some (active_desc p);
          family = family_of p.family;
        })
        at_load at_overview in
    let page : HomeReply = elim (cache p (pool_version at_version)) [
      | some held ↦ cached_page held
      | none ↦ full_table p loaded
    ] in
    if wants_table ua p then page else js_shell
