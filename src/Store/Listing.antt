-- ===== src/Store/Listing.antt =====
-- The whole pool as a page asks for it: `listKnownIPs` of src/store.ts, with the columns that it may
-- sort by, its filters and its limit, and `loadPool` of src/pool.ts.
-- LIKE is SQLite's: `%` stands for any text, `_` for one character, and ASCII letters match in
-- either case. NULL comes before every value of a column.
pub mod Loads
use gwsdb.Prelude.{
  ℕ, ◌+◌, zero, suc, Text, codes, text_eq, text_lt, Bool, true, false, not, ◌&&◌, ◌||◌, Option,
  none, some, List, [], ◌∷◌, ◌++◌, map, ltb, leb, ◌==◌, if◌then◌else◌, is_some, or_else, keep, take,
}
use gwsdb.Store.Schema.{PoolRow, PtrRow, Db}
use gwsdb.Store.Tables.{ptr_row}
use gwsdb.Store.Reads.{IpStatus, Stats, joined_status, ptr_text, sort_by, overview}

pub data SortColumn : Type 0 where
  by_ip by_ptr by_status by_first_seen by_last_seen by_rtt : SortColumn

-- `listKnownIPsSortColumns[opts.sortBy ?? ""] ?? "last_seen"`
unfoldable pub sort_column : Option Text → SortColumn
unfolding text_eq
sort_column key =
    let name = or_else key [] in
    if text_eq name (codes "ip")
    then by_ip
    else if text_eq name (codes "ptr")
    then by_ptr
    else if text_eq name (codes "status")
    then by_status
    else if text_eq name (codes "first_seen")
    then by_first_seen
    else if text_eq name (codes "rtt")
    then by_rtt
    else by_last_seen

pub record ListKnownIpsOptions : Type 0 where
  pub only_up : Bool
  pub family : Option ℕ
  pub search : Option Text
  pub sort_by_key : Option Text
  pub sort_desc : Bool
  pub limit : Option ℕ

-- `a < b` of a nullable column.
abbrev null_lt : {A : Type 0} → (A → A → Bool) → Option A → Option A → Bool
null_lt lt a none = false
null_lt lt none (some b) = true
null_lt lt (some a) (some b) = lt a b

abbrev bool_lt : Bool → Bool → Bool
bool_lt a b = not a && b

abbrev pub ptr_of : Db → PoolRow → Option Text
ptr_of db r = ptr_text (ptr_row r.ip db.ptr_cache)

unfoldable pub column_lt : SortColumn → Db → PoolRow → PoolRow → Bool
unfolding text_lt
column_lt by_ip db a b = text_lt a.ip b.ip
column_lt by_ptr db a b = null_lt text_lt (ptr_of db a) (ptr_of db b)
column_lt by_status db a b = null_lt bool_lt a.last_check_ok b.last_check_ok
column_lt by_first_seen db a b = null_lt ltb a.first_seen b.first_seen
column_lt by_last_seen db a b = null_lt ltb a.last_seen b.last_seen
column_lt by_rtt db a b = null_lt ltb a.last_rtt_ms b.last_rtt_ms

-- ORDER BY column direction, last_seen DESC
unfoldable pub listing_lt : SortColumn → Bool → Db → PoolRow → PoolRow → Bool
unfolding column_lt
listing_lt column desc db a b =
    let below = if desc then column_lt column db b a else column_lt column db a b in
    let above = if desc then column_lt column db a b else column_lt column db b a in
    below || (not above && null_lt ltb b.last_seen a.last_seen)

abbrev fold_case : ℕ → ℕ
fold_case c = if leb 65 c && leb c 90 then c + 32 else c

abbrev any_rest : (Text → Bool) → Text → Bool
any_rest p [] = p []
any_rest p (c ∷ s) = p (c ∷ s) || any_rest p s

abbrev one_more : (ℕ → Bool) → (Text → Bool) → Text → Bool
one_more p q [] = false
one_more p q (c ∷ s) = p c && q s

-- `s LIKE pattern`
unfoldable pub like : Text → Text → Bool
like [] [] = true
like [] (c ∷ s) = false
like (p ∷ ps) s =
    if p == 37
    then any_rest (like ps) s
    else one_more (λ c. (p == 95) || (fold_case p == fold_case c)) (like ps) s

abbrev like_null : Text → Option Text → Bool
like_null pattern none = false
like_null pattern (some s) = like pattern s

-- The WHERE clause, whose conditions stand where the options ask for them.
unfoldable pub is_listed : ListKnownIpsOptions → Db → PoolRow → Bool
unfolding like
is_listed opts db r =
    (not opts.only_up || or_else r.last_check_ok true)
    && (in_family opts.family && found opts.search)
  where
    in_family : Option ℕ → Bool
    in_family none = true
    in_family (some f) = if f == 4 then not r.is_ipv6 else if f == 6 then r.is_ipv6 else true

    found : Option Text → Bool
    found none = true
    found (some []) = true
    found (some (c ∷ s)) =
        let pattern = codes "%" ++ (c ∷ s) ++ codes "%" in
        like pattern r.ip || like_null pattern (ptr_of db r)

-- `if (opts.limit && opts.limit > 0)` LIMIT
abbrev limited : {A : Type 0} → Option ℕ → List A → List A
limited none xs = xs
limited (some zero) xs = xs
limited (some (suc n)) xs = take (suc n) xs

unfoldable pub list_known_ips : Db → ListKnownIpsOptions → List IpStatus
unfolding joined_status sort_by sort_column listing_lt is_listed
list_known_ips db opts = map (joined_status db.ptr_cache) (
    limited opts.limit (
      sort_by (listing_lt (sort_column opts.sort_by_key) opts.sort_desc db)
        (keep (is_listed opts db) db.pool)))

pub record LoadPoolOptions : Type 0 where
  pub sort_by_key : Option Text
  pub sort_desc : Option Bool
  pub family : Option ℕ

pub record Loaded : Type 0 where
  pub ips : List IpStatus
  pub stats : Stats

-- What `loadPool` asks of `listKnownIPs`.
unfoldable pub load_options : LoadPoolOptions → ListKnownIpsOptions
unfolding text_eq
load_options opts =
    let key = or_else opts.sort_by_key (codes "last_seen") in
    record {
      only_up = false;
      family = opts.family;
      search = none;
      sort_by_key = if text_eq key (codes "country") then none else some key;
      sort_desc = or_else opts.sort_desc true;
      limit = none;
    }

-- The comparator of `ips.sort`, by the country that `toIPRow` has decoded from the host names.
unfoldable pub country_lt : (List Text → Text) → Bool → IpStatus → IpStatus → Bool
unfolding text_lt
country_lt country desc a b =
    let x = country a.ptr_hostname in
    let y = country b.ptr_hostname in if desc then text_lt y x else text_lt x y

-- `loadPool`, at the moments of its two reads.
unfoldable pub load_pool : (List Text → Text) → Option (ℕ × ℕ) → LoadPoolOptions → Db → Db → Loaded
unfolding list_known_ips load_options country_lt sort_by overview text_eq
load_pool country aggregates opts db later =
    let known = list_known_ips db (load_options opts) in
    record {
      ips =
          if text_eq (or_else opts.sort_by_key (codes "last_seen")) (codes "country")
          then sort_by (country_lt country (or_else opts.sort_desc true)) known
          else known;
      stats = overview aggregates later;
    }
