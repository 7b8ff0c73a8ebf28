-- ===== src/Api/Home/Cycle.antt =====
-- The three states that a header's link goes through.
use gwsdb.Prelude.{
  Text, codes, not, Option, none, some, ◌≡◌, refl, All, In, All-In, subst, sym, if◌then◌else◌,
}
use gwsdb.Api.Home.{HomeColumn, HomeParams, sort_columns, active_sort, active_desc, header_link}

-- What the next clicks show, after one that led to `p1` from a page of the filter `family`.
Cycles : Option Text → HomeColumn → HomeParams → Type 0
Cycles family col p1 =
    let p2 = header_link p1 col in
    let p3 = header_link p2 col in
    (active_sort p1 ≡ some col.param)
    × (active_desc p1 ≡ col.default_desc)
    × (active_sort p2 ≡ some col.param)
    × (active_desc p2 ≡ not col.default_desc)
    × (active_sort p3 ≡ none)
    × (p3.family ≡ family)

-- The first click on a column that is not the active one.
abbrev first_click : HomeParams → HomeColumn → HomeParams
first_click p col = record p {
  nojs = some (codes "1");
  sort = some col.param;
  desc = some (if col.default_desc then codes "1" else codes "0");
}

header_link-first :
    (p : HomeParams) (col : HomeColumn)
    → active_sort p ≡ none
    → header_link p col ≡ first_click p col
unfolding header_link
header_link-first p col idle = rw (header_link, idle)

first_click-Cycles :
    (p : HomeParams) → All (λ col. Cycles p.family col (first_click p col)) sort_columns
unfolding Cycles header_link active_sort active_desc sort_columns
first_click-Cycles p = (
  (refl, refl, refl, refl, refl, refl),
  (
    (refl, refl, refl, refl, refl, refl),
    (
      (refl, refl, refl, refl, refl, refl),
      (
        (refl, refl, refl, refl, refl, refl),
        ((refl, refl, refl, refl, refl, refl), ((refl, refl, refl, refl, refl, refl), tt)),
      ),
    ),
  ),
)

-- From a page that is sorted by none, three clicks on one column sort by it in its own order, then
-- in the other, and then by none; the family filter stays.
pub header_link-cycle :
    (p : HomeParams) (col : HomeColumn)
    → In col sort_columns
    → active_sort p ≡ none
    → let p1 = header_link p col in
      let p2 = header_link p1 col in
      let p3 = header_link p2 col in
      (active_sort p1 ≡ some col.param)
      × (active_desc p1 ≡ col.default_desc)
      × (active_sort p2 ≡ some col.param)
      × (active_desc p2 ≡ not col.default_desc)
      × (active_sort p3 ≡ none)
      × (p3.family ≡ p.family)
unfolding Cycles
header_link-cycle p col here idle =
    subst (Cycles p.family col) (sym (header_link-first p col idle)) (
      All-In (λ c. Cycles p.family c (first_click p c)) col sort_columns here
        (first_click-Cycles p))
