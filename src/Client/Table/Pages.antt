-- ===== src/Client/Table/Pages.antt =====
-- What the pages of the table show (public/static/home.js).
use gwsdb.Prelude.{
  ℕ, zero, suc, ◌+◌, ◌-◌, ◌*◌, ◌≤◌, List, [], ◌∷◌, ◌++◌, ◌≡◌, refl, sym, ap, ◌∙◌, map, arith, take,
  drop, length, concat,
}
use mathlib.Core.List.{append_assoc}
use gwsdb.Client.Table.{
  TableRow, Table, total_pages, settled_page, page_rows, page_size, render_page,
}

-- The numbers from 1 on.
abbrev pub count_to : ℕ → List ℕ
count_to zero = []
count_to (suc n) = count_to n ++ suc n ∷ []

take_nothing : {A : Type 0} (k : ℕ) → take {A = A} k [] ≡ []
take_nothing zero = refl
take_nothing (suc k) = refl

take-add : {A : Type 0} (m k : ℕ) (xs : List A) → take (m + k) xs ≡ take m xs ++ take k (drop m xs)
take-add zero k xs = let same : 0 + k ≡ k = omega arith in ap (λ n. take n xs) same
take-add (suc m) k [] = take_nothing (suc m + k) ∙ sym (take_nothing k)
take-add (suc m) k (x ∷ xs) =
    let next : suc m + k ≡ suc (m + k) = omega arith in
    ap (λ n. take n (x ∷ xs)) next ∙ ap (◌∷◌ x) (take-add m k xs)

take-all : {A : Type 0} (n : ℕ) (xs : List A) → length xs ≤ n → take n xs ≡ xs
take-all zero [] h = refl
take-all (suc n) [] h = refl
take-all zero (x ∷ xs) h = absurd (omega arith)
take-all (suc n) (x ∷ xs) h = ap (◌∷◌ x) (take-all n xs (omega arith))

concat-map-append :
    {A : Type 0} (f : ℕ → List A) (ns : List ℕ) (n : ℕ)
    → concat (map f (ns ++ n ∷ [])) ≡ concat (map f ns) ++ f n
concat-map-append f [] n = append_nil (f n)
  where
    append_nil : {A : Type 0} (xs : List A) → xs ++ [] ≡ xs
    append_nil [] = refl
    append_nil (x ∷ xs) = ap (◌∷◌ x) (append_nil xs)
concat-map-append f (m ∷ ns) n =
    ap (◌++◌ (f m)) (concat-map-append f ns n) ∙ sym (append_assoc (f m) (concat (map f ns)) (f n))

pages-take :
    (rows : List TableRow) (n : ℕ)
    → concat (map (page_rows rows) (count_to n)) ≡ take (n * page_size) rows
unfolding page_rows
pages-take rows zero = refl
pages-take rows (suc n) =
    let before : suc n - 1 ≡ n = omega arith in
    let size : n * page_size + page_size ≡ suc n * page_size = omega arith in
    concat-map-append (page_rows rows) (count_to n) (suc n)
    ∙ ap (λ shown. shown ++ page_rows rows (suc n)) (pages-take rows n)
    ∙ ap (λ m. take (n * page_size) rows ++ take page_size (drop (m * page_size) rows)) before
    ∙ sym (take-add (n * page_size) page_size rows)
    ∙ ap (λ m. take m rows) size

enough_pages : (rows : List TableRow) → length rows ≤ total_pages rows * page_size
unfolding total_pages
enough_pages rows = ground arith

-- Whatever page the table is asked for, the page that it shows is one of the pages that the rows
-- which match the filter take, and there is at least one; and all the pages one after another are
-- exactly those rows, in their order.
pub render_page-pages :
    (t : Table)
    → (1 ≤ (render_page t).0.page)
      × ((render_page t).0.page ≤ total_pages t.matched)
      × ((render_page t).1 ≡ page_rows t.matched (render_page t).0.page)
      × (concat (map (page_rows t.matched) (count_to (total_pages t.matched))) ≡ t.matched)
unfolding render_page settled_page total_pages
render_page-pages t = (
  ground arith,
  ground arith,
  refl,
  pages-take t.matched _ ∙ take-all _ t.matched (enough_pages t.matched),
)
