-- ===== src/Store/Tables/Sorting.antt =====
-- Sorting a table with unique keys, and mapping it, leaves its look-ups.
use gwsdb.Prelude.{Text, text_eq_iff, Bool, none, List, [], ◌∷◌, ◌≡◌, refl, map, arith, ◌∙◌}
use gwsdb.Store.Tables.Keys.{by_key, IsKeyed}
use gwsdb.Store.Reads.{insert_by, sort_by, map_option}

module _ {A : Type 0} (key : A → Text) (lt : A → A → Bool) where
  by_key-insert_by :
      (k : Text) (x : A) (ys : List A)
      → by_key key (key x) ys ≡ none
      → by_key key k (insert_by lt x ys) ≡ by_key key k (x ∷ ys)
  unfolding insert_by
  by_key-insert_by k x [] h = refl
  by_key-insert_by k x (y ∷ ys) h = ground (
    arith,
    by_key-insert_by k x ys,
    text_eq_iff (key x) k,
    text_eq_iff (key y) k,
    text_eq_iff (key y) (key x),
  )

  insert_by-IsKeyed :
      (x : A) (ys : List A)
      → by_key key (key x) ys ≡ none
      → IsKeyed key ys
      → IsKeyed key (insert_by lt x ys)
  unfolding insert_by
  insert_by-IsKeyed x [] h u = (refl, tt)
  insert_by-IsKeyed x (y ∷ ys) h u = ground (
    arith,
    by_key-insert_by (key y) x ys,
    insert_by-IsKeyed x ys,
    text_eq_iff (key y) (key x),
    text_eq_iff (key x) (key y),
  )

  abbrev pub SortedLike : List A → Type 0
  SortedLike xs =
      ((k : Text) → by_key key k (sort_by lt xs) ≡ by_key key k xs) × IsKeyed key (sort_by lt xs)

  pub sort_by_keys : (xs : List A) → IsKeyed key xs → SortedLike xs
  unfolding sort_by
  sort_by_keys [] u = (λ k. refl, tt)
  sort_by_keys (x ∷ xs) u =
      let (same, keyed) = sort_by_keys xs u.1 in
      let absent : by_key key (key x) (sort_by lt xs) ≡ none = same (key x) ∙ u.0 in
      (
        λ k. ground (arith, by_key-insert_by k x (sort_by lt xs) absent, same k),
        insert_by-IsKeyed x (sort_by lt xs) absent keyed,
      )

module _ {A B : Type 0} (key : A → Text) (key' : B → Text) (f : A → B) where
  pub by_key-map :
      (k : Text) (xs : List A)
      → ((a : A) → key' (f a) ≡ key a)
      → by_key key' k (map f xs) ≡ map_option f (by_key key k xs)
  by_key-map k [] h = refl
  by_key-map k (x ∷ xs) h = ground (arith, h x, by_key-map k xs h)

  pub map-IsKeyed :
      (xs : List A) → ((a : A) → key' (f a) ≡ key a) → IsKeyed key xs → IsKeyed key' (map f xs)
  map-IsKeyed [] h u = tt
  map-IsKeyed (x ∷ xs) h u =
      (ground (arith, h x, by_key-map (key x) xs h, u.0), map-IsKeyed xs h u.1)
