-- ===== src/Store/Tables/Keys.antt =====
-- Look-ups by key after an update, an append and a deletion, and tables with one row to a key.
use gwsdb.Prelude.{
  Text, text_eq, text_eq_iff, Bool, true, false, Option, none, some, List, [], ◌∷◌, ◌++◌, ◌≡◌, refl,
  if◌then◌else◌, arith, keep, find, subst,
}
use gwsdb.Store.Tables.{update}

-- A table whose rows have a text for a key.
module _ {A : Type 0} (key : A → Text) where
  abbrev pub by_key : Text → List A → Option A
  by_key k = find (λ a. text_eq (key a) k)

  -- No two rows have one key.
  abbrev pub IsKeyed : List A → Type 0
  IsKeyed [] = Unit
  IsKeyed (x ∷ xs) = (by_key (key x) xs ≡ none) × IsKeyed xs

  abbrev pub apply_if : (A → Bool) → (A → A) → Option A → Option A
  apply_if p f none = none
  apply_if p f (some a) = some (if p a then f a else a)

  abbrev pub only_if : (A → Bool) → Option A → Option A
  only_if p none = none
  only_if p (some a) = if p a then some a else none

  abbrev pub KeepsKey : (A → A) → Type 0
  KeepsKey f = (a : A) → key (f a) ≡ key a

  pub by_key-update :
      (k : Text) (p : A → Bool) (f : A → A) (xs : List A)
      → KeepsKey f
      → by_key k (update p f xs) ≡ apply_if p f (by_key k xs)
  unfolding update
  by_key-update k p f [] h = refl
  by_key-update k p f (x ∷ xs) h = ground (arith, h x, by_key-update k p f xs h)

  abbrev pub or_new : Option A → Option A → Option A
  or_new none y = y
  or_new (some a) y = some a

  pub by_key-append :
      (k : Text) (xs ys : List A) → by_key k (xs ++ ys) ≡ or_new (by_key k xs) (by_key k ys)
  by_key-append k [] ys = refl
  by_key-append k (x ∷ xs) ys = ground (arith, by_key-append k xs ys)

  by_key-head :
      (k : Text) (x : A) (xs : List A)
      → IsKeyed (x ∷ xs)
      → text_eq (key x) k ≡ true
      → by_key k xs ≡ none
  by_key-head k x xs u e =
      subst (λ (k' : Text). by_key k' xs ≡ none) ((text_eq_iff (key x) k).0 e) u.0

  pub by_key-keep :
      (k : Text) (p : A → Bool) (xs : List A)
      → IsKeyed xs
      → by_key k (keep p xs) ≡ only_if p (by_key k xs)
  by_key-keep k p [] u = refl
  by_key-keep k p (x ∷ xs) u = ground (arith, by_key-keep k p xs u.1, by_key-head k x xs u)

  pub by_key_has : (k : Text) (xs : List A) (a : A) → by_key k xs ≡ some a → key a ≡ k
  by_key_has k [] a e = cc
  by_key_has k (x ∷ xs) a e = ground (arith, by_key_has k xs a, text_eq_iff (key x) k)

  pub update-IsKeyed :
      (p : A → Bool) (f : A → A) (xs : List A) → KeepsKey f → IsKeyed xs → IsKeyed (update p f xs)
  unfolding update
  update-IsKeyed p f [] h u = tt
  update-IsKeyed p f (x ∷ xs) h u =
      ground (arith, h x, by_key-update (key x) p f xs h, update-IsKeyed p f xs h u.1)

  pub append-IsKeyed :
      (xs : List A) (y : A) → IsKeyed xs → by_key (key y) xs ≡ none → IsKeyed (xs ++ y ∷ [])
  append-IsKeyed [] y u h = (refl, tt)
  append-IsKeyed (x ∷ xs) y u h = ground (
    arith,
    by_key-append (key x) xs (y ∷ []),
    append-IsKeyed xs y u.1,
    text_eq_iff (key x) (key y),
    text_eq_iff (key y) (key x),
  )

  pub keep-IsKeyed : (p : A → Bool) (xs : List A) → IsKeyed xs → IsKeyed (keep p xs)
  keep-IsKeyed p [] u = tt
  keep-IsKeyed p (x ∷ xs) u = ground (arith, by_key-keep (key x) p xs u.1, keep-IsKeyed p xs u.1)

  -- An update of one key leaves the rows of the others.
  pub by_key-update_ne :
      (j k : Text) (f : A → A) (xs : List A)
      → KeepsKey f
      → text_eq j k ≡ false
      → by_key k (update (λ a. text_eq (key a) j) f xs) ≡ by_key k xs
  unfolding update
  by_key-update_ne j k f [] h ne = refl
  by_key-update_ne j k f (x ∷ xs) h ne = ground (
    arith,
    h x,
    by_key-update_ne j k f xs h ne,
    text_eq_iff (key x) k,
    text_eq_iff (key x) j,
    text_eq_iff j k,
  )
