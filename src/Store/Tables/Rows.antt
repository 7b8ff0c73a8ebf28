-- ===== src/Store/Tables/Rows.antt =====
-- What holds of every row of a table after an update, an append and a deletion.
use gwsdb.Prelude.{
  Bool, true, false, some, List, [], ◌∷◌, ◌++◌, ◌≡◌, if◌then◌else◌, arith, keep, find, All, subst,
  Bool-cases, inl, inr,
}
use gwsdb.Store.Tables.{update}

module _ {A : Type 0} (P : A → Type 0) where
  pub All-update :
      (p : A → Bool) (f : A → A) (xs : List A)
      → ((a : A) → P a → P (f a))
      → All P xs
      → All P (update p f xs)
  unfolding update
  All-update p f [] h a = tt
  All-update p f (x ∷ xs) h (px, pxs) = (step (p x), All-update p f xs h pxs)
    where
      step : (b : Bool) → P (if b then f x else x)
      step true = h x px
      step false = px

  pub All-append_one : (xs : List A) (y : A) → All P xs → P y → All P (xs ++ y ∷ [])
  All-append_one [] y a h = (h, tt)
  All-append_one (x ∷ xs) y (px, pxs) h = (px, All-append_one xs y pxs h)

  pub All-keep : (p : A → Bool) (xs : List A) → All P xs → All P (keep p xs)
  All-keep p [] a = tt
  All-keep p (x ∷ xs) (px, pxs) = elim (Bool-cases (p x)) [
    | inl e ↦ rw e (px, All-keep p xs pxs)
    | inr e ↦ rw e (All-keep p xs pxs)
  ]

  pub All-find : (p : A → Bool) (xs : List A) (a : A) → All P xs → find p xs ≡ some a → P a
  All-find p [] a h e = cc
  All-find p (x ∷ xs) a (px, pxs) e = elim (Bool-cases (p x)) [
    | inl hit ↦ subst P (ground arith) px
    | inr miss ↦ All-find p xs a pxs (ground arith)
  ]
