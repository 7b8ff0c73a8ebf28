-- ===== src/Prelude/Chunks.antt =====
-- Joining and cutting lists: `join`, `new Set`, and the loops that step through an array by slices.
use Prim.Native.Nat.{ℕ, zero, suc, ◌≤◌, ◌<◌}
use mathlib.Core.Path.{◌≡◌, refl, ap, ◌∙◌}
use mathlib.Core.Bool.{Bool, true, false, not, ◌&&◌}
use mathlib.Core.Logic.{inl, inr}
use mathlib.Core.List.{List, [], ◌∷◌, ◌++◌, map, append_assoc}
use native.Mathlib.Omega.{arith}
use gwsdb.Prelude.Tests.{if◌then◌else◌, Bool-cases}
use gwsdb.Prelude.Lists.{length, take, drop, any, All, length-take, length-drop, take-append-drop}
use gwsdb.Prelude.Texts.{Text, text_eq, text_eq_iff}

-- `values.join(separator)`
unfoldable pub join : Text → List Text → Text
join sep [] = []
join sep (s ∷ []) = s
join sep (s ∷ t ∷ rest) = s ++ (sep ++ join sep (t ∷ rest))

abbrev pub mem_text : Text → List Text → Bool
mem_text t ts = any (λ s. text_eq s t) ts

-- `[...new Set(values)]`, in the order of first appearance: `seen` is what went before.
unique_from : List Text → List Text → List Text
unique_from seen [] = []
unique_from seen (t ∷ ts) =
    let rest = unique_from (t ∷ seen) ts in if mem_text t seen then rest else t ∷ rest

unfoldable pub unique : List Text → List Text
unfolding unique_from text_eq
unique ts = unique_from [] ts

mem_text-unique_from :
    (t : Text) (seen ts : List Text)
    → mem_text t (unique_from seen ts) ≡ (mem_text t ts && not (mem_text t seen))
unfolding unique_from
mem_text-unique_from t seen [] = refl
mem_text-unique_from t seen (s ∷ ts) = elim (Bool-cases (text_eq s t)) [
  | inr e ↦ ground (arith, mem_text-unique_from t (s ∷ seen) ts)
  | inl e ↦ ground (
    arith,
    mem_text-unique_from t (s ∷ seen) ts,
    ap (λ u. mem_text u seen) ((text_eq_iff s t).0 e),
  )
]

pub mem_text-unique : (t : Text) (ts : List Text) → mem_text t (unique ts) ≡ mem_text t ts
unfolding unique
mem_text-unique t ts = mem_text-unique_from t [] ts ∙ and_true (mem_text t ts)
  where
    and_true : (b : Bool) → (b && true) ≡ b
    and_true true = refl
    and_true false = refl

module _ {A : Type 0} where
  abbrev pub concat : List (List A) → List A
  concat [] = []
  concat (xs ∷ xss) = xs ++ concat xss

  -- `for (let i = 0; i < xs.length; i += n) … xs.slice(i, i + n)`, with a round for each entry.
  chunk_rounds : ℕ → ℕ → List A → List (List A)
  chunk_rounds zero n xs = []
  chunk_rounds (suc f) n [] = []
  chunk_rounds (suc f) n (x ∷ xs) = take n (x ∷ xs) ∷ chunk_rounds f n (drop n (x ∷ xs))

  unfoldable pub chunks : ℕ → List A → List (List A)
  unfolding chunk_rounds
  chunks n xs = chunk_rounds (length xs) n xs

  concat-chunk_rounds :
      (f n : ℕ) (xs : List A) → 0 < n → length xs ≤ f → concat (chunk_rounds f n xs) ≡ xs
  unfolding chunk_rounds
  concat-chunk_rounds zero n [] p h = refl
  concat-chunk_rounds zero n (x ∷ xs) p h = absurd (omega arith)
  concat-chunk_rounds (suc f) n [] p h = refl
  concat-chunk_rounds (suc f) n (x ∷ xs) p h =
      ap (◌++◌ (take n (x ∷ xs)))
        (concat-chunk_rounds f n (drop n (x ∷ xs)) p (omega (arith, length-drop n (x ∷ xs))))
      ∙ take-append-drop n (x ∷ xs)

  -- The slices are the whole array, in order.
  pub concat-chunks : (n : ℕ) (xs : List A) → 0 < n → concat (chunks n xs) ≡ xs
  unfolding chunks
  concat-chunks n xs p = concat-chunk_rounds (length xs) n xs p (omega arith)

  chunk_rounds-le : (f n : ℕ) (xs : List A) → All (λ ys. length ys ≤ n) (chunk_rounds f n xs)
  unfolding chunk_rounds
  chunk_rounds-le zero n xs = tt
  chunk_rounds-le (suc f) n [] = tt
  chunk_rounds-le (suc f) n (x ∷ xs) =
      (omega (arith, length-take n (x ∷ xs)), chunk_rounds-le f n (drop n (x ∷ xs)))

  pub chunks-le : (n : ℕ) (xs : List A) → All (λ ys. length ys ≤ n) (chunks n xs)
  unfolding chunks
  chunks-le n xs = chunk_rounds-le (length xs) n xs

pub take-map :
    {A B : Type 0} (f : A → B) (j : ℕ) (xs : List A) → take j (map f xs) ≡ map f (take j xs)
take-map f zero xs = refl
take-map f (suc j) [] = refl
take-map f (suc j) (x ∷ xs) = ap (◌∷◌ (f x)) (take-map f j xs)

pub concat-take-drop :
    {A : Type 0} (j : ℕ) (xss : List (List A))
    → concat (take j xss) ++ concat (drop j xss) ≡ concat xss
concat-take-drop zero xss = refl
concat-take-drop (suc j) [] = refl
concat-take-drop (suc j) (xs ∷ xss) =
    append_assoc xs (concat (take j xss)) (concat (drop j xss))
    ∙ ap (◌++◌ xs) (concat-take-drop j xss)
