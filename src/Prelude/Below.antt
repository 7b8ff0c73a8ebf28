-- ===== src/Prelude/Below.antt =====
-- The numbers below a bound, for what is checked of each of them by evaluation.
use Prim.Native.Nat.{ℕ, zero, suc, ◌<◌}
use mathlib.Core.Path.{◌≡◌, ap}
use mathlib.Core.Logic.{inl, inr}
use mathlib.Core.Bool.{Bool, true}
use mathlib.Core.List.{List, [], ◌∷◌, map}
use native.Mathlib.Omega.{arith}
use gwsdb.Prelude.Tests.{◌==◌, ==_iff, Bool-cases}
use gwsdb.Prelude.Lists.{every}

-- From the largest down.
abbrev pub down : ℕ → List ℕ
down zero = []
down (suc n) = n ∷ down n

abbrev head_or : {A : Type 0} → A → List A → A
head_or a [] = a
head_or a (x ∷ xs) = x

abbrev rest_of : {A : Type 0} → List A → List A
rest_of [] = []
rest_of (x ∷ xs) = xs

pub map-down :
    {A : Type 0} (f g : ℕ → A) (n i : ℕ) → map f (down n) ≡ map g (down n) → i < n → f i ≡ g i
map-down f g zero i h p = absurd (omega arith)
map-down f g (suc n) i h p = elim (Bool-cases (i == n)) [
  | inl last ↦ rw ((==_iff i n).0 last) (ap (head_or (f i)) h)
  | inr before ↦ map-down f g n i (ap rest_of h) (ground (arith, ==_iff i n))
]

pub every-down : (p : ℕ → Bool) (n i : ℕ) → every p (down n) ≡ true → i < n → p i ≡ true
every-down p zero i h lt = absurd (omega arith)
every-down p (suc n) i h lt = ground (arith, ==_iff i n, every-down p n i)
