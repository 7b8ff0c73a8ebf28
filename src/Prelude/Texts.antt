-- ===== src/Prelude/Texts.antt =====
-- Text as the program walks it: the list of its UTF-16 code units.
use Prim.Native.Nat.{ℕ, zero, suc}
use Prim.Native.Char.{code}
use Prim.Native.String.{String}
use mathlib.Core.Path.{◌≡◌, refl}
use mathlib.Core.Logic.{◌↔◌}
use mathlib.Core.Bool.{Bool, true, false, ◌&&◌}
use mathlib.Core.List.{List, [], ◌∷◌, ◌++◌}
use native.Mathlib.Omega.{arith}
use gwsdb.Prelude.Lists.{any}
use gwsdb.Prelude.Tests.{◌==◌, ltb, if◌then◌else◌}

abbrev pub Text : Type 0
Text = List ℕ

-- A literal of the source, which is ASCII.
abbrev pub codes : String → Text
codes String.[] = []
codes (String.◌∷◌ c s) = code c ∷ codes s

-- `a === b` on texts.
unfoldable pub text_eq : Text → Text → Bool
text_eq [] [] = true
text_eq (a ∷ s) (b ∷ t) = a == b && text_eq s t
text_eq _ _ = false

pub text_eq_iff : (s t : Text) → (text_eq s t ≡ true) ↔ (s ≡ t)
unfolding text_eq
text_eq_iff [] [] = ground arith
text_eq_iff [] (b ∷ t) = ground arith
text_eq_iff (a ∷ s) [] = ground arith
text_eq_iff (a ∷ s) (b ∷ t) = ground (arith, text_eq_iff s t)

pub text_eq_refl : (s : Text) → text_eq s s ≡ true
text_eq_refl s = (text_eq_iff s s).1 refl

-- `s.startsWith(prefix)`
unfoldable pub starts_with : Text → Text → Bool
starts_with s [] = true
starts_with [] (c ∷ p) = false
starts_with (d ∷ s) (c ∷ p) = d == c && starts_with s p

abbrev onto_head : ℕ → List Text → List Text
onto_head c [] = (c ∷ []) ∷ []
onto_head c (t ∷ ts) = (c ∷ t) ∷ ts

-- The pieces of a text between separators of one character more than `tail`; `skip` characters of
-- the separator that was met last are still to be passed over.
split_from : Text → ℕ → Text → List Text
unfolding starts_with
split_from sep skip [] = [] ∷ []
split_from sep (suc k) (c ∷ s) = split_from sep k s
split_from sep zero (c ∷ s) =
    let cut = split_from sep (count sep) s in
    let more = split_from sep 0 s in if starts_with (c ∷ s) sep then [] ∷ cut else onto_head c more
  where
    count : Text → ℕ
    count [] = 0
    count (c ∷ []) = 0
    count (c ∷ d ∷ t) = suc (count (d ∷ t))

-- `s.split(separator)`, for a separator that is not empty.
unfoldable pub split : Text → Text → List Text
unfolding split_from
split sep s = split_from sep 0 s

-- The order of texts by their code units, which is that of SQLite on ASCII text.
unfoldable pub text_lt : Text → Text → Bool
text_lt [] [] = false
text_lt [] (b ∷ t) = true
text_lt (a ∷ s) [] = false
text_lt (a ∷ s) (b ∷ t) = if a == b then text_lt s t else ltb a b

pub text_eq-swap : (s t : Text) → text_eq s t ≡ text_eq t s
text_eq-swap s t = ground (arith, text_eq_iff s t, text_eq_iff t s)

-- A text without the separator's first character is one piece, and the first before a separator.
split_from-none :
    (head : ℕ) (tail s : Text)
    → any (λ c. c == head) s ≡ false
    → split_from (head ∷ tail) 0 s ≡ s ∷ []
unfolding split_from starts_with
split_from-none head tail [] h = refl
split_from-none head tail (c ∷ s) h = ground (arith, split_from-none head tail s)

split_from-piece :
    (head c : ℕ) (s rest : Text)
    → any (λ d. d == head) s ≡ false
    → split_from (head ∷ c ∷ []) 0 (s ++ head ∷ c ∷ rest) ≡ s ∷ split_from (head ∷ c ∷ []) 0 rest
unfolding split_from starts_with
split_from-piece head c [] rest h = ground arith
split_from-piece head c (d ∷ s) rest h = ground (arith, split_from-piece head c s rest)

pub split-piece :
    (head c : ℕ) (s rest : Text)
    → any (λ d. d == head) s ≡ false
    → split (head ∷ c ∷ []) (s ++ head ∷ c ∷ rest) ≡ s ∷ split (head ∷ c ∷ []) rest
unfolding split
split-piece head c s rest h = split_from-piece head c s rest h

pub split-none :
    (head c : ℕ) (s : Text) → any (λ d. d == head) s ≡ false → split (head ∷ c ∷ []) s ≡ s ∷ []
unfolding split
split-none head c s h = split_from-none head (c ∷ []) s h

split_from-piece_of_one :
    (head : ℕ) (s rest : Text)
    → any (λ d. d == head) s ≡ false
    → split_from (head ∷ []) 0 (s ++ head ∷ rest) ≡ s ∷ split_from (head ∷ []) 0 rest
unfolding split_from starts_with
split_from-piece_of_one head [] rest h = ground arith
split_from-piece_of_one head (d ∷ s) rest h = ground (arith, split_from-piece_of_one head s rest)

-- A separator of one character.
pub split-piece_of_one :
    (head : ℕ) (s rest : Text)
    → any (λ d. d == head) s ≡ false
    → split (head ∷ []) (s ++ head ∷ rest) ≡ s ∷ split (head ∷ []) rest
unfolding split
split-piece_of_one head s rest h = split_from-piece_of_one head s rest h

pub split-none_of_one :
    (head : ℕ) (s : Text) → any (λ d. d == head) s ≡ false → split (head ∷ []) s ≡ s ∷ []
unfolding split
split-none_of_one head s h = split_from-none head [] s h
