-- ===== src/Geo/Best.antt =====
-- Which of an address's host names places it (`decodeBest` of public/static/geo.js).
use gwsdb.Prelude.{
  ℕ, ◌≤◌, ◌<◌, Text, false, ltb→lt, subst, Option, some, List, [], ◌∷◌, ◌++◌, ◌≡◌, ◌⊎◌, inl, inr,
  refl, ap, arith, All, ltb, Bool-cases,
}
use gwsdb.Geo.{Location, decode, decode_rank, outranks, best_from, decode_best}

abbrev pub rank_of : Text → ℕ
rank_of h = decode_rank (decode h)

-- The names, cut before and after the first of the highest rank, which a location comes from.
pub record Cut (hostnames : List Text) (location : Option Location) : Type 0 where
  pub before : List Text
  pub winner : Text
  pub after : List Text
  pub cut : hostnames ≡ before ++ winner ∷ after
  pub decoded : location ≡ some (decode winner)
  pub lower_before : All (λ h. rank_of h < rank_of winner) before
  pub none_above : All (λ h. rank_of h ≤ rank_of winner) after

-- How the loop ends that has `best` already.
abbrev Outcome : Location → List Text → Option Location → Type 0
Outcome best hs o =
    ((o ≡ some best) × All (λ h. rank_of h ≤ decode_rank best) hs)
    ⊎ ((c : Cut hs o) × (decode_rank best < rank_of c.winner))

abbrev first :
    (h : Text) (hs : List Text) (o : Option Location)
    → o ≡ some (decode h)
    → All (λ k. rank_of k ≤ rank_of h) hs
    → Cut (h ∷ hs) o
first h hs o e a = record {
  before = [];
  winner = h;
  after = hs;
  cut = refl;
  decoded = e;
  lower_before = tt;
  none_above = a;
}

module _ (best : Location) (h : Text) (hs : List Text) (o : Option Location) where
  keep_on : rank_of h ≤ decode_rank best → Outcome best hs o → Outcome best (h ∷ hs) o
  keep_on p (inl (e, a)) = inl (e, (p, a))
  keep_on p (inr (c, lt)) = inr (
    record {
      before = h ∷ c.before;
      winner = c.winner;
      after = c.after;
      cut = ap (◌∷◌ h) c.cut;
      decoded = c.decoded;
      lower_before = (omega arith, c.lower_before);
      none_above = c.none_above;
    },
    lt,
  )

  abbrev later : (c : Cut hs o) → rank_of h < rank_of c.winner → Cut (h ∷ hs) o
  later c lt = record {
    before = h ∷ c.before;
    winner = c.winner;
    after = c.after;
    cut = ap (◌∷◌ h) c.cut;
    decoded = c.decoded;
    lower_before = (lt, c.lower_before);
    none_above = c.none_above;
  }

  take_over : decode_rank best < rank_of h → Outcome (decode h) hs o → Outcome best (h ∷ hs) o
  take_over p (inl (e, a)) = inr (first h hs o e a, p)
  take_over p (inr (c, lt)) = inr (later c lt, omega arith)

not_lt : (a b : ℕ) → ltb a b ≡ false → b ≤ a
not_lt a b h = ground arith

best_from-Outcome : (best : Location) (hs : List Text) → Outcome best hs (best_from (some best) hs)
unfolding best_from outranks
best_from-Outcome best [] = inl (refl, tt)
best_from-Outcome best (h ∷ hs) = elim (Bool-cases (ltb (decode_rank best) (rank_of h))) [
  | inr stays ↦
      rw stays (
        keep_on best h hs (best_from (some best) hs) (not_lt _ _ stays) (best_from-Outcome best hs))
  | inl wins ↦ rw wins (
      take_over best h hs (best_from (some (decode h)) hs) (ltb→lt _ _ wins)
        (best_from-Outcome (decode h) hs))
]

-- Of the host names of an address, if there are any, `decodeBest` takes the first whose rank no
-- other one exceeds: every name before it ranks lower, and no name after it ranks higher.
pub decode_best-Cut : (h : Text) (hs : List Text) → Cut (h ∷ hs) (some (decode_best (h ∷ hs)))
unfolding decode_best best_from outranks
decode_best-Cut h hs = elim (best_from-Outcome (decode h) hs) [
  | inl (e, a) ↦ rw e (first h hs (some (decode h)) refl a)
  | inr (c, lt) ↦
      rw c.decoded (subst (λ o. Cut (h ∷ hs) o) c.decoded (later (decode h) h hs _ c lt))
]
