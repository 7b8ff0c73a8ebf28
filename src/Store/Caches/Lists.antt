-- ===== src/Store/Caches/Lists.antt =====
-- `joinStrings` and `splitStrings` of src/store.ts, which keep a list of texts in one column.
use gwsdb.Prelude.{
  Text, codes, false, ◌==◌, List, [], ◌∷◌, ◌≡◌, refl, ap, ◌∙◌, any, length, ◌≤◌, All, join, split,
  split-piece, split-none, arith,
}
use gwsdb.Store.Sql.{join_strings}
use gwsdb.Store.Reads.{split_strings}

-- A text that may stand in a list: not empty, and without a semicolon.
abbrev pub IsItem : Text → Type 0
IsItem s = (1 ≤ length s) × (any (λ c. c == b';') s ≡ false)

split-join :
    (s : Text) (ts : List Text)
    → All IsItem (s ∷ ts)
    → split (codes "; ") (join (codes "; ") (s ∷ ts)) ≡ s ∷ ts
unfolding join
split-join s [] h = split-none b';' b' ' s h.0.1
split-join s (t ∷ ts) h = split-piece b';' b' ' s _ h.0.1 ∙ ap (◌∷◌ s) (split-join t ts h.1)

pub split_strings-join_strings :
    (ts : List Text) → All IsItem ts → split_strings (join_strings ts) ≡ ts
unfolding split_strings join
split_strings-join_strings [] h = refl
split_strings-join_strings ([] ∷ ts) h = absurd (omega (arith, h.0.0))
split_strings-join_strings ((c ∷ s) ∷ []) h = split-join (c ∷ s) [] h
split_strings-join_strings ((c ∷ s) ∷ t ∷ ts) h = split-join (c ∷ s) (t ∷ ts) h
