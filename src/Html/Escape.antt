-- ===== src/Html/Escape.antt =====
-- What stands in a text that has been escaped (src/html.ts).
use mathlib.Core.List.{append_assoc}
use gwsdb.Prelude.{
  ℕ, Text, codes, Bool, true, not, ◌||◌, [], ◌∷◌, ◌++◌, ◌≡◌, refl, sym, ap, ◌∙◌, arith, map, concat,
  every, ◌==◌, if◌then◌else◌, Bool-cases, inl, inr,
}
use gwsdb.Html.{replace_all, escape_html}

-- The text that stands for a character.
abbrev pub entity : ℕ → Text
entity c =
    if c == b'&'
    then codes "&amp;"
    else if c == b'<'
    then codes "&lt;"
    else if c == b'>'
    then codes "&gt;"
    else if c == b'"'
    then codes "&quot;"
    else if c == b'\''
    then codes "&#39;"
    else c ∷ []

-- A character that ends a text or an attribute, or starts a tag.
abbrev pub is_markup : ℕ → Bool
is_markup c = ((c == b'<') || (c == b'>')) || ((c == b'"') || (c == b'\''))

replace_all-append :
    (c : ℕ) (e s t : Text) → replace_all c e (s ++ t) ≡ replace_all c e s ++ replace_all c e t
unfolding replace_all
replace_all-append c e [] t = refl
replace_all-append c e (d ∷ s) t = elim (Bool-cases (d == c)) [
  | inl hit ↦ rw hit (
      ap (◌++◌ e) (replace_all-append c e s t)
      ∙ sym (append_assoc e (replace_all c e s) (replace_all c e t)))
  | inr miss ↦ rw miss (ap (◌∷◌ d) (replace_all-append c e s t))
]

escape_html-append : (s t : Text) → escape_html (s ++ t) ≡ escape_html s ++ escape_html t
unfolding escape_html
escape_html-append s t = simp replace_all-append

escape_html-one : (c : ℕ) → escape_html (c ∷ []) ≡ entity c
unfolding escape_html replace_all
escape_html-one c = elim (Bool-cases (c == b'&')) [
  | inl e ↦ rw e
  | inr n1 ↦ elim (Bool-cases (c == b'<')) [
    | inl e ↦ rw (n1, e)
    | inr n2 ↦ elim (Bool-cases (c == b'>')) [
      | inl e ↦ rw (n1, n2, e)
      | inr n3 ↦ elim (Bool-cases (c == b'"')) [
        | inl e ↦ rw (n1, n2, n3, e)
        | inr n4 ↦ elim (Bool-cases (c == b'\'')) [
          | inl e ↦ rw (n1, n2, n3, n4, e)
          | inr n5 ↦ rw (n1, n2, n3, n4, n5)
        ]
      ]
    ]
  ]
]

escape_html-map : (s : Text) → escape_html s ≡ concat (map entity s)
unfolding escape_html replace_all
escape_html-map [] = refl
escape_html-map (c ∷ s) =
    escape_html-append (c ∷ []) s
    ∙ ap (λ t. t ++ escape_html s) (escape_html-one c)
    ∙ ap (◌++◌ (entity c)) (escape_html-map s)

every-append :
    (s t : Text)
    → every (λ c. not (is_markup c)) s ≡ true
    → every (λ c. not (is_markup c)) t ≡ true
    → every (λ c. not (is_markup c)) (s ++ t) ≡ true
every-append [] t h k = k
every-append (c ∷ s) t h k = ground (arith, every-append s t)

entity_plain : (c : ℕ) → every (λ d. not (is_markup d)) (entity c) ≡ true
entity_plain c = ground arith

entities_plain : (s : Text) → every (λ d. not (is_markup d)) (concat (map entity s)) ≡ true
entities_plain [] = refl
entities_plain (c ∷ s) = every-append (entity c) _ (entity_plain c) (entities_plain s)

-- Whatever the text, the five replacements one after another come to one pass that writes each
-- character as its own entity or as itself, and no angle bracket and no quotation mark is left.
pub escape_html-safe :
    (s : Text)
    → (escape_html s ≡ concat (map entity s))
      × (every (λ c. not (is_markup c)) (escape_html s) ≡ true)
escape_html-safe s =
    (escape_html-map s, ap (every (λ c. not (is_markup c))) (escape_html-map s) ∙ entities_plain s)
