-- ===== src/Markup/Outline.antt =====
-- The outline of a text in HTML: the characters that open and close tags and attributes.
use gwsdb.Prelude.{
  ℕ, Text, codes, Bool, true, false, not, ◌||◌, List, [], ◌∷◌, ◌++◌, ◌≡◌, refl, ap, ◌∙◌, arith, map,
  keep, concat, join, ◌==◌, ◌+◌, ◌/◌, ◌%◌, ltb, every, suc, zero, Bool-cases, inl, inr,
  if◌then◌else◌,
}
use gwsdb.Dns.Asn.{digits_from, decimal_text}
use gwsdb.Html.{escape_html}
use gwsdb.Html.Escape.{entity, is_markup, escape_html-safe}
use gwsdb.Markup.{
  template, is_truthy, has_any, is_unreserved, upper_digit, percent, utf8_bytes, code_points,
  encode_point, encode_uri_component,
}

-- The angle brackets and double quotation marks of a text; no attribute of the pages is in single ones.
unfoldable pub outline : Text → Text
outline s = keep (λ c. (c == b'<') || ((c == b'>') || (c == b'"'))) s

pub outline-append : (s t : Text) → outline (s ++ t) ≡ outline s ++ outline t
unfolding outline
outline-append [] t = refl
outline-append (c ∷ s) t = ground (arith, outline-append s t)

pub both-outline :
    (s s2 t t2 : Text)
    → outline s ≡ outline s2
    → outline t ≡ outline t2
    → outline (s ++ t) ≡ outline (s2 ++ t2)
both-outline s s2 t t2 p q = rw (outline-append s t, outline-append s2 t2) (cc)

pub outline-template : (ps : List Text) → outline (template ps) ≡ concat (map outline ps)
unfolding template outline
outline-template [] = refl
outline-template (p ∷ ps) =
    outline-append p (concat ps) ∙ ap (◌++◌ (outline p)) (outline-template ps)

plain-outline : (s : Text) → every (λ c. not (is_markup c)) s ≡ true → outline s ≡ []
unfolding outline
plain-outline [] h = refl
plain-outline (c ∷ s) h = ground (arith, plain-outline s)

pub outline-escape_html : (s : Text) → outline (escape_html s) ≡ []
outline-escape_html s = plain-outline (escape_html s) (escape_html-safe s).1

pub outline-if :
    (b : Bool) (s t : Text) → outline (if b then s else t) ≡ (if b then outline s else outline t)
outline-if true s t = refl
outline-if false s t = refl

pub concat-outline :
    {A : Type 0} (f : A → Text) (xs : List A)
    → ((x : A) → outline (f x) ≡ [])
    → outline (concat (map f xs)) ≡ []
unfolding outline
concat-outline f [] h = refl
concat-outline f (x ∷ xs) h = rw (outline-append, h x) (concat-outline f xs h)

upper_digit-outline : (d : ℕ) (s : Text) → outline (upper_digit d ∷ s) ≡ outline s
unfolding outline upper_digit
upper_digit-outline d s = ground arith

unreserved-outline : (p : ℕ) → is_unreserved p ≡ true → outline (p ∷ []) ≡ []
unfolding outline is_unreserved
unreserved-outline p h = ground arith

digit-outline : (n : ℕ) (s : Text) → ltb n 10 ≡ true → outline ((b'0' + n) ∷ s) ≡ outline s
unfolding outline
digit-outline n s h = ground arith

digits_from-outline : (f n : ℕ) (acc : Text) → outline acc ≡ [] → outline (digits_from f n acc) ≡ []
unfolding digits_from
digits_from-outline zero n acc h = h
digits_from-outline (suc f) n acc h = elim (Bool-cases (ltb n 10)) [
  | inl small ↦ rw (digits_from, small) (digit-outline n acc small ∙ h)
  | inr large ↦
      rw (digits_from, large)
        (digits_from-outline f (n / 10) ((b'0' + n % 10) ∷ acc)
          (digit-outline (n % 10) acc (ground arith) ∙ h))
]

percent-outline : (b : ℕ) → outline (percent b) ≡ []
unfolding percent outline
percent-outline b =
    upper_digit-outline (b / 16 % 16) (upper_digit (b % 16) ∷ []) ∙ upper_digit-outline (b % 16) []

encode_point-outline : (p : ℕ) → outline (encode_point p) ≡ []
unfolding encode_point
encode_point-outline p = elim (Bool-cases (is_unreserved p)) [
  | inl kept ↦ rw kept (unreserved-outline p kept)
  | inr not_kept ↦ rw not_kept (concat-outline percent (utf8_bytes p) percent-outline)
]

pub outline-encode_uri_component : (s : Text) → outline (encode_uri_component s) ≡ []
unfolding encode_uri_component
outline-encode_uri_component s = concat-outline encode_point (code_points 0 s) encode_point-outline

pub outline-decimal_text : (n : ℕ) → outline (decimal_text n) ≡ []
unfolding decimal_text outline
outline-decimal_text n = digits_from-outline (suc n) n [] refl

-- A text that stands for another's emptiness.
unfoldable pub blank : Text → Text
blank [] = []
blank (c ∷ s) = codes "x"

pub is_truthy-blank : (s : Text) → is_truthy (blank s) ≡ is_truthy s
unfolding is_truthy blank
is_truthy-blank [] = refl
is_truthy-blank (c ∷ s) = refl

pub has_any-map : {A B : Type 0} (f : A → B) (xs : List A) → has_any (map f xs) ≡ has_any xs
unfolding has_any
has_any-map f [] = refl
has_any-map f (x ∷ xs) = refl

-- The rows of entries that have been blanked.
pub outline-join_blank :
    {A : Type 0} (sep : Text) (f : A → Text) (g : A → A) (xs : List A)
    → ((x : A) → outline (f x) ≡ outline (f (g x)))
    → outline (join sep (map f xs)) ≡ outline (join sep (map f (map g xs)))
unfolding join
outline-join_blank sep f g [] h = refl
outline-join_blank sep f g (x ∷ []) h = h x
outline-join_blank sep f g (x ∷ y ∷ xs) h =
    both-outline _ _ _ _ (h x)
      (both-outline sep sep _ _ refl (outline-join_blank sep f g (y ∷ xs) h))

pub is_truthy-escape_html : (s : Text) → is_truthy (escape_html s) ≡ is_truthy s
unfolding is_truthy
is_truthy-escape_html s = ap is_truthy (escape_html-safe s).0 ∙ truth s
  where
    starts : (c : ℕ) (t : Text) → is_truthy (entity c ++ t) ≡ true
    starts c t = ground arith

    truth : (t : Text) → is_truthy (concat (map entity t)) ≡ is_truthy t
    truth [] = refl
    truth (c ∷ t) = starts c (concat (map entity t))
