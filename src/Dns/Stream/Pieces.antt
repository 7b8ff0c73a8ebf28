-- ===== src/Dns/Stream/Pieces.antt =====
-- The stream of src/ptrRefresh.ts and the pieces in which TCP delivers it.
use gwsdb.Prelude.{
  ℕ, zero, suc, ◌+◌, ◌≤◌, ◌<◌, true, false, List, [], ◌∷◌, ◌++◌, ◌≡◌, refl, sym, ap, ◌∙◌, arith,
  Bool-cases, inl, inr, length, take, drop, get_or, length-drop, length-append,
}
use gwsdb.Dns.Wire.{Bytes}
use gwsdb.Dns.Stream.{message_length, is_partial, drain_rounds, drain}

module _ {A : Type 0} where
  get_or-append :
      (xs ys : List A) (i : ℕ) (d : A) → i < length xs → get_or (xs ++ ys) i d ≡ get_or xs i d
  get_or-append [] ys i d h = absurd (omega arith)
  get_or-append (x ∷ xs) ys zero d h = refl
  get_or-append (x ∷ xs) ys (suc i) d h = get_or-append xs ys i d (omega arith)

  take-append : (n : ℕ) (xs ys : List A) → n ≤ length xs → take n (xs ++ ys) ≡ take n xs
  take-append zero xs ys h = refl
  take-append (suc n) [] ys h = absurd (omega arith)
  take-append (suc n) (x ∷ xs) ys h = ap (◌∷◌ x) (take-append n xs ys (omega arith))

  drop-append : (n : ℕ) (xs ys : List A) → n ≤ length xs → drop n (xs ++ ys) ≡ drop n xs ++ ys
  drop-append zero xs ys h = refl
  drop-append (suc n) [] ys h = absurd (omega arith)
  drop-append (suc n) (x ∷ xs) ys h = drop-append n xs ys (omega arith)

abbrev pub rest_of : Bytes → Bytes
rest_of buf = drop (2 + message_length buf) buf

rest_shorter : (buf : Bytes) → is_partial buf ≡ false → length (rest_of buf) < length buf
rest_shorter buf h = ground (arith, length-drop (2 + message_length buf) buf)

-- More rounds than bytes change nothing.
drain_rounds-enough :
    (f g : ℕ) (buf : Bytes)
    → length buf ≤ f
    → length buf ≤ g
    → drain_rounds f buf ≡ drain_rounds g buf
unfolding drain_rounds
drain_rounds-enough zero zero buf h k = refl
drain_rounds-enough zero (suc g) buf h k = ground arith
drain_rounds-enough (suc f) zero buf h k = ground arith
drain_rounds-enough (suc f) (suc g) buf h k = elim (Bool-cases (is_partial buf)) [
  | inl done ↦ rw done
  | inr more ↦ ground (arith, drain_rounds-enough f g (rest_of buf), rest_shorter buf more)
]

pub drain_partial : (buf : Bytes) → is_partial buf ≡ true → drain buf ≡ ([], buf)
unfolding drain
drain_partial buf h = by_rounds (length buf)
  where
    by_rounds : (f : ℕ) → drain_rounds f buf ≡ ([], buf)
    by_rounds zero = unfold drain_rounds in refl
    by_rounds (suc f) = unfold drain_rounds in rw h

pub drain_full :
    (buf : Bytes)
    → is_partial buf ≡ false
    → drain buf
      ≡ (take (message_length buf) (drop 2 buf) ∷ (drain (rest_of buf)).0, (drain (rest_of buf)).1)
unfolding drain
drain_full buf h =
    drain_rounds-enough (length buf) (suc (length buf)) buf (omega arith) (omega arith) ∙ step
  where
    same :
        drain_rounds (length buf) (rest_of buf) ≡ drain_rounds (length (rest_of buf)) (rest_of buf)
    same = drain_rounds-enough _ _ (rest_of buf) (omega (arith, rest_shorter buf h)) (omega arith)

    onto : List Bytes × Bytes → List Bytes × Bytes
    onto r = (take (message_length buf) (drop 2 buf) ∷ r.0, r.1)

    step : drain_rounds (suc (length buf)) buf ≡ (
      take (message_length buf) (drop 2 buf)
          ∷ (drain_rounds (length (rest_of buf)) (rest_of buf)).0,
      (drain_rounds (length (rest_of buf)) (rest_of buf)).1,
    )
    step = unfold drain_rounds in rw (h) (ap onto same)

-- A complete first message stays complete, and the same, when more bytes follow.
module _ (buf more : Bytes) (full : is_partial buf ≡ false) where
  long_enough : 2 + message_length buf ≤ length buf
  long_enough = ground arith

  message_length-append : message_length (buf ++ more) ≡ message_length buf
  message_length-append = omega (
    arith,
    get_or-append buf more 0 0 (omega (arith, long_enough)),
    get_or-append buf more 1 0 (omega (arith, long_enough)),
  )

  full-append : is_partial (buf ++ more) ≡ false
  full-append = ground (arith, long_enough, message_length-append, length-append buf more)

  rest_of-append : rest_of (buf ++ more) ≡ rest_of buf ++ more
  rest_of-append =
      ap (λ n. drop (2 + n) (buf ++ more)) message_length-append
      ∙ drop-append (2 + message_length buf) buf more long_enough

  message-append :
      take (message_length (buf ++ more)) (drop 2 (buf ++ more))
      ≡ take (message_length buf) (drop 2 buf)
  message-append =
      ap (λ n. take n (drop 2 (buf ++ more))) message_length-append
      ∙ ap (take (message_length buf)) (drop-append 2 buf more (omega (arith, long_enough)))
      ∙ take-append (message_length buf) (drop 2 buf) more
          (omega (arith, long_enough, length-drop 2 buf))

abbrev pub then_drain : List Bytes × Bytes → Bytes → List Bytes × Bytes
then_drain r more = (r.0 ++ (drain (r.1 ++ more)).0, (drain (r.1 ++ more)).1)

drain-append_rounds :
    (f : ℕ) (buf more : Bytes) → length buf ≤ f → drain (buf ++ more) ≡ then_drain (drain buf) more
drain-append_rounds zero buf more h = rw (drain_partial buf (ground arith)) refl
drain-append_rounds (suc f) buf more h = elim (Bool-cases (is_partial buf)) [
  | inl partial ↦ rw (drain_partial buf partial) refl
  | inr full ↦
      drain_full (buf ++ more) (full-append buf more full)
      ∙ ap
          (λ b.
            (take (message_length (buf ++ more)) (drop 2 (buf ++ more)) ∷ (drain b).0, (drain b).1))
          (rest_of-append buf more full)
      ∙ ap (λ m. (m ∷ (drain (rest_of buf ++ more)).0, (drain (rest_of buf ++ more)).1))
          (message-append buf more full)
      ∙ ap (λ r. (take (message_length buf) (drop 2 buf) ∷ r.0, r.1))
          (drain-append_rounds f (rest_of buf) more (omega (arith, rest_shorter buf full)))
      ∙ sym (ap (λ r. then_drain r more) (drain_full buf full))
]

pub drain-append : (buf more : Bytes) → drain (buf ++ more) ≡ then_drain (drain buf) more
drain-append buf more = drain-append_rounds (length buf) buf more (omega arith)

-- What is left holds no complete message.
drain-left_rounds : (f : ℕ) (buf : Bytes) → length buf ≤ f → is_partial (drain buf).1 ≡ true
drain-left_rounds zero buf h = rw (drain_partial buf (ground arith)) (ground arith)
drain-left_rounds (suc f) buf h = elim (Bool-cases (is_partial buf)) [
  | inl partial ↦ rw (drain_partial buf partial) partial
  | inr full ↦
      rw (drain_full buf full)
        (drain-left_rounds f (rest_of buf) (omega (arith, rest_shorter buf full)))
]

pub drain-left : (buf : Bytes) → is_partial (drain buf).1 ≡ true
drain-left buf = drain-left_rounds (length buf) buf (omega arith)
