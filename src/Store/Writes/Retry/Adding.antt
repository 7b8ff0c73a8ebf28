-- ===== src/Store/Writes/Retry/Adding.antt =====
-- What a flush adds to `ip_checks`, where `gate` stands for the WHERE of its statements: a second
-- run over rows that are settled adds nothing.
use gwsdb.Prelude.{
  ℕ, suc, Text, Bool, true, false, ◌||◌, List, [], ◌∷◌, ◌++◌, ◌≡◌, refl, ap, sym, ◌∙◌, ◌⊎◌, inl,
  inr, if◌then◌else◌, arith, All, Bool-cases, text_eq_refl, ==_iff,
}
use gwsdb.CheckRows.{CheckRow}
use gwsdb.Store.Schema.{Check}
use gwsdb.Store.Tables.{has_check, add_check, new_check, max_id}

-- What one row adds, where `gate` tells whether its statement selects anything.
abbrev pub add_if : (CheckRow → Bool) → CheckRow → List Check → List Check
add_if gate row cs = if gate row then add_check row cs else cs

unfoldable pub add_all : (CheckRow → Bool) → List CheckRow → List Check → List Check
add_all gate [] cs = cs
add_all gate (row ∷ rows) cs = add_all gate rows (add_if gate row cs)

has_check-append :
    (ip : Text) (at : ℕ) (cs : List Check) (c : Check)
    → has_check ip at (cs ++ c ∷ []) ≡ (has_check ip at cs || has_check ip at (c ∷ []))
unfolding has_check
has_check-append ip at [] c = refl
has_check-append ip at (d ∷ cs) c = ground (arith, has_check-append ip at cs c)

-- A row that was refused, or whose address and time are there.
abbrev IsSettled : (CheckRow → Bool) → List Check → CheckRow → Type 0
IsSettled gate cs row = (gate row ≡ false) ⊎ (has_check row.ip row.checked_at cs ≡ true)

add_if_settled :
    (gate : CheckRow → Bool) (row : CheckRow) (cs : List Check)
    → IsSettled gate cs row
    → add_if gate row cs ≡ cs
unfolding add_check
add_if_settled gate row cs h = ground arith

has_check_mono :
    (gate : CheckRow → Bool) (row : CheckRow) (cs : List Check) (ip : Text) (at : ℕ)
    → has_check ip at cs ≡ true
    → has_check ip at (add_if gate row cs) ≡ true
unfolding add_check
has_check_mono gate row cs ip at h =
    ground (arith, has_check-append ip at cs (new_check (suc (max_id cs)) row))

add_if-settles :
    (gate : CheckRow → Bool) (row : CheckRow) (cs : List Check)
    → IsSettled gate (add_if gate row cs) row
unfolding add_check has_check new_check
add_if-settles gate row cs = elim (Bool-cases (gate row)) [
  | inl passes ↦ inr (
      ground (
        arith,
        has_check-append row.ip row.checked_at cs (new_check (suc (max_id cs)) row),
        text_eq_refl row.ip,
        ==_iff row.checked_at row.checked_at,
      ))
  | inr shut ↦ inl shut
]

IsSettled-add_all :
    (gate : CheckRow → Bool) (row : CheckRow) (rows : List CheckRow) (cs : List Check)
    → IsSettled gate cs row
    → IsSettled gate (add_all gate rows cs) row
unfolding add_all
IsSettled-add_all gate row [] cs h = h
IsSettled-add_all gate row (r ∷ rows) cs h =
    IsSettled-add_all gate row rows (add_if gate r cs) (step h)
  where
    step : IsSettled gate cs row → IsSettled gate (add_if gate r cs) row
    step (inl shut) = inl shut
    step (inr there) = inr (has_check_mono gate r cs row.ip row.checked_at there)

add_all-settles :
    (gate : CheckRow → Bool) (rows : List CheckRow) (cs : List Check)
    → All (IsSettled gate (add_all gate rows cs)) rows
unfolding add_all
add_all-settles gate [] cs = tt
add_all-settles gate (r ∷ rows) cs = (
  IsSettled-add_all gate r rows (add_if gate r cs) (add_if-settles gate r cs),
  add_all-settles gate rows (add_if gate r cs),
)

add_all_settled :
    (gate : CheckRow → Bool) (rows : List CheckRow) (cs : List Check)
    → All (IsSettled gate cs) rows
    → add_all gate rows cs ≡ cs
unfolding add_all
add_all_settled gate [] cs h = refl
add_all_settled gate (r ∷ rows) cs (h, hs) =
    ap (add_all gate rows) (add_if_settled gate r cs h) ∙ add_all_settled gate rows cs hs

pub add_all-append :
    (gate : CheckRow → Bool) (xs ys : List CheckRow) (cs : List Check)
    → add_all gate (xs ++ ys) cs ≡ add_all gate ys (add_all gate xs cs)
unfolding add_all
add_all-append gate [] ys cs = refl
add_all-append gate (x ∷ xs) ys cs = add_all-append gate xs ys (add_if gate x cs)

-- A run over the whole after a run over a prefix is a run over the whole.
pub add_all-retry :
    (gate : CheckRow → Bool) (xs ys : List CheckRow) (cs : List Check)
    → add_all gate (xs ++ ys) (add_all gate xs cs) ≡ add_all gate (xs ++ ys) cs
add_all-retry gate xs ys cs =
    add_all-append gate xs ys (add_all gate xs cs)
    ∙ ap (add_all gate ys)
        (add_all_settled gate xs (add_all gate xs cs) (add_all-settles gate xs cs))
    ∙ sym (add_all-append gate xs ys cs)

pub add_all-gates :
    (gate gate' : CheckRow → Bool) (rows : List CheckRow) (cs : List Check)
    → All (λ row. gate row ≡ gate' row) rows
    → add_all gate rows cs ≡ add_all gate' rows cs
unfolding add_all
add_all-gates gate gate' [] cs h = refl
add_all-gates gate gate' (r ∷ rows) cs (h, hs) =
    ap (λ b. add_all gate rows (if b then add_check r cs else cs)) h
    ∙ add_all-gates gate gate' rows _ hs
