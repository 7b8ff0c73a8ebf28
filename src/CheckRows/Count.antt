-- ===== src/CheckRows/Count.antt =====
-- How many rows of one address the coalescing sends on.
use gwsdb.Prelude.{
  ℕ, suc, ◌+◌, ◌≤◌, Text, text_eq, text_eq_iff, Bool, true, false, ◌||◌, Option, none, some, List,
  [], ◌∷◌, ◌≡◌, refl, sym, ap, ◌∙◌, ◌==◌, if◌then◌else◌, arith, Bool-cases, inl, inr, any, All,
  keep, length, text_eq-swap, get_or,
}
use gwsdb.CheckRows.{
  CheckRow, Seen, Latest, ByIp, visit, gather, emit, emit_all, coalesce_check_rows,
}
use gwsdb.CheckRows.Filed.{IsFiledEntry, gather-IsFiled, Stand-get_or, no_row}

abbrev has_key : Text → ByIp → Bool
has_key ip m = any (λ (p : Text × Latest). text_eq p.0 ip) m

abbrev IsDistinct : ByIp → Type 0
IsDistinct [] = Unit
IsDistinct ((k, e) ∷ m) = (has_key k m ≡ false) × IsDistinct m

visit-has_key :
    (ip : Text) (s : Seen) (m : ByIp)
    → has_key ip (visit s m) ≡ (text_eq s.row.ip ip || has_key ip m)
unfolding visit
visit-has_key ip s [] = refl
visit-has_key ip s ((k, e) ∷ m) =
    ground (
      arith,
      visit-has_key ip s m,
      text_eq_iff k s.row.ip,
      text_eq_iff k ip,
      text_eq_iff s.row.ip ip,
    )

visit-IsDistinct : (s : Seen) (m : ByIp) → IsDistinct m → IsDistinct (visit s m)
unfolding visit
visit-IsDistinct s [] d = (refl, tt)
visit-IsDistinct s ((k, e) ∷ m) (fresh, d) = elim (Bool-cases (text_eq k s.row.ip)) [
  | inl same ↦ rw same (fresh, d)
  | inr other ↦
      rw other
        (ground (arith, visit-has_key k s m, text_eq-swap k s.row.ip), visit-IsDistinct s m d)
]

gather-IsDistinct :
    (i : ℕ) (rows : List CheckRow) (m : ByIp) → IsDistinct m → IsDistinct (gather i rows m)
unfolding gather
gather-IsDistinct i [] m d = d
gather-IsDistinct i (r ∷ rows) m d =
    gather-IsDistinct (suc i) rows _ (visit-IsDistinct (record { position = i; row = r }) m d)

-- The rows of one address.
abbrev pub rows_of : Text → List CheckRow → List CheckRow
rows_of ip rows = keep (λ (r : CheckRow). text_eq r.ip ip) rows

module _ (at : ℕ → CheckRow) (ip : Text) where
  -- An entry adds two rows at most, and only to its own address.
  emit-count :
      (k : Text) (l : Seen) (o : Option Seen) (out : List CheckRow)
      → IsFiledEntry at (k, record { latest = l; latest_success = o })
      → length (rows_of ip (emit (record { latest = l; latest_success = o }) out))
        ≤ (if text_eq k ip then 2 else 0) + length (rows_of ip out)
  unfolding emit
  emit-count k l none out ((a, b), f) = ground (arith, ap (λ t. text_eq t ip) b)
  emit-count k l (some s) out ((a, b), ((c, d), ok)) =
      elim (Bool-cases (s.position == l.position)) [
        | inl e ↦ rw e (ground (arith, ap (λ t. text_eq t ip) b))
        | inr e ↦ rw e (ground (arith, ap (λ t. text_eq t ip) b, ap (λ t. text_eq t ip) d))
      ]

  emit_all-count :
      (m : ByIp)
      → All (IsFiledEntry at) m
      → IsDistinct m
      → length (rows_of ip (emit_all m)) ≤ (if has_key ip m then 2 else 0)
  unfolding emit_all
  emit_all-count [] a d = omega arith
  emit_all-count ((k, e) ∷ m) (f, a) (fresh, d) = ground (
    arith,
    emit-count k e.latest e.latest_success (emit_all m) f,
    emit_all-count m a d,
    fresh_key m k fresh,
  )
    where
      fresh_key :
          (m : ByIp) (k : Text) → has_key k m ≡ false → text_eq k ip ≡ true → has_key ip m ≡ false
      fresh_key m k h e = ap (λ t. has_key t m) (sym ((text_eq_iff k ip).0 e)) ∙ h

-- Of one address, however many checks of it a flush holds, at most two rows are sent on.
pub coalesce-count :
    (ip : Text) (rows : List CheckRow) → length (rows_of ip (coalesce_check_rows rows)) ≤ 2
unfolding coalesce_check_rows
coalesce-count ip rows =
    let at = λ (j : ℕ). get_or rows j no_row in
    let bound =
      emit_all-count at ip (gather 0 rows [])
        (gather-IsFiled at 0 rows [] (Stand-get_or at 0 rows no_row (λ j. ap at (omega arith))) tt)
        (gather-IsDistinct 0 rows [] tt) in
    ground (arith, bound)
