-- ===== src/CheckRows/Successes.antt =====
-- Which addresses have a success among the rows that the coalescing sends on.
use gwsdb.Prelude.{
  ℕ, suc, Text, text_eq, text_eq_iff, Bool, true, ◌&&◌, ◌||◌, Option, none, some, List, [], ◌∷◌,
  ◌≡◌, refl, sym, ap, ◌∙◌, ◌==◌, ==_iff, if◌then◌else◌, arith, Bool-cases, inl, inr, any, All,
  get_or, is_some,
}
use gwsdb.CheckRows.{
  CheckRow, Seen, Latest, ByIp, first_state, newer_than, next_state, visit, gather, emit, emit_all,
  coalesce_check_rows,
}
use gwsdb.CheckRows.Filed.{IsFiledEntry, gather-IsFiled, Stand-get_or, no_row}

-- A success of the address.
abbrev pub succeeded : Text → CheckRow → Bool
succeeded ip r = text_eq r.ip ip && r.ok

abbrev entry_succeeded : Text → Text × Latest → Bool
entry_succeeded ip (k, e) = text_eq k ip && is_some e.latest_success

-- A newest row that is a success is not the only one there.
abbrev IsBacked : Text × Latest → Type 0
IsBacked (k, e) = e.latest.row.ok ≡ true → is_some e.latest_success ≡ true

next_success :
    (s : Seen) (o : Option Seen)
    → is_some (if s.row.ok && newer_than s o then some s else o) ≡ (s.row.ok || is_some o)
unfolding newer_than
next_success s none = ground arith
next_success s (some t) = ground arith

first_state-IsBacked : (s : Seen) → IsBacked (s.row.ip, first_state s)
unfolding first_state
first_state-IsBacked s h = rw h refl

next_state-IsBacked :
    (k : Text) (e : Latest) (s : Seen) → IsBacked (k, e) → IsBacked (k, next_state e s)
unfolding next_state
next_state-IsBacked k e s b h = ground (arith, next_success s e.latest_success, b)

visit-IsBacked : (s : Seen) (m : ByIp) → All IsBacked m → All IsBacked (visit s m)
unfolding visit
visit-IsBacked s [] a = (first_state-IsBacked s, tt)
visit-IsBacked s ((k, e) ∷ m) (x, a) = elim (Bool-cases (text_eq k s.row.ip)) [
  | inl same ↦ rw same (next_state-IsBacked k e s x, a)
  | inr other ↦ rw other (x, visit-IsBacked s m a)
]

gather-IsBacked :
    (i : ℕ) (rows : List CheckRow) (m : ByIp) → All IsBacked m → All IsBacked (gather i rows m)
unfolding gather
gather-IsBacked i [] m a = a
gather-IsBacked i (r ∷ rows) m a =
    gather-IsBacked (suc i) rows _ (visit-IsBacked (record { position = i; row = r }) m a)

visit-succeeded :
    (ip : Text) (s : Seen) (m : ByIp)
    → any (entry_succeeded ip) (visit s m) ≡ (succeeded ip s.row || any (entry_succeeded ip) m)
unfolding visit first_state next_state
visit-succeeded ip s [] = ground arith
visit-succeeded ip s ((k, e) ∷ m) = elim (Bool-cases (text_eq k s.row.ip)) [
  | inl same ↦ rw same (
      ground (
        arith,
        next_success s e.latest_success,
        ap (λ t. text_eq t ip) ((text_eq_iff k s.row.ip).0 same),
      ))
  | inr other ↦ rw other (ground (arith, visit-succeeded ip s m))
]

gather-succeeded :
    (ip : Text) (i : ℕ) (rows : List CheckRow) (m : ByIp)
    → any (entry_succeeded ip) (gather i rows m)
      ≡ (any (entry_succeeded ip) m || any (succeeded ip) rows)
unfolding gather
gather-succeeded ip i [] m = ground arith
gather-succeeded ip i (r ∷ rows) m =
    let s : Seen = record { position = i; row = r } in
    ground (arith, gather-succeeded ip (suc i) rows (visit s m), visit-succeeded ip s m)

module _ (at : ℕ → CheckRow) (ip : Text) where
  emit-succeeded :
      (k : Text) (l : Seen) (o : Option Seen) (out : List CheckRow)
      → IsFiledEntry at (k, record { latest = l; latest_success = o })
      → IsBacked (k, record { latest = l; latest_success = o })
      → any (succeeded ip) (emit (record { latest = l; latest_success = o }) out) ≡ (
          entry_succeeded ip (k, record { latest = l; latest_success = o })
          || any (succeeded ip) out)
  unfolding emit
  emit-succeeded k l none out ((a, b), f) backed = ground (arith, backed)
  emit-succeeded k l (some s) out ((a, b), ((c, d), ok)) backed =
      elim (Bool-cases (s.position == l.position)) [
        | inr apart ↦
            rw apart (ground (arith, ap (λ t. text_eq t ip) b, ap (λ t. text_eq t ip) d, ok))
        | inl same ↦
            let one_row = a ∙ ap at (sym ((==_iff s.position l.position).0 same)) ∙ sym c in
            rw same
              (ground (arith, ap (λ t. text_eq t ip) b, ap (λ (x : CheckRow). x.ok) one_row ∙ ok))
      ]

  emit_all-succeeded :
      (m : ByIp)
      → All (IsFiledEntry at) m
      → All IsBacked m
      → any (succeeded ip) (emit_all m) ≡ any (entry_succeeded ip) m
  unfolding emit_all
  emit_all-succeeded [] a b = refl
  emit_all-succeeded ((k, e) ∷ m) (f, a) (h, b) =
      emit-succeeded k e.latest e.latest_success (emit_all m) f h
      ∙ ap (λ t. entry_succeeded ip (k, e) || t) (emit_all-succeeded m a b)

-- An address has a success among the rows sent on exactly if it has one in the flush.
pub coalesce-succeeded :
    (ip : Text) (rows : List CheckRow)
    → any (succeeded ip) (coalesce_check_rows rows) ≡ any (succeeded ip) rows
unfolding coalesce_check_rows
coalesce-succeeded ip rows =
    let at = λ (j : ℕ). get_or rows j no_row in
    emit_all-succeeded at ip (gather 0 rows [])
      (gather-IsFiled at 0 rows [] (Stand-get_or at 0 rows no_row (λ j. ap at (omega arith))) tt)
      (gather-IsBacked 0 rows [] tt)
    ∙ gather-succeeded ip 0 rows []
