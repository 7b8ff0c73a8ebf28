-- ===== src/CheckRows/Coalesce.antt =====
-- What the coalescing of a flush keeps.
use gwsdb.Prelude.{
  ℕ, suc, Text, text_eq, text_eq_refl, Bool, true, false, not, ◌&&◌, ◌||◌, Option, none, some, List,
  [], ◌∷◌, ◌≡◌, sym, ap, ◌∙◌, leb, ◌==◌, ==_iff, if◌then◌else◌, arith, Bool-cases, inl, inr, any,
  All, get_or, All-mono,
}
use gwsdb.CheckRows.Filed.{IsFiledEntry, gather-IsFiled, Stand-get_or, no_row}
use gwsdb.CheckRows.{
  CheckRow, Seen, Latest, ByIp, first_state, newer_than, next_state, visit, gather, emit, emit_all,
  coalesce_check_rows,
}

-- `c` is a row of the address of `r`, at least as new, and a success if `r` is one.
abbrev pub covers : CheckRow → CheckRow → Bool
covers r c = text_eq c.ip r.ip && (leb r.checked_at c.checked_at && (not r.ok || c.ok))

-- The entry holds a row that covers `r`.
abbrev success_covers : CheckRow → Option Seen → Bool
success_covers r none = false
success_covers r (some s) = leb r.checked_at s.row.checked_at

abbrev entry_covers : CheckRow → Text × Latest → Bool
entry_covers r (k, e) =
    text_eq k r.ip
    && (leb r.checked_at e.latest.row.checked_at && (not r.ok || success_covers r e.latest_success))

first_state-covers : (s : Seen) → entry_covers s.row (s.row.ip, first_state s) ≡ true
unfolding first_state
first_state-covers s = ground (arith, text_eq_refl s.row.ip)

success-covers :
    (r : CheckRow) (s : Seen) (o : Option Seen)
    → success_covers r o ≡ true
    → success_covers r (if s.row.ok && newer_than s o then some s else o) ≡ true
unfolding newer_than
success-covers r s none h = absurd (ground arith)
success-covers r s (some t) h = ground arith

success-covers_new :
    (s : Seen) (o : Option Seen)
    → s.row.ok ≡ true
    → success_covers s.row (if s.row.ok && newer_than s o then some s else o) ≡ true
unfolding newer_than
success-covers_new s none h = ground arith
success-covers_new s (some t) h = ground arith

next_state-covers :
    (r : CheckRow) (k : Text) (e : Latest) (s : Seen)
    → entry_covers r (k, e) ≡ true
    → entry_covers r (k, next_state e s) ≡ true
unfolding next_state
next_state-covers r k e s h = ground (arith, success-covers r s e.latest_success)

next_state-covers_new :
    (k : Text) (e : Latest) (s : Seen)
    → text_eq k s.row.ip ≡ true
    → entry_covers s.row (k, next_state e s) ≡ true
unfolding next_state
next_state-covers_new k e s h = ground (arith, success-covers_new s e.latest_success)

visit-covers :
    (r : CheckRow) (s : Seen) (m : ByIp)
    → any (entry_covers r) m ≡ true
    → any (entry_covers r) (visit s m) ≡ true
unfolding visit
visit-covers r s [] h = absurd (ground arith)
visit-covers r s ((k, e) ∷ m) h = ground (arith, next_state-covers r k e s, visit-covers r s m)

visit-covers_new : (s : Seen) (m : ByIp) → any (entry_covers s.row) (visit s m) ≡ true
unfolding visit
visit-covers_new s [] = ground (arith, first_state-covers s)
visit-covers_new s ((k, e) ∷ m) = ground (arith, next_state-covers_new k e s, visit-covers_new s m)

gather-covers :
    (r : CheckRow) (i : ℕ) (rows : List CheckRow) (m : ByIp)
    → any (entry_covers r) m ≡ true
    → any (entry_covers r) (gather i rows m) ≡ true
unfolding gather
gather-covers r i [] m h = h
gather-covers r i (s ∷ rows) m h =
    gather-covers r (suc i) rows _ (visit-covers r (record { position = i; row = s }) m h)

gather-All :
    (i : ℕ) (rows : List CheckRow) (m : ByIp)
    → All (λ r. any (entry_covers r) (gather i rows m) ≡ true) rows
unfolding gather
gather-All i [] m = tt
gather-All i (r ∷ rows) m =
    let s : Seen = record { position = i; row = r } in
    (
      gather-covers r (suc i) rows (visit s m) (visit-covers_new s m),
      gather-All (suc i) rows (visit s m),
    )

-- What an entry holds is emitted.
module _ (at : ℕ → CheckRow) (r : CheckRow) where
  emit-covers :
      (k : Text) (l : Seen) (o : Option Seen) (out : List CheckRow)
      → IsFiledEntry at (k, record { latest = l; latest_success = o })
      → entry_covers r (k, record { latest = l; latest_success = o }) ≡ true
      → any (covers r) (emit (record { latest = l; latest_success = o }) out) ≡ true
  unfolding emit
  emit-covers k l none out ((a, b), f) h = ground (arith, ap (λ ip. text_eq ip r.ip) b)
  emit-covers k l (some s) out ((a, b), ((c, d), ok)) h =
      elim (Bool-cases (s.position == l.position)) [
        | inr apart ↦
            rw apart
              (ground (arith, ap (λ ip. text_eq ip r.ip) b, ap (λ ip. text_eq ip r.ip) d, ok))
        | inl same ↦
            let one_row = a ∙ ap at (sym ((==_iff s.position l.position).0 same)) ∙ sym c in
            rw same (
              ground
                (arith, ap (λ ip. text_eq ip r.ip) b, ap (λ (x : CheckRow). x.ok) one_row ∙ ok))
      ]

  emit-keeps :
      (l : Seen) (o : Option Seen) (out : List CheckRow)
      → any (covers r) out ≡ true
      → any (covers r) (emit (record { latest = l; latest_success = o }) out) ≡ true
  unfolding emit
  emit-keeps l none out h = ground arith
  emit-keeps l (some s) out h = elim (Bool-cases (s.position == l.position)) [
    | inl e ↦ rw e (ground arith)
    | inr e ↦ rw e (ground arith)
  ]

  emit_all-covers :
      (m : ByIp)
      → All (IsFiledEntry at) m
      → any (entry_covers r) m ≡ true
      → any (covers r) (emit_all m) ≡ true
  unfolding emit_all
  emit_all-covers [] a h = absurd (ground arith)
  emit_all-covers ((k, e) ∷ m) (f, a) h = elim (Bool-cases (entry_covers r (k, e))) [
    | inl here ↦ emit-covers k e.latest e.latest_success (emit_all m) f here
    | inr not_here ↦
        emit-keeps e.latest e.latest_success (emit_all m) (emit_all-covers m a (ground arith))
  ]

-- Every row of a flush is covered by one that coalescing sends on: a row of the same address, not
-- older, and a success if the row is one. So neither an address's newest check is lost nor its
-- newest success.
pub coalesce-covers :
    (rows : List CheckRow) → All (λ r. any (covers r) (coalesce_check_rows rows) ≡ true) rows
unfolding coalesce_check_rows
coalesce-covers rows =
    let at = λ (j : ℕ). get_or rows j no_row in
    All-mono (λ r. any (entry_covers r) (gather 0 rows []) ≡ true) _ rows
      (λ r h.
        emit_all-covers at r (gather 0 rows [])
          (gather-IsFiled at 0 rows [] (Stand-get_or at 0 rows no_row (λ j. ap at (omega arith)))
            tt)
          h)
      (gather-All 0 rows [])
