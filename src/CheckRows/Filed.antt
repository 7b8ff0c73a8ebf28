-- ===== src/CheckRows/Filed.antt =====
-- What `byIP` holds under a key: rows of the flush, and of the key's address.
use gwsdb.Prelude.{
  ℕ, suc, ◌+◌, Text, text_eq, text_eq_iff, Bool, true, false, ◌&&◌, Option, none, some, List, [],
  ◌∷◌, ◌≡◌, refl, sym, ap, ◌∙◌, leb, if◌then◌else◌, arith, Bool-cases, inl, inr, All, get_or,
}
use gwsdb.CheckRows.{
  CheckRow, Seen, Latest, ByIp, first_state, newer_than, next_state, visit, gather,
}

-- The positions of the objects name the rows `at` them.
module _ (at : ℕ → CheckRow) where
  -- A kept object is a row of the array and of its key's address.
  abbrev pub IsFiled : Text → Seen → Type 0
  IsFiled ip s = (s.row ≡ at s.position) × (s.row.ip ≡ ip)

  abbrev pub IsFiledSuccess : Text → Option Seen → Type 0
  IsFiledSuccess ip none = Unit
  IsFiledSuccess ip (some s) = IsFiled ip s × (s.row.ok ≡ true)

  abbrev pub IsFiledEntry : Text × Latest → Type 0
  IsFiledEntry (ip, e) = IsFiled ip e.latest × IsFiledSuccess ip e.latest_success

  first_state-IsFiled : (s : Seen) → s.row ≡ at s.position → IsFiledEntry (s.row.ip, first_state s)
  unfolding first_state
  first_state-IsFiled s h = ((h, refl), by_ok s.row.ok refl)
    where
      by_ok : (b : Bool) → s.row.ok ≡ b → IsFiledSuccess s.row.ip (if b then some s else none)
      by_ok true e = ((h, refl), e)
      by_ok false e = tt

  next_state-IsFiled :
      (ip : Text) (e : Latest) (s : Seen)
      → IsFiledEntry (ip, e)
      → IsFiled ip s
      → IsFiledEntry (ip, next_state e s)
  unfolding next_state
  next_state-IsFiled ip e s (l, m) f = (kept_latest, kept_success)
    where
      kept_latest : IsFiled ip (next_state e s).latest
      kept_latest = elim (Bool-cases (leb e.latest.row.checked_at s.row.checked_at)) [
        | inl h ↦ rw h f
        | inr h ↦ rw h l
      ]

      kept_success : IsFiledSuccess ip (next_state e s).latest_success
      kept_success = elim (Bool-cases (s.row.ok && newer_than s e.latest_success)) [
        | inl h ↦ rw h (f, ground arith)
        | inr h ↦ rw h m
      ]

  visit-IsFiled :
      (s : Seen) (m : ByIp)
      → s.row ≡ at s.position
      → All IsFiledEntry m
      → All IsFiledEntry (visit s m)
  unfolding visit
  visit-IsFiled s [] h a = (first_state-IsFiled s h, tt)
  visit-IsFiled s ((k, e) ∷ m) h (x, a) = elim (Bool-cases (text_eq k s.row.ip)) [
    | inl same ↦ rw same (next_state-IsFiled k e s x (h, sym ((text_eq_iff k s.row.ip).0 same)), a)
    | inr other ↦ rw other (x, visit-IsFiled s m h a)
  ]

  -- The rows that are left stand at the positions from `i` on.
  abbrev pub Stand : ℕ → List CheckRow → Type 0
  Stand i [] = Unit
  Stand i (r ∷ rows) = (r ≡ at i) × Stand (suc i) rows

  pub gather-IsFiled :
      (i : ℕ) (rows : List CheckRow) (m : ByIp)
      → Stand i rows
      → All IsFiledEntry m
      → All IsFiledEntry (gather i rows m)
  unfolding gather
  gather-IsFiled i [] m h a = a
  gather-IsFiled i (r ∷ rows) m (x, h) a =
      gather-IsFiled (suc i) rows _ h (visit-IsFiled (record { position = i; row = r }) m x a)

-- The rows stand where `get_or` finds them.
pub Stand-get_or :
    (at : ℕ → CheckRow) (i : ℕ) (rows : List CheckRow) (d : CheckRow)
    → ((j : ℕ) → at (i + j) ≡ get_or rows j d)
    → Stand at i rows
Stand-get_or at i [] d h = tt
Stand-get_or at i (r ∷ rows) d h = (
  sym (h 0) ∙ ap at (omega arith),
  Stand-get_or at (suc i) rows d (λ j. ap at (omega arith) ∙ h (suc j)),
)

abbrev pub no_row : CheckRow
no_row = record {
  ip = [];
  ok = false;
  rtt_ms = none;
  reason = none;
  detail = none;
  checked_at = 0;
  scan_mode = [];
}
