-- ===== src/Store/Prune/Window.antt =====
-- The checks of an address that the DELETE of `pruneCheckHistory` leaves.
use gwsdb.Prelude.{
  ℕ, suc, ◌+◌, ◌≤◌, Text, text_eq, text_eq_iff, Bool, true, false, not, ◌&&◌, List, [], ◌∷◌, ◌≡◌,
  refl, sym, ap, ◌∙◌, arith, Bool-cases, inl, inr, keep, length, All, All-In, All-mono, In,
  mem_text, ltb, ◌==◌, subst,
}
use gwsdb.Store.Schema.{Check, Db}
use gwsdb.Store.Tables.{count_checks}
use gwsdb.Store.Tables.Rows.{All-keep}
use gwsdb.Store.Sql.{ranks_before, rank, exec_delete_old_checks}

-- `id` is the table's primary key.
abbrev pub HasIds : List Check → Type 0
HasIds cs = (n : ℕ) → length (keep (λ c. c.id == n) cs) ≤ 1

keep-keep_le :
    {A : Type 0} (p q r : A → Bool) (xs : List A)
    → ((x : A) → p x ≡ true → q x ≡ true → r x ≡ true)
    → length (keep q (keep p xs)) ≤ length (keep r xs)
keep-keep_le p q r [] h = omega arith
keep-keep_le p q r (x ∷ xs) h = ground (arith, keep-keep_le p q r xs h, h x)

keep-All : {A : Type 0} (p : A → Bool) (xs : List A) → All (λ x. p x ≡ true) (keep p xs)
keep-All p [] = tt
keep-All p (x ∷ xs) = elim (Bool-cases (p x)) [
  | inl e ↦ rw e (e, keep-All p xs)
  | inr e ↦ rw e (keep-All p xs)
]

-- A last check in the order of the window: none that is there comes behind it.
last_check :
    (c : Check) (cs : List Check)
    → (m : Check) × In m (c ∷ cs) × All (λ d. ranks_before m d ≡ false) (c ∷ cs)
unfolding ranks_before
last_check c [] = (c, inl refl, (ground arith, tt))
last_check c (d ∷ cs) =
    let (m, there, behind) = last_check d cs in
    elim (Bool-cases (ranks_before m c)) [
      | inr stays ↦ (m, inr there, (stays, behind))
      | inl moves ↦
          (c, inl refl, (ground arith, All-mono _ _ (d ∷ cs) (λ e h. later m c e moves h) behind))
    ]
  where
    later :
        (m c e : Check)
        → ranks_before m c ≡ true
        → ranks_before m e ≡ false
        → ranks_before c e ≡ false
    later m c e moves h = ground arith

kept_before :
    (m : Check) (cs : List Check)
    → All (λ d. ranks_before m d ≡ false) cs
    → length cs ≤ length (keep (λ c. ranks_before c m) cs) + length (keep (λ c. c.id == m.id) cs)
unfolding ranks_before
kept_before m [] h = omega arith
kept_before m (c ∷ cs) (hc, h) = ground (arith, kept_before m cs h)

-- What is chosen from a choice of a choice.
keep-keep-keep_le :
    (p q r t : Check → Bool) (cs : List Check)
    → ((c : Check) → q c ≡ true → r c ≡ true → t c ≡ true)
    → length (keep r (keep q (keep p cs))) ≤ length (keep t cs)
keep-keep-keep_le p q r t cs h =
    let inner = keep-keep_le q r t (keep p cs) h in
    let outer = keep-keep_le p t t cs (λ c a b. b) in omega arith

module _ (ip : Text) (ips : List Text) (limit : ℕ) (cs : List Check)
    (listed : mem_text ip ips ≡ true) (ids : HasIds cs) where
  abbrev is_kept : Check → Bool
  is_kept d = not (mem_text d.ip ips && ltb limit (rank d cs))

  abbrev is_of : Check → Bool
  is_of d = text_eq d.ip ip

  kept_within : (m : Check) → is_of m ≡ true → is_kept m ≡ true → rank m cs ≤ limit
  kept_within m of kept =
      let same = (text_eq_iff m.ip ip).0 of in
      let there : mem_text m.ip ips ≡ true = ap (λ t. mem_text t ips) same ∙ listed in ground arith

  before_rank :
      (m : Check)
      → is_of m ≡ true
      → suc (length (keep (λ c. ranks_before c m) (keep is_of (keep is_kept cs)))) ≤ rank m cs
  unfolding rank
  before_rank m of =
      let same = (text_eq_iff m.ip ip).0 of in
      let fewer =
        keep-keep-keep_le is_kept is_of (λ c. ranks_before c m)
          (λ c. text_eq c.ip m.ip && ranks_before c m) cs
          (λ c a b. ground (arith, ap (text_eq c.ip) same)) in
      omega arith

  within_limit : (left : List Check) → left ≡ keep is_of (keep is_kept cs) → length left ≤ limit
  within_limit [] e = omega arith
  within_limit (c ∷ rest) e =
      let (m, there, behind) = last_check c rest in
      let of =
        All-In (λ d. is_of d ≡ true) m (c ∷ rest) there
          (subst (All (λ d. is_of d ≡ true)) (sym e) (keep-All is_of (keep is_kept cs))) in
      let kept =
        All-In (λ d. is_kept d ≡ true) m (c ∷ rest) there
          (subst (All (λ d. is_kept d ≡ true)) (sym e)
            (All-keep (λ d. is_kept d ≡ true) is_of (keep is_kept cs) (keep-All is_kept cs))) in
      let all = kept_before m (c ∷ rest) behind in
      let one =
        keep-keep-keep_le is_kept is_of (λ d. d.id == m.id) (λ d. d.id == m.id) cs (λ d a b. b) in
      omega (
        arith,
        all,
        one,
        ids m.id,
        before_rank m of,
        kept_within m of kept,
        ap (λ xs. length (keep (λ d. ranks_before d m) xs)) e,
        ap (λ xs. length (keep (λ d. d.id == m.id) xs)) e,
      )

-- At most `limit` of an address's checks are left.
pub delete_old_checks-count :
    (ip : Text) (ips : List Text) (limit : ℕ) (db : Db)
    → mem_text ip ips ≡ true
    → HasIds db.checks
    → count_checks ip (exec_delete_old_checks ips limit db).checks ≤ limit
unfolding count_checks exec_delete_old_checks
delete_old_checks-count ip ips limit db listed ids =
    within_limit ip ips limit db.checks listed ids _ refl
