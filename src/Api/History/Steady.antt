-- ===== src/Api/History/Steady.antt =====
-- The body of GET /api/history while checks are added between the handler's reads.
use gwsdb.Prelude.{
  ℕ, suc, ◌≤◌, ◌<◌, Text, text_eq, Bool, true, false, Option, some, List, [], ◌∷◌, ◌++◌, ◌≡◌, ◌⊎◌,
  inl, inr, refl, ap, ◌∙◌, arith, All, keep, map, take, Bool-cases, Option-cases, if◌then◌else◌,
}
use gwsdb.CheckRows.{CheckRow}
use gwsdb.IpAddr.{normalize_ip_address}
use gwsdb.Store.Schema.{Check, Db}
use gwsdb.Store.Tables.{max_id, add_check, new_check, has_check}
use gwsdb.Store.Sql.{
  Stmt, bump_pool_revision, insert_check, insert_recheck, upsert_pool, fail_pool, update_checked,
  insert_checked, delete_old_checks, recount_history, mark_reset, delete_dead, upsert_ptr,
  stamp_ptr, exec, exec_upsert_pool, exec_fail_pool, exec_update_checked, exec_insert_checked,
  exec_recount_history, exec_delete_dead, exec_upsert_ptr, exec_stamp_ptr, passes_insert_gate,
  batch,
}
use gwsdb.Store.Reads.{sort_by}
use gwsdb.Store.Prune.{check_history_retention}
use gwsdb.Api.History.{
  ip_history_version, ip_history, HistoryBody, history, history_get, versioned_history,
  load_history, given_since, history_row, newest_first,
}

-- Every statement but the deletion of old checks.
unfoldable pub keeps_checks : Stmt → Bool
keeps_checks (delete_old_checks ips limit) = false
keeps_checks _ = true

abbrev of_ip : Text → List Check → List Check
of_ip ip cs = keep (λ c. text_eq c.ip ip) cs

-- An address's checks are as they were, or their version has grown.
abbrev Grown : Text → List Check → List Check → Type 0
Grown ip cs ds = (of_ip ip ds ≡ of_ip ip cs) ⊎ (max_id (of_ip ip cs) < max_id (of_ip ip ds))

Grown-trans : (ip : Text) (a b c : List Check) → Grown ip a b → Grown ip b c → Grown ip a c
Grown-trans ip a b c (inl p) (inl q) = inl (q ∙ p)
Grown-trans ip a b c (inl p) (inr h) = inr (omega (arith, ap max_id p))
Grown-trans ip a b c (inr h) (inl q) = inr (omega (arith, ap max_id q))
Grown-trans ip a b c (inr h) (inr k) = inr (omega arith)

of_ip-max_id : (ip : Text) (cs : List Check) → max_id (of_ip ip cs) ≤ max_id cs
unfolding max_id
of_ip-max_id ip [] = omega arith
of_ip-max_id ip (c ∷ cs) = ground (arith, of_ip-max_id ip cs)

of_ip-append :
    (ip : Text) (cs : List Check) (c : Check)
    → of_ip ip (cs ++ c ∷ []) ≡ (if text_eq c.ip ip then of_ip ip cs ++ c ∷ [] else of_ip ip cs)
of_ip-append ip [] c = elim (Bool-cases (text_eq c.ip ip)) [ inl e ↦ rw e | inr e ↦ rw e ]
of_ip-append ip (d ∷ cs) c = ground (arith, of_ip-append ip cs c)

max_id-append : (cs : List Check) (c : Check) → c.id ≤ max_id (cs ++ c ∷ [])
unfolding max_id
max_id-append [] c = ground arith
max_id-append (d ∷ cs) c = ground (arith, max_id-append cs c)

add_check-Grown : (ip : Text) (r : CheckRow) (cs : List Check) → Grown ip cs (add_check r cs)
unfolding add_check new_check
add_check-Grown ip r cs = elim (Bool-cases (has_check r.ip r.checked_at cs)) [
  | inl there ↦ rw there (inl refl)
  | inr new ↦ elim (Bool-cases (text_eq r.ip ip)) [
    | inr other ↦ rw new (inl (of_ip-append ip cs (new_check (suc (max_id cs)) r) ∙ rw other))
    | inl same ↦
        let row = new_check (suc (max_id cs)) r in
        let grown : of_ip ip (cs ++ row ∷ []) ≡ of_ip ip cs ++ row ∷ [] =
          of_ip-append ip cs row ∙ rw same in
        rw new (
          inr (omega (arith, ap max_id grown, max_id-append (of_ip ip cs) row, of_ip-max_id ip cs)))
  ]
]

exec-Grown :
    (ip : Text) (s : Stmt) (db : Db) → keeps_checks s ≡ true → Grown ip db.checks (exec s db).checks
unfolding keeps_checks exec exec_upsert_pool exec_fail_pool exec_update_checked exec_insert_checked
    exec_recount_history exec_delete_dead exec_upsert_ptr exec_stamp_ptr
exec-Grown ip (insert_check row force cutoff) db h =
    elim (Bool-cases (passes_insert_gate row.ip force cutoff db.pool)) [
      | inl passed ↦ rw passed (add_check-Grown ip row db.checks)
      | inr stopped ↦ rw stopped (inl refl)
    ]
exec-Grown ip (insert_recheck row) db h = add_check-Grown ip row db.checks
exec-Grown ip (delete_old_checks ips limit) db h = absurd (ground arith)
exec-Grown ip bump_pool_revision db h = inl refl
exec-Grown ip (upsert_pool latest success) db h = inl refl
exec-Grown ip (fail_pool at_ip at cutoff) db h = inl refl
exec-Grown ip (update_checked at_ip ok rtt at) db h = inl refl
exec-Grown ip (insert_checked at_ip mode rtt at) db h = inl refl
exec-Grown ip (recount_history ips) db h = inl refl
exec-Grown ip mark_reset db h = inl refl
exec-Grown ip (delete_dead ips) db h = inl refl
exec-Grown ip (upsert_ptr e) db h = inl refl
exec-Grown ip (stamp_ptr at_ip at) db h = inl refl

batch-Grown :
    (ip : Text) (ss : List Stmt) (db : Db)
    → All (λ s. keeps_checks s ≡ true) ss
    → Grown ip db.checks (batch ss db).checks
unfolding batch
batch-Grown ip [] db h = inl refl
batch-Grown ip (s ∷ ss) db (h, hs) =
    Grown-trans ip db.checks (exec s db).checks (batch ss (exec s db)).checks (exec-Grown ip s db h)
      (batch-Grown ip ss (exec s db) hs)

load-facts :
    (cache : Text → ℕ → Option HistoryBody) (ip : Text) (since : Option ℕ) (version : ℕ)
    (at_load at_end : Db) (body : HistoryBody)
    → versioned_history cache ip since version at_load at_end ≡ history body
    → (ip_history_version ip at_end ≡ version)
      × (body.version ≡ version)
      × (body.checks ≡ ip_history ip check_history_retention 0 at_load)
unfolding versioned_history load_history
load-facts cache ip since version at_load at_end body h = (
  ground (arith, Option-cases (cache ip version)),
  ground (arith, Option-cases (cache ip version)),
  ground (arith, Option-cases (cache ip version)),
)

asked-facts :
    (cache : Text → ℕ → Option HistoryBody) (ip : Text) (since : Option (Option ℕ)) (d0 d1 d2 : Db)
    (body : HistoryBody)
    → history_get cache ip since d0 d1 d2 ≡ history body
    → (address : Text) × (n : Option ℕ) × (normalize_ip_address ip ≡ some address)
      × (versioned_history cache address n (ip_history_version address d0) d1 d2 ≡ history body)
unfolding history_get
asked-facts cache ip since d0 d1 d2 body h = elim (Option-cases (normalize_ip_address ip)) [
  | inl invalid ↦ absurd (ground arith)
  | inr (address, valid) ↦ elim (Option-cases (given_since since)) [
    | inl bad ↦ absurd (ground arith)
    | inr (n, given) ↦ (address, n, valid, ground arith)
  ]
]

ip_history-same :
    (ip : Text) (limit : ℕ) (d e : Db)
    → of_ip ip d.checks ≡ of_ip ip e.checks
    → ip_history ip limit 0 d ≡ ip_history ip limit 0 e
unfolding ip_history
ip_history-same ip limit d e h = ap (λ cs. map history_row (take limit (sort_by newest_first cs))) h

grew :
    (ip : Text) (a b c : Db)
    → max_id (of_ip ip a.checks) < max_id (of_ip ip b.checks)
    → max_id (of_ip ip b.checks) ≤ max_id (of_ip ip c.checks)
    → ip_history_version ip c ≡ ip_history_version ip a
    → ⊥
unfolding ip_history_version
grew ip a b c h k e = omega arith

-- A body that the handler has loaded names its version and holds an address's newest 300 checks, both
-- as they were when the handler first looked, whatever statements other requests ran between its
-- reads, as long as no old checks were deleted meanwhile.
pub history_get-steady :
    (cache : Text → ℕ → Option HistoryBody) (ip : Text) (since : Option (Option ℕ)) (db : Db)
    (first second : List Stmt) (body : HistoryBody)
    → All (λ s. keeps_checks s ≡ true) first
    → All (λ s. keeps_checks s ≡ true) second
    → history_get cache ip since db (batch first db) (batch second (batch first db)) ≡ history body
    → (address : Text) × (normalize_ip_address ip ≡ some address)
      × (body.version ≡ ip_history_version address db)
      × (body.checks ≡ ip_history address check_history_retention 0 db)
history_get-steady cache ip since db first second body h k answer =
    let (address, n, valid, loaded) =
      asked-facts cache ip since db (batch first db) (batch second (batch first db)) body answer in
    let (still, version, checks) =
      load-facts cache address n (ip_history_version address db) (batch first db)
        (batch second (batch first db)) body loaded in
    let same =
      settle address (batch-Grown address first db h)
        (batch-Grown address second (batch first db) k) still in
    (
      address,
      valid,
      version,
      checks ∙ ip_history-same address check_history_retention (batch first db) db same,
    )
  where
    settle :
        (address : Text)
        → Grown address db.checks (batch first db).checks
        → Grown address (batch first db).checks (batch second (batch first db)).checks
        → ip_history_version address (batch second (batch first db)) ≡ ip_history_version address db
        → of_ip address (batch first db).checks ≡ of_ip address db.checks
    settle address (inl p) g still = p
    settle address (inr more) g still = absurd (
        grew address db (batch first db) (batch second (batch first db)) more
          (after_second address g) still)
      where
        after_second :
            (a : Text)
            → Grown a (batch first db).checks (batch second (batch first db)).checks
            → max_id (of_ip a (batch first db).checks)
              ≤ max_id (of_ip a (batch second (batch first db)).checks)
        after_second a (inl q) = omega (arith, ap max_id q)
        after_second a (inr q) = omega arith
