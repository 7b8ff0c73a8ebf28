-- ===== src/HistoryPage/Sync.antt =====
-- The history section against the handler of /api/history, while other requests write.
use gwsdb.Prelude.{
  ℕ, ◌<◌, Text, Bool, true, false, not, ◌&&◌, Option, none, some, List, ◌≡◌, ◌⊎◌, inl, inr, refl,
  sym, ap, ◌∙◌, arith, All, ltb, ◌==◌, if◌then◌else◌, if-cases, ◌≢◌,
}
use gwsdb.IpAddr.{normalize_ip_address}
use gwsdb.Store.Schema.{Db}
use gwsdb.Store.Sql.{Stmt, batch}
use gwsdb.Api.History.{
  IpCheckHistoryRow, HistoryBody, ip_history_version, history_get, is_version, is_above,
}
use gwsdb.Api.History.Steady.{keeps_checks}
use gwsdb.HistoryPage.{
  Snapshot, SentHistory, HistorySection, write_cache, save_snapshot, take_sent, show_fresh,
  sync_history, history_sent, since_of,
}
use gwsdb.HistoryPage.Answers.{newest, version_of, IsTrue, IsTrueEdge, IsAnswer, answer}

-- The section shows the database's newest checks, and keeps them under their version.
pub record IsCurrent (address : Text) (db : Db) (h : HistorySection) : Type 0 where
  pub shown : h.checks ≡ newest address db
  pub kept :
      (s : Snapshot) × (h.cache ≡ some s)
      × (s.version ≡ ip_history_version address db)
      × (s.checks ≡ newest address db)

-- The section shows a snapshot of the store that is newer than the database was.
pub record IsAhead (address : Text) (db : Db) (before h : HistorySection) (s : Snapshot)
    : Type 0 where
  pub held : before.stored ≡ some s
  pub no_reset : is_above (version_of before.cache) (ip_history_version address db) ≡ false
  pub ahead : ip_history_version address db < s.version
  pub kept : h.cache ≡ some s
  pub shown : h.checks ≡ s.checks

abbrev Adopts : HistorySection → Snapshot → Type 0
Adopts h s = (h.cache ≡ some s) × (h.checks ≡ s.checks)

abbrev section :
    Bool → Option Snapshot → Option Snapshot → List IpCheckHistoryRow → ℕ → HistorySection
section open_db stored cache checks page = record {
  db = open_db;
  stored = stored;
  cache = cache;
  checks = checks;
  page = page;
}

show_fresh-Adopts :
    (open_db : Bool) (stored cache : Option Snapshot) (checks : List IpCheckHistoryRow) (page : ℕ)
    (s : Snapshot)
    → is_version (version_of cache) s.version ≡ false
    → Adopts (show_fresh (section open_db stored cache checks page, s)) s
unfolding show_fresh
show_fresh-Adopts open_db stored none checks page s h = (refl, refl)
show_fresh-Adopts open_db stored (some c) checks page s h =
    let other : (s.version == c.version) ≡ false = ground arith in rw other (refl, refl)

not_older :
    (cache : Option Snapshot) (n m : ℕ)
    → is_above (version_of cache) n ≡ false
    → n < m
    → is_version (version_of cache) m ≡ false
not_older none n m h k = refl
not_older (some c) n m h k = ground arith

module _ (address : Text) (db : Db) where
  abbrev Outcome : HistorySection → HistorySection → Type 0
  Outcome before h = IsCurrent address db h ⊎ ((s : Snapshot) × IsAhead address db before h s)

  abbrev v : ℕ
  v = ip_history_version address db

  adopted-IsCurrent :
      (sent : SentHistory) (h : HistorySection)
      → sent.version ≡ v
      → sent.checks ≡ newest address db
      → Adopts h (record { version = sent.version; checks = sent.checks })
      → IsCurrent address db h
  adopted-IsCurrent sent h version rows (cache, checks) = record {
    shown = checks ∙ rows;
    kept = (_, cache, version, rows);
  }

  saved-Outcome :
      (sent : SentHistory) (open_db : Bool) (stored cache : Option Snapshot)
      (checks : List IpCheckHistoryRow) (page : ℕ)
      → sent.version ≡ v
      → sent.checks ≡ newest address db
      → sent.reset ≡ is_above (version_of cache) sent.version
      → is_version (version_of cache) sent.version ≡ false
      → Outcome
          (section open_db stored cache checks page)
          (show_fresh (save_snapshot sent (section open_db stored cache checks page)))
  unfolding save_snapshot write_cache
  saved-Outcome sent false stored cache checks page version rows reset new = inl (
      adopted-IsCurrent sent _ version rows
        (show_fresh-Adopts false stored cache checks page _ new))
  saved-Outcome sent true none cache checks page version rows reset new =
      inl (adopted-IsCurrent sent _ version rows (show_fresh-Adopts true _ cache checks page _ new))
  saved-Outcome sent true (some current) cache checks page version rows reset new =
      if-cases {A = Option Snapshot × Snapshot}
        (λ w.
          Outcome (section true (some current) cache checks page)
            (show_fresh (section true w.0 cache checks page, w.1)))
        (not sent.reset && ltb sent.version current.version) _ _
        (λ newer.
          let later : sent.version < current.version = ground arith in
          let kept_reset : sent.reset ≡ false = ground arith in
          let (cached, shown) =
            show_fresh-Adopts true (some current) cache checks page current
              (not_older cache sent.version current.version (sym reset ∙ kept_reset) later) in
          inr (
            current,
            record {
              held = refl;
              no_reset = ap (is_above (version_of cache)) (sym version) ∙ (sym reset ∙ kept_reset);
              ahead = omega (arith, version);
              kept = cached;
              shown = shown;
            },
          ))
        (λ e. inl (
          adopted-IsCurrent sent _ version rows (show_fresh-Adopts true _ cache checks page _ new)))

  -- The page keeps its own snapshot.
  keeps-IsCurrent :
      (open_db : Bool) (stored : Option Snapshot) (c : Snapshot) (checks : List IpCheckHistoryRow)
      (page : ℕ)
      → c.version ≡ v
      → IsTrue address db c × (checks ≡ c.checks)
      → IsCurrent address db (show_fresh (section open_db stored (some c) checks page, c))
  unfolding show_fresh IsTrue
  keeps-IsCurrent open_db stored c checks page version (true_rows, shown) =
      let same : (c.version == c.version) ≡ true = ground arith in
      rw same
        (record { shown = shown ∙ true_rows version; kept = (c, refl, version, true_rows version) })

  take-Outcome :
      (sent : SentHistory) (open_db : Bool) (stored cache : Option Snapshot)
      (checks : List IpCheckHistoryRow) (page : ℕ)
      → IsAnswer address db (version_of cache) sent
      → ((c : Snapshot) → cache ≡ some c → IsTrue address db c × (checks ≡ c.checks))
      → Outcome
          (section open_db stored cache checks page)
          (show_fresh (take_sent sent (section open_db stored cache checks page)))
  unfolding take_sent
  take-Outcome sent open_db stored none checks page a sound = elim a.rows [
    | inl never ↦ cc
    | inr (rows, reset) ↦
        saved-Outcome sent open_db stored none checks page a.version rows reset refl
  ]
  take-Outcome sent open_db stored (some c) checks page a sound =
      if-cases {A = HistorySection × Snapshot}
        (λ w. Outcome (section open_db stored (some c) checks page) (show_fresh w))
        (sent.version == c.version) _ _
        (λ same.
          inl (
            keeps-IsCurrent open_db stored c checks page (ground (arith, a.version))
              (sound c refl)))
        (λ other. newer (a.rows) other)
    where
      newer :
          (is_version (some c.version) v ≡ true)
            ⊎ ((sent.checks ≡ newest address db) × (sent.reset ≡ is_above (some c.version) v))
          → (sent.version == c.version) ≡ false
          → Outcome (section open_db stored (some c) checks page) (
              show_fresh (
                if not sent.reset && ltb sent.version c.version
                then (section open_db stored (some c) checks page, c)
                else save_snapshot sent (section open_db stored (some c) checks page)))
      newer (inl same) other = absurd (ground (arith, a.version))
      newer (inr (rows, reset)) other =
          let above : sent.reset ≡ is_above (some c.version) sent.version =
            reset ∙ ap (is_above (some c.version)) (sym a.version) in
          let open_test : (not sent.reset && ltb sent.version c.version) ≡ false =
            ground (arith, above) in
          rw open_test (
            saved-Outcome sent open_db stored (some c) checks page a.version rows above
              (ground arith))

-- A page whose section shows the snapshot that it keeps, which holds the database's rows if it has the
-- database's version, asks the handler of /api/history, while other requests write but delete no old
-- checks; the edge cache holds the database's rows under its version, if anything. If the section
-- fails to synchronise, then the address's history changed between the handler's first look and its
-- last. Else it shows the newest 300 checks as they were at the first look, and keeps them under their
-- version; or, if its own snapshot is not newer than the database, it may show one of its store that is,
-- which another tab has left there.
pub sync_history-Outcome :
    (edge : Text → ℕ → Option HistoryBody) (ip address : Text) (h : HistorySection) (d0 : Db)
    (first second : List Stmt)
    → normalize_ip_address ip ≡ some address
    → All (λ s. keeps_checks s ≡ true) first
    → All (λ s. keeps_checks s ≡ true) second
    → IsTrueEdge address d0 edge
    → ((c : Snapshot) → h.cache ≡ some c → IsTrue address d0 c × (h.checks ≡ c.checks))
    → let d1 = batch first d0 in
      let d2 = batch second d1 in
      let after = sync_history (history_sent (history_get edge ip (since_of h.cache) d0 d1 d2)) h in
      ((ip_history_version address d2 ≢ ip_history_version address d0) × (after ≡ none))
      ⊎ ((h1 : HistorySection) × (after ≡ some h1)
          × (IsCurrent address d0 h1 ⊎ ((s : Snapshot) × IsAhead address d0 h h1 s)))
unfolding sync_history
sync_history-Outcome edge ip address h d0 first second valid k1 k2 edge_true sound =
    elim (answer edge ip address h.cache d0 first second valid k1 k2 edge_true) [
      | inl (changed, failed) ↦ inl (changed, ap (λ sent. sync_history sent h) failed)
      | inr (sent, got, a) ↦ inr (
        _,
        ap (λ s. sync_history s h) got,
        take-Outcome address d0 sent h.db h.stored h.cache h.checks h.page a sound,
      )
    ]
