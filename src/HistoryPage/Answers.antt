-- ===== src/HistoryPage/Answers.antt =====
-- What the handler of /api/history answers to the history section, while other requests write.
use gwsdb.Prelude.{
  ℕ, Text, true, false, Option, none, some, List, ◌≡◌, ◌⊎◌, inl, inr, refl, sym, ap, ◌∙◌, arith,
  All, ◌==◌, if-cases, ◌≢◌, subst,
}
use gwsdb.IpAddr.{normalize_ip_address}
use gwsdb.Store.Schema.{Db}
use gwsdb.Store.Sql.{Stmt, batch}
use gwsdb.Store.Prune.{check_history_retention}
use gwsdb.Api.History.{
  IpCheckHistoryRow, HistoryBody, HistoryReply, invalid_ip, bad_since, changed_meanwhile,
  nothing_new, cached_history, history, ip_history, ip_history_version, history_get,
  versioned_history, load_history, given_since, is_version, is_above,
}
use gwsdb.Api.History.Steady.{keeps_checks, history_get-steady}
use gwsdb.HistoryPage.{Snapshot, SentHistory, history_sent, since_of}

abbrev pub newest : Text → Db → List IpCheckHistoryRow
newest address db = ip_history address check_history_retention 0 db

abbrev pub version_of : Option Snapshot → Option ℕ
version_of none = none
version_of (some s) = some s.version

-- A snapshot of the database's version holds the database's rows.
unfoldable pub IsTrue : Text → Db → Snapshot → Type 0
IsTrue address db s = s.version ≡ ip_history_version address db → s.checks ≡ newest address db

-- What may be asked of an answer of the handler for a page that has version `since`.
pub record IsAnswer (address : Text) (db : Db) (since : Option ℕ) (sent : SentHistory)
    : Type 0 where
  pub version : sent.version ≡ ip_history_version address db
  pub rows :
      (is_version since (ip_history_version address db) ≡ true)
      ⊎ ((sent.checks ≡ newest address db)
          × (sent.reset ≡ is_above since (ip_history_version address db)))

since-given : (c : Option Snapshot) → given_since (since_of c) ≡ some (version_of c)
unfolding since_of
since-given none = refl
since-given (some c) = refl

module _ (edge : Text → ℕ → Option HistoryBody) (address : Text) (since : Option ℕ) (v : ℕ)
    (d1 d2 : Db) where
  -- What each reply says of the request.
  abbrev IsReply : HistoryReply → Type 0
  IsReply invalid_ip = ⊥
  IsReply bad_since = ⊥
  IsReply changed_meanwhile = ip_history_version address d2 ≢ v
  IsReply (nothing_new n) = (n ≡ v) × (is_version since v ≡ true)
  IsReply (cached_history b) = (edge address v ≡ some b) × (is_above since v ≡ false)
  IsReply (history b) = b.reset ≡ is_above since v

  load-IsReply : IsReply (load_history address v (is_above since v) d1 d2)
  unfolding load_history
  load-IsReply =
      if-cases IsReply (ip_history_version address d2 == v) _ _ (λ e. refl)
        (λ e q. absurd (ground arith))

  versioned-IsReply : IsReply (versioned_history edge address since v d1 d2)
  unfolding versioned_history
  versioned-IsReply =
      if-cases IsReply (is_version since v) _ _ (λ same. (refl, same))
        (λ other.
          if-cases IsReply (is_above since v) _ _ (λ above. load-IsReply)
            (λ below. held (edge address v) refl below))
    where
      held :
          (o : Option HistoryBody)
          → edge address v ≡ o
          → is_above since v ≡ false
          → IsReply (elim o [
            | some body ↦ cached_history body
            | none ↦ load_history address v (is_above since v) d1 d2
          ])
      held none e below = load-IsReply
      held (some b) e below = (e, below)

-- What the edge cache may hold of an address, once the database is as it is.
unfoldable pub IsTrueEdge : Text → Db → (Text → ℕ → Option HistoryBody) → Type 0
IsTrueEdge address db edge =
    (b : HistoryBody)
    → edge address (ip_history_version address db) ≡ some b
    → (b.version ≡ ip_history_version address db)
      × (b.reset ≡ false)
      × (b.checks ≡ newest address db)

some-injective : {A : Type 0} (a b : A) → some a ≡ some b → a ≡ b
some-injective a b h = cc

module _ (edge : Text → ℕ → Option HistoryBody) (ip address : Text) (c : Option Snapshot) (d0 : Db)
    (first second : List Stmt) (valid : normalize_ip_address ip ≡ some address)
    (kept_first : All (λ s. keeps_checks s ≡ true) first)
    (kept_second : All (λ s. keeps_checks s ≡ true) second)
    (edge_true : IsTrueEdge address d0 edge) where
  abbrev pub d1 : Db
  d1 = batch first d0

  abbrev pub d2 : Db
  d2 = batch second d1

  abbrev pub v0 : ℕ
  v0 = ip_history_version address d0

  asked :
      history_get edge ip (since_of c) d0 d1 d2
      ≡ versioned_history edge address (version_of c) v0 d1 d2
  unfolding history_get
  asked = rw (history_get, valid, since-given c)

  -- The page cannot use an answer only if the history changed while the handler loaded it.
  abbrev pub Answer : HistoryReply → Type 0
  Answer reply =
      ((ip_history_version address d2 ≢ v0) × (history_sent reply ≡ none))
      ⊎ ((sent : SentHistory) × (history_sent reply ≡ some sent)
          × IsAnswer address d0 (version_of c) sent)

  reply-Answer :
      (reply : HistoryReply)
      → history_get edge ip (since_of c) d0 d1 d2 ≡ reply
      → IsReply edge address (version_of c) v0 d1 d2 reply
      → Answer reply
  unfolding history_sent IsTrueEdge
  reply-Answer changed_meanwhile e changed = inl (changed, refl)
  reply-Answer (nothing_new n) e (same, asks) =
      inr (_, refl, record { version = same; rows = inl asks })
  reply-Answer (cached_history b) e (held, below) =
      let (version, reset, checks) = edge_true b held in
      inr (_, refl, record { version = version; rows = inr (checks, reset ∙ sym below) })
  reply-Answer (history b) e reset =
      let (other, valid2, version, checks) =
        history_get-steady edge ip (since_of c) d0 first second b kept_first kept_second e in
      let same = some-injective other address (sym valid2 ∙ valid) in
      inr (
        _,
        refl,
        record {
          version = version ∙ ap (λ a. ip_history_version a d0) same;
          rows = inr (checks ∙ ap (λ a. newest a d0) same, reset);
        },
      )
  reply-Answer invalid_ip e h = absurd h
  reply-Answer bad_since e h = absurd h

  pub answer : Answer (history_get edge ip (since_of c) d0 d1 d2)
  answer = reply-Answer (history_get edge ip (since_of c) d0 d1 d2) refl (
      subst (IsReply edge address (version_of c) v0 d1 d2) (sym asked)
        (versioned-IsReply edge address (version_of c) v0 d1 d2))
