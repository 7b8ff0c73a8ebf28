-- ===== src/Api/Ingest/Outcomes.antt =====
-- What a flush that is refused and one that is accepted do to the database.
use gwsdb.Prelude.{
  ℕ, Text, Bool, true, false, Option, none, some, List, [], ◌∷◌, ◌≡◌, refl, sym, ap, ◌∙◌, map, ◌&&◌,
  is_some, arith, Option-cases, inl, inr, unique,
}
use gwsdb.CheckRows.{CheckRow, coalesce_check_rows}
use gwsdb.IpAddr.{normalize_ip_address}
use gwsdb.Store.Schema.{Db}
use gwsdb.Store.Writes.{insert_check_rows}
use gwsdb.Store.Sync.History.{Reach, here, Reach-trans}
use gwsdb.Store.Sync.Writers.{
  insert_check_rows-Reach, update_pool_batch-Reach, prune_check_history-Reach,
}
use gwsdb.Api.Ingest.{
  IngestBody, WireCheck, IngestReply, refused, accepted, no_checks, invalid_check_ip,
  invalid_prune_ip, wire_rows, wire_row, normalize_all, normalize_prune_ips, wants_maintenance,
  follow_up, store_rows, accept, handle_checks, Refusal, handle_ingest,
}

store_rows-Reach : (now : ℕ) (rows : List CheckRow) (s : Db) → Reach s (store_rows now rows s)
unfolding store_rows
store_rows-Reach now rows s =
    Reach-trans (insert_check_rows-Reach now rows s)
      (update_pool_batch-Reach now rows (insert_check_rows now rows s))

follow_up-Reach :
    (maintenance : Bool) (ips : Option (List Text)) (rows : List CheckRow) (s : Db)
    → Reach s (follow_up maintenance ips rows s).0
unfolding follow_up
follow_up-Reach maintenance none rows s = here
follow_up-Reach true (some ips) rows s = prune_check_history-Reach (unique ips) s
follow_up-Reach false (some ips) rows s = here

accept-Reach :
    (now : ℕ) (maintenance : Bool) (ips : Option (List Text)) (rows : List CheckRow) (s : Db)
    → Reach s (accept now maintenance ips rows s).0
unfolding accept
accept-Reach now maintenance ips rows s =
    Reach-trans (store_rows-Reach now rows s)
      (follow_up-Reach maintenance ips rows (store_rows now rows s))

-- The request is well formed: there are checks, and every address in it is valid.
abbrev all_valid : List Text → Bool
all_valid [] = true
all_valid (ip ∷ ips) = is_some (normalize_ip_address ip) && all_valid ips

abbrev valid_prune_ips : Option (List Text) → Bool
valid_prune_ips none = true
valid_prune_ips (some ips) = all_valid ips

abbrev pub is_well_formed : IngestBody → Bool
is_well_formed b = elim b.checks [
  | none ↦ false
  | some checks ↦ all_valid (map (λ (c : WireCheck). c.ip) checks) && valid_prune_ips b.prune_ips
]

abbrev pub is_accepted : IngestReply → Bool
is_accepted (refused r) = false
is_accepted (accepted n jobs) = true

-- A chain of two results holds a value if both do.
is_some-both :
    {A B C : Type 0} (o : Option A) (p : Option B) (f : A → B → C)
    → is_some (elim o [ none ↦ none | some a ↦ elim p [ none ↦ none | some b ↦ some (f a b) ] ])
      ≡ (is_some o && is_some p)
is_some-both none p f = refl
is_some-both (some a) none f = refl
is_some-both (some a) (some b) f = refl

wire_rows-valid :
    (checks : List WireCheck)
    → is_some (wire_rows checks) ≡ all_valid (map (λ (c : WireCheck). c.ip) checks)
unfolding wire_rows
wire_rows-valid [] = refl
wire_rows-valid (c ∷ cs) =
    is_some-both (normalize_ip_address c.ip) (wire_rows cs) (λ ip rows. wire_row ip c ∷ rows)
    ∙ ap (λ b. is_some (normalize_ip_address c.ip) && b) (wire_rows-valid cs)

normalize_all-valid : (ips : List Text) → is_some (normalize_all ips) ≡ all_valid ips
unfolding normalize_all
normalize_all-valid [] = refl
normalize_all-valid (ip ∷ ips) =
    is_some-both (normalize_ip_address ip) (normalize_all ips) (λ t ts. t ∷ ts)
    ∙ ap (λ b. is_some (normalize_ip_address ip) && b) (normalize_all-valid ips)

normalize_prune_ips-valid :
    (ips : Option (List Text)) → is_some (normalize_prune_ips ips) ≡ valid_prune_ips ips
normalize_prune_ips-valid none = refl
normalize_prune_ips-valid (some ips) = same (normalize_all ips) ∙ normalize_all-valid ips
  where
    same :
        (o : Option (List Text))
        → is_some (elim o as (λ x. Option (Option (List Text))) [
          | none ↦ none
          | some ts ↦ some (some ts)
        ])
          ≡ is_some o
    same none = refl
    same (some ts) = refl

-- The outcome of a handler: a step of the store for a well-formed request, nothing for another.
pub record IsOutcome (s : Db) (well_formed : Bool) (r : Db × IngestReply) : Type 0 where
  pub answer : is_accepted r.1 ≡ well_formed
  pub refused_keeps : well_formed ≡ false → r.0 ≡ s
  pub history : Reach s r.0

refusal-IsOutcome : (s : Db) (b : Bool) (r : Refusal) → b ≡ false → IsOutcome s b (s, refused r)
refusal-IsOutcome s b r h = record { answer = sym h; refused_keeps = λ e. refl; history = here }

accept-IsOutcome :
    (now : ℕ) (maintenance : Bool) (ips : Option (List Text)) (rows : List CheckRow) (s : Db)
    (b : Bool)
    → b ≡ true
    → IsOutcome s b (accept now maintenance ips rows s)
accept-IsOutcome now maintenance ips rows s b h = record {
  answer = unfold accept in sym h;
  refused_keeps = λ e. absurd (ground arith);
  history = accept-Reach now maintenance ips rows s;
}

checks-IsOutcome :
    (now : ℕ) (b : IngestBody) (checks : List WireCheck) (s : Db)
    → IsOutcome s
        (all_valid (map (λ (c : WireCheck). c.ip) checks) && valid_prune_ips b.prune_ips)
        (handle_checks now b checks s)
unfolding handle_checks
checks-IsOutcome now b checks s = elim (Option-cases (wire_rows checks)) [
  | inl e ↦
      rw (e, handle_checks)
        (refusal-IsOutcome s _ invalid_check_ip
          (ground (arith, wire_rows-valid checks, ap (λ o. is_some o) e)))
  | inr (rows, e) ↦ elim (Option-cases (normalize_prune_ips b.prune_ips)) [
    | inl f ↦
        rw (e, f, handle_checks)
          (refusal-IsOutcome s _ invalid_prune_ip
            (ground (arith, normalize_prune_ips-valid b.prune_ips, ap (λ o. is_some o) f)))
    | inr (ips, f) ↦
        rw (e, f, handle_checks)
          (accept-IsOutcome now (wants_maintenance b.maintenance) ips (coalesce_check_rows rows) s _
            (ground (
              arith,
              wire_rows-valid checks,
              normalize_prune_ips-valid b.prune_ips,
              ap (λ o. is_some o) e,
              ap (λ o. is_some o) f,
            )))
  ]
]

-- A flush is accepted exactly if it has checks, and they and the addresses to prune are all valid; a
-- flush that is refused leaves the database as it was, and in every case the database moves through
-- a history of the store's own transactions.
pub handle_ingest-IsOutcome :
    (now : ℕ) (b : IngestBody) (s : Db) → IsOutcome s (is_well_formed b) (handle_ingest now b s)
unfolding handle_ingest
handle_ingest-IsOutcome now b s = elim (Option-cases b.checks) [
  | inl e ↦ rw (e, handle_ingest) (refusal-IsOutcome s _ no_checks refl)
  | inr (checks, e) ↦ rw (e, handle_ingest) (checks-IsOutcome now b checks s)
]
