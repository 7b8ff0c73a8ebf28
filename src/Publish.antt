-- ===== src/Publish.antt =====
-- src/publish.ts: the published DNS records follow the pool's best addresses. The Cloudflare API is
-- not this repository's code: `api` is its answer to a write, true for success, and the records on
-- file are given as it lists them.
pub mod Diff
use gwsdb.Prelude.{
  ◌&&◌, ℕ, ◌+◌, ◌*◌, Text, text_eq, Bool, true, false, not, Option, none, some, List, [], ◌∷◌, ◌++◌,
  map, ltb, if◌then◌else◌, keep, mem_text, unique, or_else,
}
use gwsdb.Store.Schema.{Db}
use gwsdb.Store.Publishing.{top_ips_for_publish}

pub record DnsRecord : Type 0 where
  pub id : ℕ
  pub content : Text

pub data Call : Type 0 where
  create_record : Text → Call
  delete_record : ℕ → Call

-- `new Map(have.map((r) => [r.content, r.id]))`: the last id of a content, at its first place.
unfoldable pub set_content : DnsRecord → List (Text × ℕ) → List (Text × ℕ)
set_content r [] = (r.content, r.id) ∷ []
set_content r ((k, id) ∷ m) =
    if text_eq k r.content then (k, r.id) ∷ m else (k, id) ∷ set_content r m

unfoldable pub by_content : List DnsRecord → List (Text × ℕ) → List (Text × ℕ)
unfolding set_content
by_content [] m = m
by_content (r ∷ rs) m = by_content rs (set_content r m)

abbrev pub contents : List (Text × ℕ) → List Text
contents m = map (λ (p : Text × ℕ). p.0) m

-- The calls of `syncFamily`: the missing records, and then the stale ones.
unfoldable pub creations : List Text → List (Text × ℕ) → List Call
creations want have = map create_record (keep (λ ip. not (mem_text ip (contents have))) want)

unfoldable pub deletions : List Text → List (Text × ℕ) → List Call
deletions want have =
    map (λ (p : Text × ℕ). delete_record p.1)
      (keep (λ (p : Text × ℕ). not (mem_text p.0 want)) have)

unfoldable pub family_calls : List Text → List DnsRecord → List Call
unfolding creations deletions by_content unique
family_calls want records =
    let have = by_content records [] in creations (unique want) have ++ deletions (unique want) have

-- The calls made: the first that fails throws. The flag tells whether all succeeded.
unfoldable pub run_calls : (Call → Bool) → List Call → List Call × Bool
run_calls api [] = ([], true)
run_calls api (c ∷ cs) =
    let (made, ok) = run_calls api cs in if api c then (c ∷ made, ok) else (c ∷ [], false)

-- `syncFamily`; `none` is a listing that fails.
unfoldable pub sync_family :
    (Call → Bool) → ℕ → Db → Bool → Option (List DnsRecord) → List Call × Bool
unfolding family_calls run_calls top_ips_for_publish
sync_family api limit db v6 none = ([], false)
sync_family api limit db v6 (some records) =
    run_calls api (family_calls (top_ips_for_publish db v6 limit) records)

abbrev pub min_sync_interval_ms : ℕ
min_sync_interval_ms = 5 * 60 * 1000

abbrev pub default_limit : ℕ
default_limit = 4

pub record Synced : Type 0 where
  pub last_sync_at : ℕ
  pub calls : List Call
  pub ok : Bool

abbrev both_families : ℕ → List Call × Bool → List Call × Bool → Synced
both_families now v4 v6 = record { last_sync_at = now; calls = v4.0 ++ v6.0; ok = v4.1 && v6.1 }

-- `syncPublish`: `configured` tells whether DNS_PUBLISH_NAME is set, and the two listings are those
-- of A and AAAA. An error of one family does not stop the other.
unfoldable pub sync_publish :
    (Call → Bool)
    → Bool
    → Option ℕ
    → Option (List DnsRecord)
    → Option (List DnsRecord)
    → ℕ
    → ℕ
    → Db
    → Synced
unfolding sync_family
sync_publish api configured limit list_a list_aaaa now last_sync_at db =
    let n = or_else limit default_limit in
    if not configured
    then record { last_sync_at = last_sync_at; calls = []; ok = true }
    else if ltb now (last_sync_at + min_sync_interval_ms)
    then record { last_sync_at = last_sync_at; calls = []; ok = true }
    else both_families now (sync_family api n db false list_a) (sync_family api n db true list_aaaa)
