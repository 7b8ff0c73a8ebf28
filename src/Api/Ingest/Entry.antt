-- ===== src/Api/Ingest/Entry.antt =====
-- `onRequestPost` of functions/ingest.ts: the token, and the body's JSON, before the handler. `encode` is
-- TextEncoder's. An exception of the handler, which the entry answers with 500, is not modelled.
use gwsdb.Prelude.{ℕ, Text, List, Option, none, some, if◌then◌else◌}
use gwsdb.Auth.{check_bearer_auth}
use gwsdb.Store.Schema.{Db}
use gwsdb.Api.Ingest.{IngestBody, IngestReply, handle_ingest}

pub data EntryReply : Type 0 where
  unauthorized invalid_json : EntryReply
  answered : IngestReply → EntryReply

unfoldable pub ingest_json : ℕ → Option IngestBody → Db → Db × EntryReply
unfolding handle_ingest
ingest_json now none db = (db, invalid_json)
ingest_json now (some body) db =
    let (after, reply) = handle_ingest now body db in (after, answered reply)

unfoldable pub ingest_post :
    (Text → List ℕ) → Option Text → Text → ℕ → Option IngestBody → Db → Db × EntryReply
unfolding check_bearer_auth ingest_json
ingest_post encode header token now body db =
    let handled = ingest_json now body db in
    if check_bearer_auth encode header token then handled else (db, unauthorized)
