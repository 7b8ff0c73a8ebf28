-- ===== src/Tests/Publishing.antt =====
-- Published records: one to create, one to keep, one to delete and one that a later one hides.
use gwsdb.Prelude.{ℕ, Text, codes, not, ◌&&◌, ◌≡◌, refl, List, [], ◌∷◌, any, mem_text, ◌==◌}
use gwsdb.Publish.{DnsRecord, create_record, delete_record, family_calls}
use gwsdb.Publish.Diff.{
  is_create, is_delete, on_file, last_of_each, family_calls-creates, family_calls-deletes,
}
use gwsdb.Tests.Fixtures.{google}

abbrev other : Text
other = codes "8.8.4.4"

abbrev stale : Text
stale = codes "9.9.9.9"

abbrev want : List Text
want = google ∷ other ∷ google ∷ []

abbrev on_record : ℕ → Text → DnsRecord
on_record id content = record { id = id; content = content }

abbrev records : List DnsRecord
records = on_record 1 stale ∷ on_record 2 other ∷ on_record 3 stale ∷ []

calls_made : family_calls want records ≡ create_record google ∷ delete_record 3 ∷ []
unfolding family_calls
calls_made = refl

family_calls-creates_example :
    any (is_create google) (family_calls want records)
    ≡ (mem_text google want && not (mem_text google (on_file records)))
family_calls-creates_example = family_calls-creates google want records

family_calls-deletes_example :
    any (is_delete 3) (family_calls want records)
    ≡ any (λ r. not (mem_text r.content want) && (r.id == 3)) (last_of_each records)
family_calls-deletes_example = family_calls-deletes 3 want records
