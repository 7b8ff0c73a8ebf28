-- ===== src/Tests/Gates.antt =====
-- The rate limit and the gates of a probe.
use gwsdb.Prelude.{
  ◌+◌, ◌≤◌, arith, ◌-◌, Text, codes, text_eq, true, false, ◌≡◌, refl, List, [], ◌∷◌,
}
use gwsdb.Store.Schema.{probe, Db}
use gwsdb.Store.RateLimit.{Racing, count_one, bucket_count, check_rate_limit, window_of}
use gwsdb.Store.RateLimit.Cap.{answers, yes_then_no, answers-yes_then_no}
use gwsdb.Store.RateLimit.{passes, counts}
use gwsdb.Store.RateLimit.Race.{Race, begun, then_step, quiet, Race-passed}
use gwsdb.Dns.Lookups.{Resolver, no_response}
use gwsdb.Api.Probe.{unreachable, probe_unreachable, CheckReply, handle_check, CheckTimes}
use gwsdb.Api.Probe.Gates.{IsCacheOf, handle_check-unrecorded}
use gwsdb.Store.Caches.{AsnRow}
use gwsdb.Tests.Fixtures.{number, of_google, noon, google, empty_db}

abbrev visitor : Text
visitor = codes "1.2.3.4"

answers-yes_then_no_example :
    answers probe visitor 2 60_000 (noon ∷ noon ∷ noon ∷ []) empty_db
    ≡ yes_then_no
        (2 - bucket_count probe visitor 30_000_000 empty_db.rates)
        (noon ∷ noon ∷ noon ∷ [])
unfolding window_of
answers-yes_then_no_example =
    answers-yes_then_no probe visitor 2 60_000 30_000_000 (noon ∷ noon ∷ noon ∷ []) empty_db
      (refl, (refl, (refl, tt)))

-- Two requests both pass the SELECT before either counts itself, where one is left.
abbrev both_counted : Racing
both_counted = record {
  rows = record { kind = probe; client_ip = visitor; window = 30_000_000; count = 2 } ∷ [];
  waiting = 0;
  passed = 2;
}

both_pass : Race probe visitor 1 30_000_000 2 (quiet []) both_counted
unfolding count_one bucket_count text_eq
both_pass =
    then_step
      (then_step
        (then_step (then_step begun (passes refl) (omega arith)) (passes refl) (omega arith))
        (counts (omega arith)) (omega arith))
      (counts (omega arith)) (omega arith)

Race-passed_example : 2 ≤ (1 - bucket_count probe visitor 30_000_000 []) + (2 - 1)
Race-passed_example = Race-passed probe visitor 1 30_000_000 2 [] both_counted both_pass

two_of_three :
    answers probe visitor 2 60_000 (noon ∷ noon ∷ noon ∷ []) empty_db ≡ true ∷ true ∷ false ∷ []
unfolding answers check_rate_limit text_eq
two_of_three = refl

abbrev silent : Resolver
silent name type = no_response

abbrev at_noon : CheckTimes
at_noon = record { asked = noon; looked = noon; cached = noon; probed_at = noon }

-- The probe server does not answer.
abbrev away : (Db × List AsnRow) × CheckReply
away =
    handle_check number silent (λ ip. unreachable) at_noon (codes "CN") google visitor empty_db
      (of_google ∷ [])

server_silent : away.1 ≡ probe_unreachable
unfolding handle_check text_eq
server_silent = refl

handle_check-unrecorded_example :
    (away.0.0 ≡ record empty_db { rates = away.0.0.rates })
    × IsCacheOf number silent at_noon google (of_google ∷ []) away.0.1
unfolding handle_check
handle_check-unrecorded_example =
    handle_check-unrecorded number silent (λ ip. unreachable) at_noon (codes "CN") google visitor
      empty_db (of_google ∷ []) refl
