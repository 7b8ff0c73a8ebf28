-- ===== src/Tests/Jobs.antt =====
-- Look-ups of a page, with an empty cache.
use gwsdb.Prelude.{
  text_eq, length, suc, codes, is_some, true, false, List, [], ◌∷◌, ◌++◌, ◌≡◌, ◌≤◌, ◌⊎◌, refl,
}
use gwsdb.IpAddr.{expand_ipv6}
use gwsdb.Dns.Names.{reverse_name}
use gwsdb.PtrResolve.{client_reverse_name, Event, asked, ended, unresolved, step, concurrency}
use gwsdb.PtrResolve.Queue.{run, all_wanted, all_running, AllCanBe, at_start, run-serves}
use gwsdb.Tests.Fixtures.{noon, google}

-- The second call of one address finds the answer to the first in the cache.
abbrev calls : List Event
calls = asked noon google ∷ ended noon google unresolved ∷ asked (suc noon) google ∷ []

one_started : (run calls (at_start [])).1 ≡ google ∷ []
unfolding run unresolved
one_started = refl

calls-AllCanBe : AllCanBe calls (at_start []) []
unfolding step unresolved text_eq
calls-AllCanBe = (tt, (refl, (tt, tt)))

run-serves_example :
    (length (all_running calls (at_start []) []) ≤ concurrency)
    × ((run calls (at_start [])).1 ++ (run calls (at_start [])).0.queue
        ≡ all_wanted calls (at_start []))
    × (((run calls (at_start [])).1 ≡ all_wanted calls (at_start []))
        ⊎ (length (all_running calls (at_start []) []) ≡ concurrency))
run-serves_example = run-serves calls [] calls-AllCanBe

-- The page reverses an address that src/ipAddr.ts refuses.
page_reverses : is_some (client_reverse_name (codes "1:::2")) ≡ true
unfolding client_reverse_name
page_reverses = refl

server_refuses : is_some (expand_ipv6 (codes "1:::2")) ≡ false
unfolding expand_ipv6
server_refuses = refl

same_name : client_reverse_name (codes "2001:4860::8888") ≡ reverse_name (codes "2001:4860::8888")
unfolding client_reverse_name reverse_name
same_name = refl
