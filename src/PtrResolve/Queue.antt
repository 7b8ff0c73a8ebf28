-- ===== src/PtrResolve/Queue.antt =====
-- Any sequence of events on the page: which look-ups run, wait and start (ptrResolve.js).
use mathlib.Core.List.{append_assoc}
use gwsdb.Prelude.{
  ℕ, suc, ◌+◌, text_eq, mem_text, true, length, length-append, if◌then◌else◌, ◌-◌, ◌≤◌, Text, List,
  [], ◌∷◌, ◌++◌, ◌≡◌, ◌⊎◌, inl, inr, refl, sym, ap, ◌∙◌, arith, ltb, Bool-cases, Option-cases,
}
use gwsdb.PtrResolve.{
  Cached, Jobs, Event, asked, ended, written, concurrency, pump, pumped, step, wanted, live_entry,
}

-- At most 24 look-ups run, and one waits only while 24 run.
abbrev pub IsBusy : Jobs → Type 0
IsBusy jobs = (jobs.active ≤ concurrency) × ((jobs.queue ≡ []) ⊎ (jobs.active ≡ concurrency))

pump-order :
    (active : ℕ) (queue : List Text) → (pump active queue).1.1 ++ (pump active queue).1.0 ≡ queue
unfolding pump
pump-order active [] = refl
pump-order active (ip ∷ queue) = elim (Bool-cases (ltb active concurrency)) [
  | inl free ↦ rw free (ap (◌∷◌ ip) (pump-order (suc active) queue))
  | inr busy ↦ rw busy refl
]

pump-busy :
    (active : ℕ) (queue : List Text)
    → active ≤ concurrency
    → ((pump active queue).0 ≤ concurrency)
      × (((pump active queue).1.0 ≡ []) ⊎ ((pump active queue).0 ≡ concurrency))
unfolding pump
pump-busy active [] h = (h, inl refl)
pump-busy active (ip ∷ queue) h = elim (Bool-cases (ltb active concurrency)) [
  | inl free ↦ rw free (pump-busy (suc active) queue (ground arith))
  | inr busy ↦ rw busy (h, inr (ground arith))
]

append_nil : (xs : List Text) → xs ++ [] ≡ xs
append_nil [] = refl
append_nil (x ∷ xs) = ap (◌∷◌ x) (append_nil xs)

-- One event keeps the order: what starts and what then waits is what waited and what is wanted.
step-order :
    (e : Event) (jobs : Jobs)
    → (step e jobs).1 ++ (step e jobs).0.queue ≡ jobs.queue ++ wanted e jobs
unfolding step wanted pumped
step-order (asked now ip) jobs = elim (Option-cases (live_entry now ip jobs.cache)) [
  | inl miss ↦ rw (miss, step, wanted) (pump-order jobs.active (jobs.queue ++ ip ∷ []))
  | inr (hit, e) ↦ rw (e, step, wanted) (sym (append_nil jobs.queue))
]
step-order (ended now ip r) jobs =
    pump-order (jobs.active - 1) jobs.queue ∙ sym (append_nil jobs.queue)
step-order (written now) jobs = sym (append_nil jobs.queue)

step-IsBusy : (e : Event) (jobs : Jobs) → IsBusy jobs → IsBusy (step e jobs).0
unfolding step pumped
step-IsBusy (asked now ip) jobs h = elim (Option-cases (live_entry now ip jobs.cache)) [
  | inl miss ↦ rw (miss, step) (pump-busy jobs.active (jobs.queue ++ ip ∷ []) h.0)
  | inr (hit, e) ↦ rw (e, step) h
]
step-IsBusy (ended now ip r) jobs h = pump-busy (jobs.active - 1) jobs.queue (omega (arith, h.0))
step-IsBusy (written now) jobs h = h

-- The events one after another: the state at the end, and the look-ups that have started.
unfoldable pub run : List Event → Jobs → Jobs × List Text
unfolding step
run [] jobs = (jobs, [])
run (e ∷ es) jobs =
    let first = step e jobs in let rest = run es first.0 in (rest.0, first.1 ++ rest.1)

-- The addresses that have to be looked up, in the order of the calls.
unfoldable pub all_wanted : List Event → Jobs → List Text
unfolding wanted step
all_wanted [] jobs = []
all_wanted (e ∷ es) jobs = wanted e jobs ++ all_wanted es (step e jobs).0

run-order :
    (es : List Event) (jobs : Jobs)
    → (run es jobs).1 ++ (run es jobs).0.queue ≡ jobs.queue ++ all_wanted es jobs
unfolding run all_wanted
run-order [] jobs = sym (append_nil jobs.queue)
run-order (e ∷ es) jobs =
    let next = (step e jobs).0 in
    append_assoc (step e jobs).1 (run es next).1 (run es next).0.queue
    ∙ ap (◌++◌ (step e jobs).1) (run-order es next)
    ∙ sym (append_assoc (step e jobs).1 next.queue (all_wanted es next))
    ∙ ap (λ q. q ++ all_wanted es next) (step-order e jobs)
    ∙ append_assoc jobs.queue (wanted e jobs) (all_wanted es next)

run-IsBusy : (es : List Event) (jobs : Jobs) → IsBusy jobs → IsBusy (run es jobs).0
unfolding run
run-IsBusy [] jobs h = h
run-IsBusy (e ∷ es) jobs h = run-IsBusy es (step e jobs).0 (step-IsBusy e jobs h)

-- The look-ups that run on the page: those that have started and have not ended. One that ends is
-- taken away, and those that the event starts are added.
unfoldable pub leave : Text → List Text → List Text
leave ip [] = []
leave ip (t ∷ running) = if text_eq t ip then running else t ∷ leave ip running

abbrev pub still_running : Event → List Text → List Text
still_running (ended now ip r) running = leave ip running
still_running _ running = running

-- Only a look-up that runs can end.
abbrev pub CanBe : Event → List Text → Type 0
CanBe (ended now ip r) running = mem_text ip running ≡ true
CanBe _ running = Unit

unfoldable pub all_running : List Event → Jobs → List Text → List Text
unfolding step leave
all_running [] jobs running = running
all_running (e ∷ es) jobs running =
    all_running es (step e jobs).0 (still_running e running ++ (step e jobs).1)

abbrev pub AllCanBe : List Event → Jobs → List Text → Type 0
AllCanBe [] jobs running = Unit
AllCanBe (e ∷ es) jobs running =
    CanBe e running × AllCanBe es (step e jobs).0 (still_running e running ++ (step e jobs).1)

length-leave :
    (ip : Text) (running : List Text)
    → mem_text ip running ≡ true
    → length (leave ip running) ≡ length running - 1
unfolding leave
length-leave ip [] h = absurd (ground arith)
length-leave ip (t ∷ running) h = ground (arith, length-leave ip running, some_length ip running)
  where
    some_length :
        (ip : Text) (running : List Text) → mem_text ip running ≡ true → 1 ≤ length running
    some_length ip [] h = absurd (ground arith)
    some_length ip (t ∷ running) h = omega arith

pump-count :
    (active : ℕ) (queue : List Text)
    → (pump active queue).0 ≡ active + length (pump active queue).1.1
unfolding pump
pump-count active [] = omega arith
pump-count active (ip ∷ queue) = elim (Bool-cases (ltb active concurrency)) [
  | inl free ↦ rw free (omega (arith, pump-count (suc active) queue))
  | inr busy ↦ rw busy (omega arith)
]

-- The counter is the number of look-ups that run.
step-active :
    (e : Event) (jobs : Jobs) (running : List Text)
    → CanBe e running
    → jobs.active ≡ length running
    → (step e jobs).0.active ≡ length (still_running e running ++ (step e jobs).1)
unfolding step pumped
step-active (asked now ip) jobs running can same =
    elim (Option-cases (live_entry now ip jobs.cache)) [
      | inl miss ↦
          let queue = jobs.queue ++ ip ∷ [] in
          rw (miss, step)
            (omega (
              arith,
              pump-count jobs.active queue,
              length-append running (pump jobs.active queue).1.1,
              same,
            ))
      | inr (hit, e) ↦ rw (e, step) (omega (arith, length-append running [], same))
    ]
step-active (ended now ip r) jobs running can same = omega (
  arith,
  pump-count (jobs.active - 1) jobs.queue,
  length-append (leave ip running) (pump (jobs.active - 1) jobs.queue).1.1,
  length-leave ip running can,
  same,
)
step-active (written now) jobs running can same = omega (arith, length-append running [], same)

run-active :
    (es : List Event) (jobs : Jobs) (running : List Text)
    → AllCanBe es jobs running
    → jobs.active ≡ length running
    → (run es jobs).0.active ≡ length (all_running es jobs running)
unfolding run all_running
run-active [] jobs running can same = same
run-active (e ∷ es) jobs running (now, later) same =
    run-active es (step e jobs).0 (still_running e running ++ (step e jobs).1) later
      (step-active e jobs running now same)

-- Before the first call.
abbrev pub at_start : List Cached → Jobs
at_start cache = record { cache = cache; active = 0; queue = [] }

-- On a page that started with any cache, after any sequence of calls, of writes of the cache, and of
-- ends of look-ups that run: at most 24 look-ups have started and not ended. The look-ups that have
-- started are those that were wanted, in the order of the calls; if any still wait, then they are the
-- last ones, and 24 run.
pub run-serves :
    (es : List Event) (cache : List Cached)
    → AllCanBe es (at_start cache) []
    → (length (all_running es (at_start cache) []) ≤ concurrency)
      × ((run es (at_start cache)).1 ++ (run es (at_start cache)).0.queue
          ≡ all_wanted es (at_start cache))
      × (((run es (at_start cache)).1 ≡ all_wanted es (at_start cache))
          ⊎ (length (all_running es (at_start cache) []) ≡ concurrency))
run-serves es cache can =
    let busy = run-IsBusy es (at_start cache) (omega arith, inl refl) in
    let order = run-order es (at_start cache) in
    let count = run-active es (at_start cache) [] can refl in
    (
      omega (arith, busy.0, count),
      order,
      elim busy.1 [
        | inr full ↦ inr (omega (arith, full, count))
        | inl none_wait ↦
            inl (sym (append_nil _) ∙ ap (◌++◌ (run es (at_start cache)).1) (sym none_wait) ∙ order)
      ],
    )
