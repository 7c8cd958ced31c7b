-- ===== src/Limiter/Metering.antt =====
-- Theorems on runtime/limiter.go: the time that is measured, and when a call is cancelled.
use particles.Base.{
  ℕ, ◌+◌, ◌≤◌, ◌≡◌, ◌≢◌, refl, sym, subst, ◌∙◌, ◌++◌, Bool, true, false, not, List, [], ◌∷◌,
  if◌then◌else◌, arith,
}
use particles.Limiter.{
  waiting, found_over, returned, Event, pauses, resumes, stops, polls, trips, leaves, passes,
  Clocked, step, run, begun, used, halt, stop, pause, resume, poll, trip, leave, start, new_limiter,
  has_tripped,
}

-- The specification: whether control is in the program, whether the call has ended, and the time
-- that passed while control was in the program.
pub record Guest : Type 0 where
  pub inside : Bool
  pub ended : Bool
  pub spent : ℕ

abbrev pub observe : Guest → Event → Guest
observe g pauses = record g { inside = false }
observe g resumes = record g { inside = not g.ended }
observe g stops = record g { inside = false; ended = true }
observe g (passes d) = record g { spent = if g.inside then g.spent + d else g.spent }
observe g _ = g

abbrev pub observe_all : Guest → List Event → Guest
observe_all g [] = g
observe_all g (e ∷ events) = observe_all (observe g e) events

record Agrees (budget : ℕ) (c : Clocked) (g : Guest) : Type 0 where
  kept : c.limiter.budget ≡ budget
  positive : c.limiter.budget ≢ 0
  inside : c.limiter.running ≡ g.inside
  ended : c.limiter.stopped ≡ g.ended
  out_at_end : g.ended ≡ true → g.inside ≡ false
  begun_before : c.limiter.run_start ≤ c.now
  spent : used c.limiter c.now ≡ g.spent
  over : c.limiter.watchdog ≡ found_over → c.limiter.budget ≤ g.spent
  soundly : c.limiter.tripped ≡ true → c.limiter.budget ≤ g.spent
  stop_cancels : c.limiter.stopped ≡ true → c.limiter.cancelled ≡ true
  closed : c.limiter.watchdog ≡ returned → c.limiter.cancelled ≡ true

step-Agrees :
    {budget : ℕ} (c : Clocked) (g : Guest) (e : Event)
    → Agrees budget c g
    → Agrees budget (step c e) (observe g e)
unfolding step used pause resume stop halt poll trip leave
step-Agrees c g pauses h = record {
  kept = ground arith;
  positive = ground arith;
  inside = ground arith;
  ended = ground arith;
  out_at_end = λ k. ground arith;
  begun_before = ground arith;
  spent = ground arith;
  over = λ k. ground arith;
  soundly = λ k. ground arith;
  stop_cancels = λ k. ground arith;
  closed = λ k. ground arith;
}
step-Agrees c g resumes h = record {
  kept = ground arith;
  positive = ground arith;
  inside = ground arith;
  ended = ground arith;
  out_at_end = λ k. ground arith;
  begun_before = ground arith;
  spent = ground arith;
  over = λ k. ground arith;
  soundly = λ k. ground arith;
  stop_cancels = λ k. ground arith;
  closed = λ k. ground arith;
}
step-Agrees c g stops h = record {
  kept = ground arith;
  positive = ground arith;
  inside = ground arith;
  ended = ground arith;
  out_at_end = λ k. ground arith;
  begun_before = ground arith;
  spent = ground arith;
  over = λ k. ground arith;
  soundly = λ k. ground arith;
  stop_cancels = λ k. ground arith;
  closed = λ k. ground arith;
}
step-Agrees c g polls h = record {
  kept = ground arith;
  positive = ground arith;
  inside = ground arith;
  ended = ground arith;
  out_at_end = λ k. ground arith;
  begun_before = ground arith;
  spent = ground arith;
  over = λ k. ground arith;
  soundly = λ k. ground arith;
  stop_cancels = λ k. ground arith;
  closed = λ k. ground arith;
}
step-Agrees c g trips h = record {
  kept = ground arith;
  positive = ground arith;
  inside = ground arith;
  ended = ground arith;
  out_at_end = λ k. ground arith;
  begun_before = ground arith;
  spent = ground arith;
  over = λ k. ground arith;
  soundly = λ k. ground arith;
  stop_cancels = λ k. ground arith;
  closed = λ k. ground arith;
}
step-Agrees c g leaves h = record {
  kept = ground arith;
  positive = ground arith;
  inside = ground arith;
  ended = ground arith;
  out_at_end = λ k. ground arith;
  begun_before = ground arith;
  spent = ground arith;
  over = λ k. ground arith;
  soundly = λ k. ground arith;
  stop_cancels = λ k. ground arith;
  closed = λ k. ground arith;
}
step-Agrees c g (passes d) h = record {
  kept = ground arith;
  positive = ground arith;
  inside = ground arith;
  ended = ground arith;
  out_at_end = λ k. ground arith;
  begun_before = ground arith;
  spent = ground arith;
  over = λ k. ground arith;
  soundly = λ k. ground arith;
  stop_cancels = λ k. ground arith;
  closed = λ k. ground arith;
}

begun-Agrees :
    (budget now : ℕ)
    → budget ≢ 0
    → Agrees budget (begun budget now) (record { inside = true; ended = false; spent = 0 })
unfolding begun new_limiter start used
begun-Agrees budget now h = record {
  kept = ground arith;
  positive = ground arith;
  inside = ground arith;
  ended = ground arith;
  out_at_end = λ k. ground arith;
  begun_before = ground arith;
  spent = ground arith;
  over = λ k. ground arith;
  soundly = λ k. ground arith;
  stop_cancels = λ k. ground arith;
  closed = λ k. ground arith;
}

run-Agrees :
    {budget : ℕ} (events : List Event) (c : Clocked) (g : Guest)
    → Agrees budget c g
    → Agrees budget (run c events) (observe_all g events)
unfolding run
run-Agrees [] c g h = h
run-Agrees (e ∷ events) c g h = run-Agrees events (step c e) (observe g e) (step-Agrees c g e h)

-- Over any calls, ticks and passing of time, in any order, a limiter with a budget answers exactly
-- the time that passed while control was in the program; and where it has tripped, that time has
-- reached the budget.
pub run_meters :
    (budget now : ℕ) (events : List Event)
    → budget ≢ 0
    → let c = run (begun budget now) events in
      let g = observe_all (record { inside = true; ended = false; spent = 0 }) events in
      (used c.limiter c.now ≡ g.spent)
      × (has_tripped c.limiter ≡ true → budget ≤ used c.limiter c.now)
unfolding has_tripped
run_meters budget now events h =
    let agrees =
      run-Agrees events (begun budget now) (record { inside = true; ended = false; spent = 0 })
        (begun-Agrees budget now h) in
    (agrees.spent, λ k. ground (arith, agrees.kept, agrees.spent, agrees.soundly))

run-append :
    (events more : List Event) (c : Clocked) → run c (events ++ more) ≡ run (run c events) more
unfolding run
run-append [] more c = refl
run-append (e ∷ events) more c = run-append events more (step c e)

-- The watchdog is past its last poll, and has cancelled the call if it has returned.
abbrev IsPast : Clocked → Type 0
IsPast c =
    (c.limiter.watchdog ≢ waiting) × (c.limiter.watchdog ≡ returned → c.limiter.cancelled ≡ true)

step-IsPast : (c : Clocked) (e : Event) → IsPast c → IsPast (step c e)
unfolding step pause resume stop halt poll trip leave
step-IsPast c pauses h = (ground arith, λ k. ground arith)
step-IsPast c resumes h = (ground arith, λ k. ground arith)
step-IsPast c stops h = (ground arith, λ k. ground arith)
step-IsPast c polls h = (ground arith, λ k. ground arith)
step-IsPast c trips h = (ground arith, λ k. ground arith)
step-IsPast c leaves h = (ground arith, λ k. ground arith)
step-IsPast c (passes d) h = h

step_cancelled :
    (c : Clocked) (e : Event) → c.limiter.cancelled ≡ true → (step c e).limiter.cancelled ≡ true
unfolding step pause resume stop halt poll trip leave
step_cancelled c pauses h = ground arith
step_cancelled c resumes h = ground arith
step_cancelled c stops h = ground arith
step_cancelled c polls h = ground arith
step_cancelled c trips h = ground arith
step_cancelled c leaves h = ground arith
step_cancelled c (passes d) h = h

run-IsPast : (events : List Event) (c : Clocked) → IsPast c → IsPast (run c events)
unfolding run
run-IsPast [] c h = h
run-IsPast (e ∷ events) c h = run-IsPast events (step c e) (step-IsPast c e h)

run_cancelled :
    (events : List Event) (c : Clocked)
    → c.limiter.cancelled ≡ true
    → (run c events).limiter.cancelled ≡ true
unfolding run
run_cancelled [] c h = h
run_cancelled (e ∷ events) c h = run_cancelled events (step c e) (step_cancelled c e h)

poll-IsPast :
    {budget : ℕ} (c : Clocked) (g : Guest)
    → Agrees budget c g
    → budget ≤ g.spent
    → IsPast (step c polls)
unfolding step poll
poll-IsPast c g h over = (ground arith, λ k. ground arith)

trip_cancels : (c : Clocked) → IsPast c → (step c trips).limiter.cancelled ≡ true
unfolding step trip
trip_cancels c h = ground arith

-- Once the time spent in the program has reached the budget, one more poll of the watchdog and the
-- step after it cancel the call, whatever else happens before, between and after them.
pub run_cancels :
    (budget now : ℕ) (events more rest : List Event)
    → budget ≢ 0
    → budget ≤ (observe_all (record { inside = true; ended = false; spent = 0 }) events).spent
    → (run (begun budget now) (events ++ (polls ∷ (more ++ (trips ∷ rest))))).limiter.cancelled
      ≡ true
unfolding run
run_cancels budget now events more rest h over =
    let g : Guest = record { inside = true; ended = false; spent = 0 } in
    let agrees = run-Agrees events (begun budget now) g (begun-Agrees budget now h) in
    let c = run (begun budget now) events in
    let past = poll-IsPast c (observe_all g events) agrees over in
    subst (λ (x : Clocked). x.limiter.cancelled ≡ true)
      (sym (
        run-append events (polls ∷ (more ++ (trips ∷ rest))) (begun budget now)
        ∙ run-append more (trips ∷ rest) (step c polls)))
      (run_cancelled rest (step (run (step c polls) more) trips)
        (trip_cancels (run (step c polls) more) (run-IsPast more (step c polls) past)))
