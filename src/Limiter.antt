-- ===== src/Limiter.antt =====
-- runtime/limiter.go: the clock of the time that a call spends in its program, and the watchdog
-- that cancels the call. Times and durations are nanoseconds; `now` is time.Now at the call.
pub mod Metering
mod Tests
use particles.Base.{
  ℕ, ◌+◌, ◌-◌, Bool, true, false, not, ◌&&◌, List, [], ◌∷◌, leb, ◌==◌, if◌then◌else◌,
}

-- Where the goroutine of the watchdog stands: waiting for a tick, past a poll that found the budget
-- used up, or returned.
pub data Watchdog : Type 0 where
  waiting found_over returned : Watchdog

pub record Limiter : Type 0 where
  pub budget : ℕ
  pub running : Bool
  pub run_start : ℕ
  pub elapsed : ℕ
  pub stopped : Bool
  pub tripped : Bool
  -- the context of the call is cancelled
  pub cancelled : Bool
  pub watchdog : Watchdog

unfoldable pub new_limiter : ℕ → Limiter
new_limiter budget = record {
  budget = budget;
  running = false;
  run_start = 0;
  elapsed = 0;
  stopped = false;
  tripped = false;
  cancelled = false;
  watchdog = returned;
}

unfoldable pub start : Limiter → ℕ → Limiter
start l now =
    if l.budget == 0 then l else record l { running = true; run_start = now; watchdog = waiting }

-- `if l.running { l.elapsed += time.Since(l.runStart); l.running = false }`
unfoldable pub halt : Limiter → ℕ → Limiter
halt l now =
    if l.running then record l { elapsed = l.elapsed + (now - l.run_start); running = false } else l

-- Stop, without the time that it answers: that is `elapsed` afterwards
unfoldable pub stop : Limiter → ℕ → Limiter
unfolding halt
stop l now =
    if l.budget == 0
    then l
    else if l.stopped
    then l
    else record (halt l now) { stopped = true; cancelled = true }

unfoldable pub stop_answer : Limiter → ℕ → ℕ
unfolding stop
stop_answer l now = if l.budget == 0 then 0 else (stop l now).elapsed

unfoldable pub pause : Limiter → ℕ → Limiter
unfolding halt
pause l now = if l.budget == 0 then l else halt l now

unfoldable pub resume : Limiter → ℕ → Limiter
resume l now =
    if l.budget == 0
    then l
    else if not l.stopped && not l.running
    then record l { running = true; run_start = now }
    else l

unfoldable pub used : Limiter → ℕ → ℕ
used l now =
    if l.budget == 0 then 0 else if l.running then l.elapsed + (now - l.run_start) else l.elapsed

unfoldable pub has_tripped : Limiter → Bool
has_tripped l = if l.budget == 0 then false else l.tripped

-- One tick: the poll of the watchdog, which holds the lock only to read.
unfoldable pub poll : Limiter → ℕ → Limiter
unfolding used
poll l now = elim l.watchdog [
  | waiting ↦ if leb l.budget (used l now) then record l { watchdog = found_over } else l
  | _ ↦ l
]

-- What follows a poll that found the budget used up.
unfoldable pub trip : Limiter → Limiter
trip l = elim l.watchdog [
  | found_over ↦ record l { tripped = true; cancelled = true; watchdog = returned }
  | _ ↦ l
]

-- The watchdog sees that Stop closed its channel.
unfoldable pub leave : Limiter → Limiter
leave l = elim l.watchdog [
  | waiting ↦ if l.stopped then record l { watchdog = returned } else l
  | _ ↦ l
]

-- The calls on a limiter, the steps of its watchdog, and time that passes, in the order in which
-- they take the lock.
pub data Event : Type 0 where
  pauses resumes stops polls trips leaves : Event
  passes : ℕ → Event

pub record Clocked : Type 0 where
  pub now : ℕ
  pub limiter : Limiter

unfoldable pub step : Clocked → Event → Clocked
unfolding pause resume stop poll trip leave
step c pauses = record c { limiter = pause c.limiter c.now }
step c resumes = record c { limiter = resume c.limiter c.now }
step c stops = record c { limiter = stop c.limiter c.now }
step c polls = record c { limiter = poll c.limiter c.now }
step c trips = record c { limiter = trip c.limiter }
step c leaves = record c { limiter = leave c.limiter }
step c (passes d) = record c { now = c.now + d }

unfoldable pub run : Clocked → List Event → Clocked
unfolding step
run c [] = c
run c (e ∷ events) = run (step c e) events

-- A call begins: Start on a new limiter.
unfoldable pub begun : ℕ → ℕ → Clocked
unfolding new_limiter start
begun budget now = record { now = now; limiter = start (new_limiter budget) now }
