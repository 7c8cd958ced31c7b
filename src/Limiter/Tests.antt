-- ===== src/Limiter/Tests.antt =====
-- The limiter at a concrete run: 5 in the program, 100 in a host call, 7 in the program.
use particles.Base.{◌≤◌, ◌≡◌, true, List, [], ◌∷◌, ◌++◌, arith}
use particles.Limiter.{
  Event, pauses, resumes, stops, polls, trips, passes, run, begun, used, has_tripped,
}
use particles.Limiter.Metering.{run_meters, run_cancels}

abbrev call : List Event
call = passes 5 ∷ pauses ∷ passes 100 ∷ resumes ∷ passes 7 ∷ []

run_meters_example :
    let c = run (begun 10 1000) call in
    (used c.limiter c.now ≡ 12) × (has_tripped c.limiter ≡ true → 10 ≤ used c.limiter c.now)
run_meters_example = run_meters 10 1000 call (ground arith)

run_cancels_example :
    (run
      (begun 10 1000)
      (call ++ (polls ∷ ((passes 3 ∷ []) ++ (trips ∷ (stops ∷ [])))))).limiter.cancelled
    ≡ true
run_cancels_example =
    run_cancels 10 1000 call (passes 3 ∷ []) (stops ∷ []) (ground arith) (ground arith)
