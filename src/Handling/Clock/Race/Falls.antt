-- ===== src/Handling/Clock/Race/Falls.antt =====
-- What the race breaks: `last_tick` can go back.
use watch_it.Base.{true, ℕ, ◌<◌, ◌≡◌, arith}
use watch_it.Handling.Clock.Race.{
  returned, access, Shared, tick, producer_runs, consumer_runs, Turns, here, next, run_producer,
  run_consumer,
}

-- Before the first call, with the clock at a tick.
abbrev pub started : ℕ → Shared
started now = record { producer = returned 0; consumer = returned 0; last_tick = 0; now = now }

-- For any two ticks, the clock going on from the first to the second, there is a run of the two
-- threads in which `last_tick` is the second and is then set back to the first.
pub last_tick-falls :
    (first second : ℕ)
    → first < second
    → (t u : Shared) × Turns (started first) t
      × Turns t u
      × (t.last_tick ≡ second)
      × (u.last_tick ≡ first)
unfolding access
last_tick-falls first second h =
    let read : Shared = run_producer true (run_producer true (started first)) in
    let later : Shared = record read { now = second } in
    let stored : Shared = run_consumer true (run_consumer true (run_consumer true later)) in
    (
      stored,
      run_producer true stored,
      next
          (next
            (next
              (next (next (next here (producer_runs true)) (producer_runs true))
                (tick second (omega arith)))
              (consumer_runs true))
            (consumer_runs true))
          (consumer_runs true),
      next here (producer_runs true),
      ground arith,
      ground arith,
    )
