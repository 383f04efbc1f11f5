-- ===== src/Handling/Clock/Race/Examples.antt =====
-- The race at a concrete input.
use watch_it.Base.{◌≡◌, arith}
use watch_it.Handling.Clock.Race.{Shared, Turns}
use watch_it.Handling.Clock.Race.Falls.{started, last_tick-falls}

last_tick-falls_example :
    (t u : Shared) × Turns (started 5) t × Turns t u × (t.last_tick ≡ 9) × (u.last_tick ≡ 5)
last_tick-falls_example = last_tick-falls 5 9 (omega arith)
