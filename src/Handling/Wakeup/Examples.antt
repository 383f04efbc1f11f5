-- ===== src/Handling/Wakeup/Examples.antt =====
-- The condition variable at a concrete run.
use watch_it.Base.{refl, true, false}
use watch_it.Handling.Wakeup.{Waiter, Round, sleep, here, next}
use watch_it.Handling.Wakeup.Served.{added, rounds_in, Moves-served}
use watch_it.Handling.System.{Reach}
use watch_it.Handling.Wait.{read_now}
use watch_it.Handling.Samples.{ticking, start, opened}

abbrev begun : Waiter
begun = record { system = start; notified = false }

abbrev asleep : Waiter
asleep = record begun {
  system = record start { state = (read_now ticking start.state).0; waiting = true };
}

abbrev called : Waiter
called = added ticking opened asleep

-- The consumer waits, and an event is added.
Moves-served_example : ((e : Waiter) × Round ticking called e) × Reach ticking start called.system
unfolding rounds_in
Moves-served_example =
    Moves-served ticking {d = begun} {t = asleep} {v = called} (next here (sleep refl refl)) opened
      here refl refl
