-- ===== src/Handling/Clock/Monotone.antt =====
-- The ticks never go back, and what a tick measures.
use watch_it.Base.{◌+◌, ◌*◌, ◌^◌, ◌≤◌, ◌<◌, ◌≡◌, ◌⊎◌, inl, inr, none, some, arith, Option-cases}
use watch_it.Handling.Types.{State, Env, Timespec}
use watch_it.Handling.Clock.{cur_tick, get_tick}

-- `event_handling_get_tick` never lowers `last_tick`. If the clock can be read, the tick is the
-- new `last_tick`, the greater of the old one and the reading; if not, `last_tick` is left alone
-- and the tick is 0.
pub get_tick-monotone :
    (env : Env) (s : State)
    → (s.last_tick ≤ (get_tick env s).0.last_tick)
      × ((env.clock_gettime s.clock_reads ≡ none)
            × ((get_tick env s).1 ≡ 0)
            × ((get_tick env s).0.last_tick ≡ s.last_tick)
          ⊎ ((t : Timespec) × (env.clock_gettime s.clock_reads ≡ some t)
              × (cur_tick t ≤ (get_tick env s).1)
              × ((get_tick env s).1 ≡ (get_tick env s).0.last_tick)
              × (((get_tick env s).1 ≡ cur_tick t) ⊎ ((get_tick env s).1 ≡ s.last_tick))))
unfolding get_tick
get_tick-monotone env s = elim (Option-cases (env.clock_gettime s.clock_reads)) [
  | inl failed ↦ (ground arith, inl (failed, ground arith, ground arith))
  | inr (t, e) ↦ (ground arith, inr (t, e, ground arith, ground arith, ground arith))
]

-- A millisecond is one tick within a second, but a second is a million ticks: any two readings on
-- either side of a full second, however close, are at least 999001 ticks apart.
cur_tick-next_second :
    (a b : Timespec)
    → a.tv_nsec < 1000000000
    → b.tv_nsec < 1000000000
    → b.tv_sec * 1000000 + 999 < 2 ^ 64
    → a.tv_sec < b.tv_sec
    → cur_tick a + 999001 ≤ cur_tick b
unfolding cur_tick
cur_tick-next_second a b ha hb room h = omega arith
