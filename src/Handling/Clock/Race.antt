-- ===== src/Handling/Clock/Race.antt =====
-- `event_handling_get_tick` in two threads at once. The daemon calls it for the time stamp of an
-- event without the mutex that the consumer holds, so the two calls interleave.
pub mod Falls
pub mod Examples
use watch_it.Base.{ℕ, ◌≤◌, Bool, Option, none, some, ltb, if◌then◌else◌}

-- Where a thread is in the function, with its `cur_tick`; `returned` is also between two calls.
pub data Place : Type 0 where
  compare_last : ℕ → Place
  store_last : ℕ → Place
  return_last : Place
  returned : ℕ → Place

-- One access to the clock or to `last_tick`: the thread and the variable after it. The clock shows
-- a tick, or `clock_gettime` fails and the call returns 0.
unfoldable pub access : Option ℕ → ℕ → Place → Place × ℕ
access none last_tick (returned tick) = (returned 0, last_tick)
access (some now) last_tick (returned tick) = (compare_last now, last_tick)
access now last_tick (compare_last cur_tick) =
    if ltb cur_tick last_tick then (return_last, last_tick) else (store_last cur_tick, last_tick)
access now last_tick (store_last cur_tick) = (return_last, cur_tick)
access now last_tick return_last = (returned last_tick, last_tick)

-- The two threads, the variable and the clock.
pub record Shared : Type 0 where
  pub producer : Place
  pub consumer : Place
  pub last_tick : ℕ
  pub now : ℕ

-- What `clock_gettime` gives where it works.
abbrev pub shown : Bool → ℕ → Option ℕ
shown works now = if works then some now else none

-- The next access of each thread, and whether `clock_gettime` works in it.
abbrev pub run_producer : Bool → Shared → Shared
run_producer works s =
    let (place, last) = access (shown works s.now) s.last_tick s.producer in
    record s { producer = place; last_tick = last }

abbrev pub run_consumer : Bool → Shared → Shared
run_consumer works s =
    let (place, last) = access (shown works s.now) s.last_tick s.consumer in
    record s { consumer = place; last_tick = last }

-- The clock goes on by any number of ticks, or a thread makes an access.
pub data Turn (s : Shared) : Shared → Type 0 where
  tick : (later : ℕ) → s.now ≤ later → Turn s (record s { now = later })
  producer_runs : (works : Bool) → Turn s (run_producer works s)
  consumer_runs : (works : Bool) → Turn s (run_consumer works s)

pub data Turns (s : Shared) : Shared → Type 0 where
  here : Turns s s
  next : {t u : Shared} → Turns s t → Turn t u → Turns s u
