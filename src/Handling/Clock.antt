-- ===== src/Handling/Clock.antt =====
-- Ticks: `event_handling_get_tick` and the time that a file has been open.
pub mod Monotone
pub mod Race
use watch_it.Base.{
  ℕ, suc, ◌+◌, ◌-◌, ◌*◌, ◌/◌, ◌%◌, ◌^◌, Bool, Option, none, some, ltb, if◌then◌else◌,
}
use watch_it.Base.Words.{ulong_of_int}
use watch_it.Handling.Types.{State, Env, Timespec, FileEvent, FileList}

-- `cur_tick`, a `long` that the comparison below converts to `unsigned long`.
unfoldable pub cur_tick : Timespec → ℕ
cur_tick t = (t.tv_sec * 1000000 + t.tv_nsec / 1000000) % 2 ^ 64

-- The tick for a reading: never less than `last_tick`, which it updates.
next_tick : State → Option Timespec → State × ℕ
next_tick s none = (s, 0)
next_tick s (some t) =
    if ltb (cur_tick t) s.last_tick
    then (s, s.last_tick)
    else (record s { last_tick = cur_tick t }, cur_tick t)

module _ (env : Env) where
  -- `event_handling_get_tick`
  unfoldable pub get_tick : State → State × ℕ
  unfolding next_tick cur_tick
  get_tick s =
      next_tick (record s { clock_reads = suc s.clock_reads }) (env.clock_gettime s.clock_reads)

  -- The delta at a tick; `none` is a NULL `orig` or `orig->file`.
  open_delta_at : Option FileEvent → ℕ → ℕ
  open_delta_at none tick = 0
  open_delta_at (some f) tick = if ltb tick f.open_timestamp then 0 else tick - f.open_timestamp

  unfoldable pub calc_open_delta : Option FileEvent → State → State × ℕ
  unfolding open_delta_at get_tick
  calc_open_delta orig s = let (s', tick) = get_tick s in (s', open_delta_at orig tick)

  -- The comparison of an `unsigned long` with an `int`.
  unfoldable pub has_open_past_delay : FileList → State → State × Bool
  unfolding calc_open_delta
  has_open_past_delay orig s =
      let (s', delta) = calc_open_delta (some orig.file) s in
      (s', ltb (ulong_of_int s.max_delay_before_fire) delta)
