-- ===== src/Handling/Wait.antt =====
-- `wait_for_producer`: the deadline of the wait. What `pthread_cond_timedwait` returns is only
-- logged.
pub mod Deadline
use watch_it.Base.{ℕ, suc, ◌+◌, ◌-◌, Option, none, some, leb, if◌then◌else◌}
use mathlib.Core.Option
use watch_it.Handling.Types.{State, Env, Timespec}

-- All that the code does with a `double`. `modf` gives the fraction and the whole part; `to_int` is
-- the conversion to `int`.
pub record Double {ℓ} (W : Type ℓ) : Type ℓ where
  pub of_ulong : ℕ → W
  pub div : W → W → W
  pub mul : W → W → W
  pub modf : W → W × W
  pub to_int : W → ℕ

module _ {ℓ} {W : Type ℓ} (d : Double W) where
  -- `(int)seconds_int_part`
  unfoldable pub whole_seconds : ℕ → ℕ
  whole_seconds max_wait_time =
      d.to_int (d.modf (d.div (d.of_ulong max_wait_time) (d.of_ulong 1000))).1

  -- `(int)(seconds_fract_part * 1000000)`
  unfoldable pub fraction : ℕ → ℕ
  fraction max_wait_time =
      let (seconds_fract_part, _) = d.modf (d.div (d.of_ulong max_wait_time) (d.of_ulong 1000)) in
      d.to_int (d.mul seconds_fract_part (d.of_ulong 1000000))

  -- `timeToWait`
  unfoldable pub time_to_wait : Timespec → ℕ → Timespec
  unfolding whole_seconds fraction
  time_to_wait now max_wait_time =
      let nsec = now.tv_nsec + fraction max_wait_time in
      let sec = now.tv_sec + whole_seconds max_wait_time in
      if leb 1000000 nsec
      then record { tv_sec = suc sec; tv_nsec = nsec - 1000000 }
      else record { tv_sec = sec; tv_nsec = nsec }

-- The reading of the clock, which is not checked for failure.
unfoldable pub read_now : Env → State → State × Option Timespec
read_now env s = (record s { clock_reads = suc s.clock_reads }, env.clock_gettime s.clock_reads)

-- The call up to the wait: the deadline, or `none` if the clock has failed and it is arbitrary.
unfoldable pub wait_for_producer {ℓ} :
    {W : Type ℓ} → Double W → Env → ℕ → State → State × Option Timespec
unfolding read_now time_to_wait
wait_for_producer d env max_wait_time s =
    let (s', now) = read_now env s in (s', Option.map (λ t. time_to_wait d t max_wait_time) now)
