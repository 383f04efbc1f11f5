-- ===== src/Handling/Wait/Deadline.antt =====
-- Where the deadline of the consumer's wait lies.
use watch_it.Base.{ℕ, ◌+◌, ◌*◌, ◌/◌, ◌%◌, ◌≤◌, ◌<◌, ◌≡◌, arith}
use watch_it.Handling.Types.{Timespec}
use watch_it.Handling.Wait.{Double, time_to_wait}

-- The longest wait whose seconds fit an `int`.
abbrev pub longest : ℕ
longest = 2147483648000

-- What doubles with 53 bits give for a number divided by 1000: the whole part exactly, and the
-- fraction in millionths, where the product may be rounded to just below the number.
pub record IsAccurate {ℓ} {W : Type ℓ} (d : Double W) : Type ℓ where
  pub whole :
      (w : ℕ)
      → w < longest
      → d.to_int (d.modf (d.div (d.of_ulong w) (d.of_ulong 1000))).1 ≡ w / 1000
  pub at_most :
      (w : ℕ)
      → w < longest
      → d.to_int (d.mul (d.modf (d.div (d.of_ulong w) (d.of_ulong 1000))).0 (d.of_ulong 1000000))
        ≤ w % 1000 * 1000

-- A time in nanoseconds.
abbrev pub nanos : Timespec → ℕ
nanos t = t.tv_sec * 1000000000 + t.tv_nsec

module _ {ℓ} {W : Type ℓ} (d : Double W) (laws : IsAccurate d) where
  -- Of a clock reading in range and a wait that is not too long, the deadline is in range, so that
  -- the wait is never refused with EINVAL, and it is not before the reading.
  pub time_to_wait_bounds :
      (now : Timespec) (w : ℕ)
      → now.tv_nsec < 1000000000
      → w < longest
      → ((time_to_wait d now w).tv_nsec < 1000000000) × (nanos now ≤ nanos (time_to_wait d now w))
  unfolding time_to_wait
  time_to_wait_bounds now w h k = ground (arith, laws.whole w k, laws.at_most w k)

  -- After the first millisecond of a second, the wait for a number of milliseconds is at least 999
  -- milliseconds longer than its whole seconds, and at most a second longer, whatever the
  -- milliseconds besides.
  pub time_to_wait-long :
      (now : Timespec) (w : ℕ)
      → 1000000 ≤ now.tv_nsec
      → w < longest
      → (nanos now + w / 1000 * 1000000000 + 999000000 ≤ nanos (time_to_wait d now w))
        × (nanos (time_to_wait d now w) ≤ nanos now + (w / 1000 + 1) * 1000000000)
  unfolding time_to_wait
  time_to_wait-long now w h k = ground (arith, laws.whole w k, laws.at_most w k)
