-- ===== src/Clock/Bounds.antt =====
-- That the time arithmetic is exact where it does not overflow.
use empool.Base.{ℕ, ◌+◌, ◌-◌, ◌*◌, ◌/◌, ◌^◌, ◌≤◌, ◌<◌, ◌≡◌, arith}
use empool.Clock.{TimeVal, get_current_time, time_wait_until}

-- What `gettimeofday` promises, and that the clock counts fewer than 2 ^ 54 seconds.
pub record IsClock (tv : TimeVal) : Type 0 where
  pub micros : tv.tv_usec < 1_000_000
  pub small : tv.tv_sec < 2 ^ 54

-- The time at which a wait of fewer than 2 ^ 64 milliseconds ends is a proper `struct timespec`
-- that does not overflow, at exactly the given delay.
pub time_wait_until_exact :
    (now : TimeVal) (delay : ℕ)
    → IsClock now
    → delay < 2 ^ 64
    → ((time_wait_until now delay).tv_nsec < 1_000_000_000)
      × ((time_wait_until now delay).tv_sec < 2 ^ 63)
      × ((time_wait_until now delay).tv_sec * 1_000_000 + (time_wait_until now delay).tv_nsec / 1000
          ≡ now.tv_sec * 1_000_000 + now.tv_usec + delay * 1000)
unfolding time_wait_until
time_wait_until_exact now delay h small = ground arith

-- A thread that reads the clock, and then waits for the rest of the time up to a deadline that it
-- has not reached, wakes at the deadline or less than a millisecond after it, as the clock of
-- `GetCurrentTime` shows: so it finds the deadline passed, and does not wait again.
wait_for_deadline :
    (now : TimeVal) (deadline : ℕ)
    → IsClock now
    → get_current_time now < deadline
    → deadline < 2 ^ 64
    → let until = time_wait_until now (deadline - get_current_time now) in
      (deadline * 1000 ≤ until.tv_sec * 1_000_000 + until.tv_nsec / 1000)
      × (until.tv_sec * 1_000_000 + until.tv_nsec / 1000 < deadline * 1000 + 1000)
unfolding get_current_time
wait_for_deadline now deadline h before small =
    omega (arith, time_wait_until_exact now (deadline - get_current_time now) h)
