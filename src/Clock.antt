-- ===== src/Clock.antt =====
-- The time arithmetic of src/ConditionVariable.cpp, src/TimerTaskHandler.cpp and src/Util.cpp. The
-- clock is an argument: what `gettimeofday` has put into a `struct timeval`.
pub mod Bounds
mod Examples
use empool.Base.{ℕ, ◌+◌, ◌*◌, ◌/◌, ◌%◌, ◌^◌, ◌<◌, ltb, if◌then◌else◌}

pub record TimeVal : Type 0 where
  pub tv_sec : ℕ
  pub tv_usec : ℕ

pub record TimeSpec : Type 0 where
  pub tv_sec : ℕ
  pub tv_nsec : ℕ

-- `TimeValue` is `uint64_t`.
abbrev pub u64 : ℕ → ℕ
u64 n = n % 2 ^ 64

-- `GetCurrentTime`: milliseconds.
unfoldable pub get_current_time : TimeVal → ℕ
get_current_time now = u64 (u64 (now.tv_sec * 1000) + now.tv_usec / 1000)

-- The absolute time that `ConditionVariable::TimeWait` hands to `pthread_cond_timedwait`. Until
-- its last line `tv_nsec` holds microseconds.
unfoldable pub time_wait_until : TimeVal → ℕ → TimeSpec
time_wait_until now delay_in_ms =
    let sec = now.tv_sec + delay_in_ms / 1000 in
    let usec = now.tv_usec + delay_in_ms % 1000 * 1000 in
    if ltb usec 1_000_000
    then record { tv_sec = sec; tv_nsec = usec * 1000 }
    else record { tv_sec = sec + 1; tv_nsec = usec % 1_000_000 * 1000 }

-- The `struct timeval` that `MilliSleep` hands to `select`.
unfoldable pub milli_sleep : ℕ → TimeVal
milli_sleep time_in_ms = record { tv_sec = time_in_ms / 1000; tv_usec = time_in_ms % 1000 * 1000 }

-- `timeInMilliseconds`, and `timeInSeconds`, the priority of a task that is given none.
unfoldable pub time_in_milliseconds : TimeVal → ℕ
time_in_milliseconds tv = tv.tv_sec * 1000 + tv.tv_usec / 1000

abbrev pub time_in_seconds : TimeVal → ℕ
time_in_seconds tv = tv.tv_sec
