-- ===== src/Clock/Examples.antt =====
-- The time arithmetic at concrete times.
use empool.Base.{◌+◌, ◌*◌, ◌/◌, ◌^◌, ◌<◌, ◌≡◌, refl, arith}
use empool.Clock.{TimeVal, get_current_time, time_wait_until}
use empool.Clock.Bounds.{IsClock, time_wait_until_exact}

abbrev noon : TimeVal
noon = record { tv_sec = 43_200; tv_usec = 999_001 }

noon-IsClock : IsClock noon
noon-IsClock = record { micros = omega arith; small = omega arith }

noon_ms : get_current_time noon ≡ 43_200_999
unfolding get_current_time
noon_ms = refl

carried : time_wait_until noon 1_500 ≡ record { tv_sec = 43_202; tv_nsec = 499_001_000 }
unfolding time_wait_until
carried = refl

time_wait_until_exact_example :
    ((time_wait_until noon 1_500).tv_nsec < 1_000_000_000)
    × ((time_wait_until noon 1_500).tv_sec < 2 ^ 63)
    × ((time_wait_until noon 1_500).tv_sec * 1_000_000 + (time_wait_until noon 1_500).tv_nsec / 1000
        ≡ noon.tv_sec * 1_000_000 + noon.tv_usec + 1_500 * 1000)
time_wait_until_exact_example = time_wait_until_exact noon 1_500 noon-IsClock (omega arith)
