-- ===== src/Barrier/Examples.antt =====
-- The barrier's theorems at concrete runs.
use empool.Base.{◌+◌, ◌≤◌, ◌<◌, ◌≡◌, refl, inl, Bool, true, false, arith, ℕ_discrete, update}
use empool.Barrier.{
  Barrier, Ticket, woken, returned, success, broken, await, await_loop, reset, new_barrier,
}
use empool.Barrier.System.{System, call, stir, Reach, first, later, start, called}
use empool.Barrier.Waiters.{all_released}
use empool.Barrier.Attendance.{waiting_count, timeouts_only}
use empool.Barrier.Accounting.{waiting}

abbrev two : Barrier
two = record { max_count = 2; count = 2; reset_index = 0; barrier_cond = 0 }

abbrev ticket_0 : Ticket
ticket_0 = record { current_reset_index = 0; current_barrier_cond = 0 }

-- Thread 0 waits, and then wakes for no reason.
abbrev one_waits : System
unfolding await
one_waits = called (start two) 0 false

one_waits-Reach : Reach 2 false two one_waits
unfolding await
one_waits-Reach = later first (call 0 false (omega arith) (inl refl) (λ e. e) (omega arith))

abbrev one_stirs : System
unfolding await
one_stirs = record one_waits { pc = update one_waits.pc 0 (woken false ticket_0) }

one_stirs-Reach : Reach 2 false two one_stirs
unfolding await ℕ_discrete
one_stirs-Reach = later one_waits-Reach (stir 0 false ticket_0 (omega arith) refl)

all_released_example :
    (one_waits.barrier.count ≡ 1
      → (later : Bool)
      → (await_loop false (await later one_waits.barrier).0 ticket_0 ≡ returned success)
        × ((await later one_waits.barrier).1 ≡ returned success)
        × ((await later one_waits.barrier).2 ≡ true))
    × (await_loop false (reset one_waits.barrier) ticket_0 ≡ returned broken)
unfolding await ℕ_discrete
all_released_example =
    all_released (omega arith) (omega arith) one_waits-Reach 0 false ticket_0 refl

waiting_count_example :
    (0 < one_waits.barrier.count)
    × (waiting 2 one_waits < 2)
    × (one_waits.barrier.count + waiting 2 one_waits ≤ 2)
    × (◌≡◌ {A = Bool} false false → one_waits.barrier.count + waiting 2 one_waits ≡ 2)
unfolding new_barrier
waiting_count_example = waiting_count {max = 2} {b = two} refl one_waits-Reach

timeouts_only_example :
    (s : System) × Reach 1 true two s
    × (waiting 1 s ≡ 0)
    × ((timed : Bool) → (await timed s.barrier).1 ≡ returned success)
unfolding new_barrier
timeouts_only_example = timeouts_only 2 refl
