-- ===== src/Barrier.antt =====
-- include/empool/CyclicBarrier.h and src/CyclicBarrier.cpp: a barrier for `m_max_count` threads.
-- Each call holds `m_mutex` except while it waits, so what a call does between two waits is one
-- function on the barrier. The `int` generation counters are incremented only below their largest
-- value, since signed overflow is undefined.
pub mod System
pub mod Invariant
pub mod Waiters
pub mod Accounting
pub mod Attendance
mod Examples
use empool.Base.{
  ℕ, ◌+◌, ◌-◌, ◌^◌, ◌<◌, Bool, true, false, ◌&&◌, Option, none, some, ◌==◌, ltb, if◌then◌else◌,
}

-- `enum State`, the results of `Await`.
pub data Outcome : Type 0 where
  broken timeout success : Outcome

pub record Barrier : Type 0 where
  pub max_count : ℕ
  pub count : ℕ
  pub reset_index : ℕ
  pub barrier_cond : ℕ

abbrev pub int_max : ℕ
int_max = 2 ^ 31 - 1

-- The constructor, `none` where its assertion fails.
pub new_barrier : ℕ → Option Barrier
new_barrier count =
    if ltb 0 count
    then some (record { max_count = count; count = count; reset_index = 0; barrier_cond = 0 })
    else none

-- `current_reset_index` and `current_barrier_cond`, the locals of a call that waits.
pub record Ticket : Type 0 where
  pub current_reset_index : ℕ
  pub current_barrier_cond : ℕ

-- Where a thread stands. A call is `timed` if it is `Await(time_ms)`.
pub data Pc : Type 0 where
  outside : Pc
  asleep : (timed : Bool) → Ticket → Pc
  woken : (timed : Bool) → Ticket → Pc
  expired : Ticket → Pc
  returned : Outcome → Pc

-- The test of the `while` in `Await`.
abbrev pub is_current : Barrier → Ticket → Bool
is_current b t =
    (t.current_barrier_cond == b.barrier_cond) && (t.current_reset_index == b.reset_index)

-- From the test of the `while` on: wait again, or leave the loop and return.
unfoldable pub await_loop : Bool → Barrier → Ticket → Pc
await_loop timed b t =
    if is_current b t
    then asleep timed t
    else if t.current_reset_index == b.reset_index
    then returned success
    else returned broken

-- `Await` from its entry up to its return or its first wait, and whether it notifies all.
unfoldable pub await : Bool → Barrier → Barrier × Pc × Bool
unfolding await_loop
await timed b =
    let c = record b { count = b.count - 1 } in
    if c.count == 0
    then (
      record c { count = c.max_count; barrier_cond = c.barrier_cond + 1 },
      returned success,
      true,
    )
    else (
      c,
      await_loop timed c
          (record { current_reset_index = c.reset_index; current_barrier_cond = c.barrier_cond }),
      false,
    )

-- `Reset`, which notifies all.
unfoldable pub reset : Barrier → Barrier
reset b = record b { count = b.max_count; reset_index = b.reset_index + 1 }
