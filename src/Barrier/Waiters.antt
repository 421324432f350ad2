-- ===== src/Barrier/Waiters.antt =====
-- What a thread that waits at the barrier can rely on.
use empool.Base.{ℕ, ◌≤◌, ◌<◌, ◌≡◌, ◌⊎◌, Bool, true, arith}
use empool.Barrier.{
  Barrier, broken, success, Ticket, asleep, woken, returned, is_current, await, await_loop, reset,
}
use empool.Barrier.System.{System, Reach}
use empool.Barrier.Invariant.{Reach-Inv}

-- No wake-up is lost: in every reachable state of a barrier that starts with a count from 1 to its
-- maximum, a thread that sleeps holds the ticket of the running generation.
no_lost_wakeup :
    {n : ℕ} {m : Bool} {b : Barrier} {s : System}
    → 0 < b.count
    → b.count ≤ b.max_count
    → Reach n m b s
    → (i : ℕ) (timed : Bool) (t : Ticket) → s.pc i ≡ asleep timed t
    → is_current s.barrier t ≡ true
no_lost_wakeup pos le r i timed t e = ground (arith, (Reach-Inv pos le r).fresh i)

-- What a thread finds that tests its `while` again in a reachable state: it sleeps on exactly if
-- its generation still runs; it returns success exactly if there was no reset since it came and
-- the barrier has tripped since; it returns broken exactly if there was a reset since it came.
wait_outcome :
    {n : ℕ} {m : Bool} {b : Barrier} {s : System}
    → 0 < b.count
    → b.count ≤ b.max_count
    → Reach n m b s
    → (i : ℕ) (timed : Bool) (t : Ticket) → s.pc i ≡ woken timed t
    → ((await_loop timed s.barrier t ≡ asleep timed t)
        × (t.current_reset_index ≡ s.barrier.reset_index)
        × (t.current_barrier_cond ≡ s.barrier.barrier_cond))
      ⊎ ((await_loop timed s.barrier t ≡ returned success)
          × (t.current_reset_index ≡ s.barrier.reset_index)
          × (t.current_barrier_cond < s.barrier.barrier_cond))
      ⊎ ((await_loop timed s.barrier t ≡ returned broken)
          × (t.current_reset_index < s.barrier.reset_index))
unfolding await_loop
wait_outcome {s} pos le r i timed t e = ground (arith, (Reach-Inv pos le r).fresh i)

-- When the last thread of a generation calls `Await`, or `Reset` is called, no thread sleeps on,
-- and a thread that slept finds that its generation has ended: as a success after the last call,
-- and as broken after the reset.
pub all_released :
    {n : ℕ} {m : Bool} {b : Barrier} {s : System}
    → 0 < b.count
    → b.count ≤ b.max_count
    → Reach n m b s
    → (i : ℕ) (timed : Bool) (t : Ticket) → s.pc i ≡ asleep timed t
    → (s.barrier.count ≡ 1
        → (later : Bool)
        → (await_loop timed (await later s.barrier).0 t ≡ returned success)
          × ((await later s.barrier).1 ≡ returned success)
          × ((await later s.barrier).2 ≡ true))
      × (await_loop timed (reset s.barrier) t ≡ returned broken)
unfolding await await_loop reset
all_released {s} pos le r i timed t e = (
  λ last later. ground (arith, (Reach-Inv pos le r).fresh i),
  ground (arith, (Reach-Inv pos le r).fresh i),
)
