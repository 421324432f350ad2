-- ===== src/Single/Examples.antt =====
-- The theorems on the pool of one thread at concrete runs.
use empool.Base.{
  one_if, length, ◌<◌, ◌≤◌, update, ◌≢◌, ℕ, ◌+◌, ◌≡◌, refl, false, true, some, ℕ_discrete, arith,
  ◌==◌, if◌then◌else◌, ◌-◌,
}
use empool.Heap.{count, contents}
use empool.Heap.Scan.{scanning}
use empool.Closeable.{born}
use empool.Lock.System.{outside, locking, testing, asleep, test}
use empool.Single.Waiting
use empool.Single.Waiting.{
  await_shut_down, notify_stop, wait_code, is_notifier, QuietSteps, second_waiter_sleeps,
}
use empool.Single.{
  get_task, priority_of, shutdown, Store, priority, do_add_task, shut_down, at, fetching,
  zero_priority, make_priority_functor_task,
}
use empool.Single.System.{System, adds, Steps, here, then_, start}
use empool.Single.Draining.{drain, Sorted, takes_in_order}
use empool.Single.Stopping.{ShutIn, shut_down_reached}

-- Task `x` has the priority `x`, but 9 has the priority -5.
abbrev tasks : Store
tasks x = make_priority_functor_task (if x == 9 then zero_priority - 5 else zero_priority + x)

-- Tasks 3 and 9 wait.
abbrev two : System
two = record {
  pool = (do_add_task tasks (do_add_task tasks (start priority).pool 3).0 9).0;
  pc = at born;
}

two-Steps : Steps scanning tasks (start priority) two
two-Steps = then_ (then_ here (adds 3)) (adds 9)

takes_in_order_example :
    ((x : ℕ)
      → (get_task scanning tasks two.pool).1 ≡ some x
      → ((y : ℕ)
          → count y (contents two.pool.task_queue_greater)
            ≡ one_if (y == x)
              + count y (contents (get_task scanning tasks two.pool).0.task_queue_greater))
        × ((y : ℕ)
            → 0 < count y (contents two.pool.task_queue_greater)
            → priority_of tasks x ≤ priority_of tasks y))
    × (let ys = drain scanning tasks (length (contents two.pool.task_queue_greater)) two.pool in
        Sorted tasks ys × ((y : ℕ) → count y ys ≡ count y (contents two.pool.task_queue_greater)))
unfolding do_add_task
takes_in_order_example = takes_in_order scanning tasks priority refl two-Steps

shut_down_reached_example :
    ShutIn scanning tasks 4 1 (shut_down false false tasks two.pool 5) fetching
unfolding do_add_task
shut_down_reached_example = shut_down_reached scanning tasks two.pool fetching 5 refl refl refl

-- Threads 1 and 2 sleep in `ShutDownNow`, and thread 0, the pool's, is about to notify.
abbrev two_wait : Waiting.State
two_wait = record {
  shared = shutdown;
  owner = some 0;
  pc =
      update (update (update (λ _. outside) 1 (asleep await_shut_down)) 2 (asleep await_shut_down))
        0 (testing (notify_stop true));
}

two_wait-others : (l : ℕ) → 0 ≢ l → is_notifier (two_wait.pc l) ≡ false
two_wait-others l ne = ground arith

second_waiter_sleeps_example :
    ((test wait_code two_wait 0 1 (notify_stop true)).pc 1 ≡ locking await_shut_down)
    × ((t : Waiting.State)
        → QuietSteps 2 (test wait_code two_wait 0 1 (notify_stop true)) t
        → t.pc 2 ≡ asleep await_shut_down)
unfolding ℕ_discrete
second_waiter_sleeps_example =
    second_waiter_sleeps two_wait 0 1 2 refl two_wait-others (λ e. absurd (omega (arith, e))) refl
      refl
