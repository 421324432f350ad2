-- ===== src/Scaling/Examples.antt =====
-- The theorems on the pool at concrete runs.
use empool.Base.{
  ◌⊎◌, update, ◌≢◌, ℕ, suc, zero, ◌+◌, ◌≤◌, ◌<◌, ◌≡◌, refl, true, false, none, [], ◌∷◌, arith,
  one_if, length, ℕ_discrete,
}
use empool.Heap.{count}
use empool.Scaling.{
  is_shut_down, has, wants_more, do_add_task, handle_worker_thread, shut_step, new_pool,
}
use empool.Scaling.Worker.{WorkerPc, absent, fetching, closing, Input, worker_step, is_counted}
use empool.Scaling.System.{
  System, acting, ended, step_worker, adds, works, monitor_checks, monitor_wakes, shuts, Steps,
  here, then_, start,
}
use empool.Lock.Atomic as Atomic
use empool.Scaling.{shutdown}
use empool.Scaling.Idle.{all_may_close}
use empool.Scaling.Waiting as Waiting
use empool.Scaling.Waiting.{notify_all_stop, await_shut_down, wait_code, all_waiters_leave}
use empool.Scaling.Invariant.{Inv}
use empool.Scaling.Always.{created, reachable-Inv}
use empool.Scaling.Stopping.{CountedOutside, shutdown_when_stopped}
use empool.Scaling.Bounds.{pass_erases}
use empool.Scaling.Hangs.{Deadlock, Deadlock-for_ever, Stuck-for_ever}

abbrev times_out : Input
times_out = record { expires = true; escapes = false; fails = false }

abbrev goes_on : Input
goes_on = record { expires = false; escapes = false; fails = false }

abbrev works_on : Input → ℕ → System → System
works_on u zero s = s
works_on u (suc n) s = step_worker u (works_on u n s) 7

abbrev shuts_on : ℕ → System → System
shuts_on zero s = s
shuts_on (suc n) s = record (shuts_on n s) {
  pool = (shut_step (λ _. false) (shuts_on n s).pool ((shuts_on n s).shut 0)).0;
  shut =
      update (shuts_on n s).shut 0
        (shut_step (λ _. false) (shuts_on n s).pool ((shuts_on n s).shut 0)).1;
}

-- One thread, 7, where none is asked for.
abbrev spare : System
spare = start 0 2 (7 ∷ [])

-- It waits in vain, closes itself, and reports its id.
waking-Steps : Steps spare (works_on times_out 7 spare)
unfolding worker_step new_pool ℕ_discrete
waking-Steps =
    then_
      (then_
        (then_
          (then_
            (then_ (then_ (then_ here (works times_out 7 refl)) (works times_out 7 refl))
              (works times_out 7 refl))
            (works times_out 7 refl))
          (works times_out 7 refl))
        (works times_out 7 refl))
      (works times_out 7 refl)

reported-Steps : Steps spare (works_on times_out 8 spare)
unfolding worker_step new_pool ℕ_discrete
reported-Steps = then_ waking-Steps (works times_out 7 refl)

reachable-Inv_example :
    let s = works_on times_out 8 spare in Inv (created s.monitor s.pool.threads) s.pool s.worker
reachable-Inv_example = reachable-Inv 0 2 (7 ∷ []) refl reported-Steps

pass_erases_example :
    let p = handle_worker_thread (works_on times_out 8 spare).pool 9 in
    (p.sub_worker_thread_id ≡ [])
    × ((y : ℕ)
        → 0 < count y (works_on times_out 8 spare).pool.sub_worker_thread_id
        → has p.threads y ≡ false)
    × (length p.threads
        ≤ length (works_on times_out 8 spare).pool.threads
          + one_if (wants_more (works_on times_out 8 spare).pool))
unfolding worker_step new_pool ℕ_discrete
pass_erases_example = pass_erases 0 2 (7 ∷ []) 9 refl reported-Steps refl (omega arith)

-- It is asked to close by `ShutDown`, and counts itself.
abbrev stopped : System
stopped = works_on goes_on 3 (shuts_on 3 spare)

stopped-Steps : Steps spare stopped
unfolding worker_step new_pool ℕ_discrete shut_step
stopped-Steps =
    then_
      (then_
        (then_
          (then_ (then_ (then_ here (shuts (λ _. false) 0 refl)) (shuts (λ _. false) 0 refl))
            (shuts (λ _. false) 0 refl))
          (works goes_on 7 refl))
        (works goes_on 7 refl))
      (works goes_on 7 refl)

shutdown_when_stopped_example :
    ((y : ℕ) → has stopped.pool.threads y ≡ true → is_counted (stopped.worker y) ≡ true)
    ⊎ CountedOutside stopped
unfolding worker_step new_pool ℕ_discrete shut_step
shutdown_when_stopped_example =
    shutdown_when_stopped 0 2 (7 ∷ []) {s = stopped} goes_on 7 refl stopped-Steps refl refl

-- The id is reported, and the monitor wakes before the worker has notified it.
abbrev caught : System
caught = record (works_on times_out 7 spare) { monitor = acting }

caught-Steps : Steps spare caught
unfolding worker_step new_pool ℕ_discrete
caught-Steps = then_ (then_ waking-Steps (monitor_checks refl)) (monitor_wakes true refl refl)

Deadlock-for_ever_example : Deadlock 7 (record caught { pool = (do_add_task caught.pool none).0 })
unfolding worker_step new_pool ℕ_discrete
Deadlock-for_ever_example =
    Deadlock-for_ever 7 {s = caught}
      (record { monitor_holds = refl; worker_waits = refl; listed = omega arith; in_map = refl })
      (then_ here (adds none))

-- The worker has reported, and the monitor ends before it erases it.
abbrev stuck : System
stuck = record (shuts_on 4 (works_on times_out 8 spare)) { monitor = ended }

stuck-Steps : Steps spare stuck
unfolding worker_step new_pool ℕ_discrete shut_step
stuck-Steps =
    then_
      (then_
        (then_
          (then_ (then_ reported-Steps (shuts (λ _. false) 0 refl)) (shuts (λ _. false) 0 refl))
          (shuts (λ _. false) 0 refl))
        (shuts (λ _. false) 0 refl))
      (monitor_checks refl)

Stuck-for_ever_example : is_shut_down (shuts_on 1 stuck).pool.state ≡ false
unfolding worker_step new_pool ℕ_discrete shut_step
Stuck-for_ever_example =
    Stuck-for_ever 0 2 (7 ∷ []) 7 {s = stuck} refl stuck-Steps
      (record { monitor_gone = refl; worker_gone = refl; in_map = refl; not_shut_down = refl })
      (then_ here (shuts (λ _. false) 0 refl))

-- The pool has one thread too many, and both wait for a task.
abbrev two_idle : System
two_idle = record (start 1 2 (7 ∷ 8 ∷ [])) {
  worker = update (update (λ _. absent) 7 fetching) 8 fetching;
}

all_may_close_example :
    (u : ℕ → WorkerPc) × Steps two_idle (record two_idle { worker = u })
    × ((i : ℕ) → i < 9 → two_idle.worker i ≡ fetching → u i ≡ closing)
unfolding new_pool
all_may_close_example = all_may_close two_idle 9 refl refl

-- Thread 1 sleeps in `ShutDownNow`, and thread 0 is the last worker.
abbrev one_awaits : Waiting.State
one_awaits = record {
  shared = shutdown;
  pc =
      update (update (λ _. Atomic.outside) 1 (Atomic.asleep await_shut_down)) 0
        (Atomic.entering (notify_all_stop true));
}

all_waiters_leave_example :
    (Atomic.perform wait_code one_awaits 0 0 (notify_all_stop true)).pc 1
    ≢ Atomic.asleep await_shut_down
unfolding ℕ_discrete
all_waiters_leave_example =
    all_waiters_leave one_awaits 0 0 refl (λ k. ground arith) refl _ Waiting.here 1
