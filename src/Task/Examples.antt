-- ===== src/Task/Examples.antt =====
-- The theorems on tasks at concrete runs.
use empool.Base.{◌≡◌, refl, ◌⊎◌, inl, ◌≢◌, true, false, ℕ_discrete, update}
use empool.Task.{
  init, running, cancelled, is_stop_state, Work, returns, throws, idle, working, stopping, run,
  run_step, new_task,
}
use empool.Task.System.{
  System, Step, advance, request, sleep, Steps, here, then_, start, requested, waiting, woken,
  notify_all,
}
use empool.Task.Cancelling.{no_lost_cancel}
use empool.Task.Running.{cancelled_never_runs}

-- Thread 5 asks for a cancel before the task is run, and sleeps.
abbrev asked : System
asked = record {
  task = record { state = init; is_request_cancel = true };
  runner = idle;
  canceller = update start.canceller 5 requested;
}

asked-Steps : Steps start asked
asked-Steps = then_ here (request 5 (inl refl))

abbrev asleep : System
asleep = record asked { canceller = update asked.canceller 5 waiting }

asleep-Steps : Steps start asleep
unfolding ℕ_discrete
asleep-Steps = then_ asked-Steps (sleep 5 (inl refl) refl)

-- `Run` finds the request and cancels the task; the notification is still to come.
abbrev stopped : System
stopped = record asleep {
  task = record { state = cancelled; is_request_cancel = true };
  runner = stopping;
}

stopped-Steps : Steps asked stopped
unfolding run_step ℕ_discrete
stopped-Steps =
    then_ (then_ (then_ here (sleep 5 (inl refl) refl)) (advance returns)) (advance returns)

stopped_from_start : Steps start stopped
unfolding run_step ℕ_discrete
stopped_from_start = then_ (then_ asleep-Steps (advance returns)) (advance returns)

no_lost_cancel_example :
    (is_stop_state stopped.task.state ≡ false)
    ⊎ ((stopped.runner ≡ stopping)
        × ((w : Work) → (t : System) × Step stopped t × (t.canceller 5 ≡ woken)))
unfolding ℕ_discrete
no_lost_cancel_example = no_lost_cancel stopped_from_start 5 refl

cancelled_never_runs_example :
    (stopped.runner ≢ working)
    × ((stopped.task.state ≡ asked.task.state) ⊎ (stopped.task.state ≡ cancelled))
cancelled_never_runs_example = cancelled_never_runs {s = asked} refl refl stopped-Steps

stopped-idle : Steps stopped (record {
  task = stopped.task;
  runner = idle;
  canceller = λ i. notify_all true stopped.canceller i;
})
unfolding run_step
stopped-idle = then_ here (advance returns)

abbrev awake : System
awake = record { task = stopped.task; runner = idle; canceller = notify_all true stopped.canceller }

awake-Steps : Steps start awake
unfolding run_step
awake-Steps = then_ stopped_from_start (advance returns)

-- A task whose work throws stays `RUNNING`.
run_throws : run throws new_task ≡ (record { state = running; is_request_cancel = false }, true)
unfolding run
run_throws = refl
