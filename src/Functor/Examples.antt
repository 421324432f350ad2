-- ===== src/Functor/Examples.antt =====
-- The theorem on functions at a concrete run.
use empool.Base.{ℕ, ◌+◌, ◌-◌, ◌≤◌, ◌<◌, ◌≡◌, refl, false, some, arith, if◌then◌else◌}
use empool.Heap.Scan.{scanning}
use empool.Task.{running, finished, new_task}
use empool.Timer.{new_timer_task}
use empool.Timer.Handler.{
  State, new_handler, pass, timed_wait, waits, fires, fire, goes_on, escapes,
}
use empool.Functor.{Func, timer_task, make_functor_task, work_of, run_object}
use empool.Functor.Timed.{add_cron_function, function_runs_once}

abbrev idle : State
idle = record { tasks = λ _. new_timer_task false; handler = new_handler }

-- A function that counts.
abbrev count_up : Func ℕ
count_up n = (n + 1, false)

function_runs_once_example :
    let (s₁, task) = add_cron_function 100 idle 5 50 in
    (task ≡ some 5)
    × ((t : ℕ) → t < 100 + 50 → pass scanning t s₁ ≡ (s₁, timed_wait (100 + 50 - t)))
    × ((t : ℕ)
        → 100 + 50 ≤ t
        → let (s₂, how) = pass scanning t s₁ in
          let (s₃, out) = fire (work_of (count_up 7)) s₂ 5 in
          (how ≡ fires 5)
          × (run_object (make_functor_task timer_task count_up) (s₂.tasks 5).task 7 ≡ (
            record new_task { state = if (count_up 7).1 then running else finished },
            (count_up 7).0,
            (count_up 7).1,
          ))
          × ((s₃.tasks 5).task
              ≡ (run_object (make_functor_task timer_task count_up) (s₂.tasks 5).task 7).0)
          × (out ≡ (if (count_up 7).1 then escapes else goes_on))
          × ((later : ℕ) → pass scanning later s₃ ≡ (s₃, waits)))
function_runs_once_example =
    function_runs_once scanning count_up 7 100 idle 5 50 (omega arith) refl refl
