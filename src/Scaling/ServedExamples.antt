-- ===== src/Scaling/ServedExamples.antt =====
-- The theorem on the order of tasks at a concrete run.
use empool.Base.{ℕ, ◌<◌, ◌≡◌, refl, false, some, [], ◌∷◌, ◌++◌, ℕ_discrete}
use empool.Heap.{count}
use empool.Scaling.{new_pool, do_add_task}
use empool.Scaling.Worker.{executing, Input, worker_step}
use empool.Scaling.System.{System, step_worker, adds, works, start}
use empool.Scaling.Served.{tasks_of, Served, here, then_}
use empool.Scaling.Serving.{begun_in_order}

abbrev goes_on : Input
goes_on = record { expires = false; escapes = false; fails = false }

-- Thread 7 is alone in the pool, gets two tasks, and comes to the first.
abbrev given : System
given = record (start 1 1 (7 ∷ [])) {
  pool = (do_add_task (do_add_task (start 1 1 (7 ∷ [])).pool (some 4)).0 (some 5)).0;
}

abbrev at_work : System
at_work = step_worker goes_on (step_worker goes_on given 7) 7

at_work-Served : Served (start 1 1 (7 ∷ [])) (4 ∷ 5 ∷ []) (4 ∷ []) at_work
unfolding worker_step do_add_task new_pool ℕ_discrete
at_work-Served =
    then_
      (then_ (then_ (then_ here (adds (some 4)) refl refl) (adds (some 5)) refl refl)
        (works goes_on 7 refl) refl refl)
      (works goes_on 7 refl) refl refl

runs_4 : at_work.worker 7 ≡ executing 4
unfolding worker_step do_add_task new_pool ℕ_discrete
runs_4 = refl

begun_in_order_example :
    (4 ∷ 5 ∷ [] ≡ (4 ∷ []) ++ tasks_of at_work.pool.queue)
    × ((i x : ℕ) → at_work.worker i ≡ executing x → 0 < count x (4 ∷ []))
begun_in_order_example = begun_in_order 1 1 (7 ∷ []) at_work-Served
