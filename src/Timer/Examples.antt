-- ===== src/Timer/Examples.antt =====
-- The theorems on timers at concrete tasks and times.
use empool.Base.{ℕ, ◌+◌, ◌≡◌, refl, ◌⊎◌, Bool, true, false, arith, ℕ_discrete, if◌then◌else◌}
use empool.Heap.{count, contents}
use empool.Heap.Scan.{scanning}
use empool.Task.{Work}
use empool.Timer.{new_timer_task}
use empool.Timer.Handler.{
  State, new_handler, do_add_cron_timer_task, do_add_cycle_timer_task, push_end, shut_down_helper,
  pass, pass_min, closed, fires, timed_wait, ends, fire,
}
use empool.Timer.Steps.{adds_cron, adds_cycle, Steps, here, then_}
use empool.Timer.Invariant.{Inv, Steps-Inv}
use empool.Timer.Requeue.{Stays, Leaves, fired_task}
use empool.Timer.Racing.{cron, asking, returned, race, alone, do_add}
use empool.Timer.Twice.{in_turn, both, added_twice}
use empool.Timer.Adding.{AddOutcome, Refuses, add_outcome}
use empool.Timer.Shutdown.{OnlyUsers, shut_down_drops}

abbrev begun : State
begun = record { tasks = λ _. new_timer_task false; handler = new_handler }

-- Task 1 is a cron task that is due at 150, task 2 a cycle task that is due at 120.
abbrev loaded : State
loaded = (do_add_cycle_timer_task 100 (do_add_cron_timer_task 100 begun 1 50).0 2 20 false).0

loaded-Steps : Steps scanning begun loaded
unfolding do_add_cron_timer_task ℕ_discrete
loaded-Steps =
    then_ (then_ here (adds_cron 100 1 50 (omega arith) (omega arith) refl))
      (adds_cycle 100 2 20 false (omega arith) (omega arith) refl)

Steps-Inv_example : Inv loaded
Steps-Inv_example = Steps-Inv loaded-Steps

sleeps_10 : pass scanning 110 loaded ≡ (loaded, timed_wait 10)
unfolding do_add_cron_timer_task do_add_cycle_timer_task pass pass_min ℕ_discrete
sleeps_10 = refl

fires_2 : (pass scanning 130 loaded).1 ≡ fires 2
unfolding do_add_cron_timer_task do_add_cycle_timer_task pass pass_min ℕ_discrete
fires_2 = refl

fired_task_example :
    Stays 130 loaded 2 (pass scanning 130 loaded).0 ⊎ Leaves loaded 2 (pass scanning 130 loaded).0
unfolding do_add_cron_timer_task do_add_cycle_timer_task pass pass_min ℕ_discrete
fired_task_example =
    fired_task scanning 130 loaded (Steps-Inv loaded-Steps) (λ y. ground arith) refl

add_outcome_example :
    AddOutcome scanning begun 1
      (100 + 50)
      (begun.tasks 1).interval
      (do_add_cron_timer_task 100 begun 1 50)
    × AddOutcome scanning begun 1
        (if true then 100 else 100 + 20)
        20
        (do_add_cycle_timer_task 100 begun 1 20 true)
add_outcome_example =
    add_outcome scanning 100 begun 1 50 20 true (omega arith) (omega arith) (omega arith)

loaded-OnlyUsers : OnlyUsers loaded
unfolding do_add_cron_timer_task do_add_cycle_timer_task ℕ_discrete
loaded-OnlyUsers x h = ground arith

shut_down_drops_example :
    let mid = (push_end false loaded 9).0 in
    let over = (shut_down_helper false false false loaded 9).0 in
    ((now : ℕ)
      → ((pass scanning now mid).1 ≡ fires 9)
        × ((w : Work) → (fire w (pass scanning now mid).0 9).1 ≡ ends))
    × ((now : ℕ) → pass scanning now over ≡ (over, closed))
    × ((x : ℕ) → Refuses over x)
    × ((now fails fails_close : Bool) (e : ℕ)
        → shut_down_helper now fails fails_close over e ≡ (over, false))
unfolding do_add_cron_timer_task do_add_cycle_timer_task ℕ_discrete
shut_down_drops_example =
    shut_down_drops scanning loaded 9 (Steps-Inv loaded-Steps) loaded-OnlyUsers refl refl refl

added_twice_example :
    (alone 5 100 (cron 50) 1 begun asking ≡ ((do_add 100 (cron 50) begun 1).0, returned true))
    × ((race 100 101 (cron 50) (cron 70) 1 in_turn (both begun)).first ≡ returned true)
    × ((race 100 101 (cron 50) (cron 70) 1 in_turn (both begun)).second ≡ returned true)
    × (count 1
          (contents (race 100 101 (cron 50) (cron 70) 1 in_turn (both begun)).state.handler.queue)
        ≡ 2 + count 1 (contents begun.handler.queue))
added_twice_example = added_twice 100 101 (cron 50) (cron 70) 1 begun refl
