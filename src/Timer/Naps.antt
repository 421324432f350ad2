-- ===== src/Timer/Naps.antt =====
-- The theorem on the waits of a handler's thread at a concrete run.
use empool.Base.{◌*◌, ◌+◌, ℕ, ◌≤◌, ◌<◌, ◌≡◌, refl, ◌⊎◌, true, false, arith, ℕ_discrete}
use empool.Heap.{empty, count, contents}
use empool.Heap.Scan.{scanning}
use empool.Task.{Work}
use empool.Timer.{Store, new_timer_task, deadline_of}
use empool.Timer.Handler.{pass, pass_min, closed, fires, ends, fire}
use empool.Timer.Racing.{cron, add_step, dating, pushing}
use empool.Timer.Sleeper.{
  awake, asleep, asleep_until, System, after_pass, adds, passes, start, Reach, first, later,
}
use empool.Timer.Oversleeping.{never_oversleeps}

abbrev tasks : Store
tasks x = new_timer_task false

-- A call has dated task 1 for 150.
abbrev dated : System
dated = record (start tasks) { state = (add_step 100 (cron 50) 1 (start tasks).state dating).0 }

-- The call has pushed it.
abbrev added : System
added = record dated { state = (add_step 100 (cron 50) 1 dated.state pushing).0; rest = awake }

-- The thread has made a pass at 110, and read the clock again 1.3 milliseconds later.
abbrev napping : System
napping = record added {
  state = (pass scanning 110 added.state).0;
  rest = after_pass 110 1300 (pass scanning 110 added.state).1;
}

napping-Reach : Reach scanning tasks napping
unfolding add_step ℕ_discrete
napping-Reach =
    later
      (later (later first (adds 100 (cron 50) 1 dating refl refl (λ e. ground (arith, e))))
        (adds 100 (cron 50) 1 pushing refl refl (λ e. omega arith)))
      (passes 110 1300 refl (omega arith) (λ x. ground arith))

naps_until_150 : napping.rest ≡ asleep_until 151300 1300
unfolding add_step pass pass_min ℕ_discrete
naps_until_150 = refl

never_oversleeps_example :
    (napping.rest ≡ asleep
      → (napping.state.handler.queue ≡ empty)
        × (napping.state.handler.is_request_shut_down ≡ true → napping.shutting ≡ true))
    × ((time late : ℕ)
        → napping.rest ≡ asleep_until time late
        → ((x : ℕ)
            → 0 < count x (contents napping.state.handler.queue)
            → time ≤ 1000 * deadline_of napping.state.tasks x + late)
          × (napping.state.handler.is_request_shut_down ≡ true → napping.shutting ≡ true))
    × (napping.state.handler.is_request_shut_down ≡ true
        → napping.shutting ≡ false
        → napping.rest ≡ awake
        → (now : ℕ) → 0 < now
        → ((pass scanning now napping.state).1 ≡ closed)
          ⊎ ((x : ℕ) × ((pass scanning now napping.state).1 ≡ fires x)
              × ((w : Work) → (fire w (pass scanning now napping.state).0 x).1 ≡ ends)))
never_oversleeps_example = never_oversleeps scanning napping-Reach
