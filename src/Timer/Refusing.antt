-- ===== src/Timer/Refusing.antt =====
-- A task that a handler has taken is refused from then on: its deadline, in src/TimerTask.cpp, is
-- never 0 again.
use empool.Base.{ℕ, ◌+◌, ◌^◌, ◌<◌, ◌≡◌, false, arith}
use empool.Heap.{PopHeap}
use empool.Timer.{deadline_of}
use empool.Timer.Handler.{
  State, do_add_cron_timer_task, do_add_cycle_timer_task, push_end, close_thread, pass, fire, drops,
  fires_asked, fires_again, fires_once, sleeps,
}
use empool.Timer.Firing.{stops, idles, goes, pass-Cases}
use empool.Timer.Steps.{
  Step, adds_cron, adds_cycle, passes, fires, cancels, pushes_end, closes, Steps, here, then_,
}

-- Task `x`, unless it is an `EndTimerTask`, has a deadline.
abbrev pub Dated : ℕ → State → Type 0
Dated x s = (s.tasks x).is_end ≡ false → 0 < deadline_of s.tasks x

passes-Dated :
    (lib : PopHeap) (now x : ℕ) (s : State)
    → 0 < now
    → ((y : ℕ) → now + (s.tasks y).interval < 2 ^ 64)
    → Dated x s
    → Dated x (pass lib now s).0
passes-Dated lib now x s pos fits v = elim (pass-Cases lib now s) [
  | stops c e ↦ rw e v
  | idles c q e ↦ rw e v
  | goes r rest c q res ↦ elim res [
    | drops c e ↦ rw e v
    | fires_asked c a e ↦ rw e v
    | fires_again c a d i e ↦ rw e (λ k. ground (arith, fits r, v))
    | fires_once c a d i e ↦ rw e v
    | sleeps c a d e ↦ rw e v
  ]
]

Step-Dated : (lib : PopHeap) (x : ℕ) {s t : State} → Step lib s t → Dated x s → Dated x t
unfolding do_add_cron_timer_task do_add_cycle_timer_task fire push_end close_thread
Step-Dated lib x {s} (adds_cron now y delay pos fits user) v = λ k. ground (arith, v)
Step-Dated lib x {s} (adds_cycle now y interval run_now pos fits user) v = λ k. ground (arith, v)
Step-Dated lib x {s} (passes now pos fits) v = passes-Dated lib now x s pos fits v
Step-Dated lib x {s} (fires w y) v = λ k. ground (arith, v)
Step-Dated lib x {s} (cancels y) v = λ k. ground (arith, v)
Step-Dated lib x {s} (pushes_end fails end absent) v = λ k. ground (arith, v)
Step-Dated lib x (closes now fails) v = v

pub Steps-Dated : (lib : PopHeap) (x : ℕ) {s t : State} → Steps lib s t → Dated x s → Dated x t
Steps-Dated lib x here v = v
Steps-Dated lib x (then_ r st) v = Step-Dated lib x st (Steps-Dated lib x r v)
