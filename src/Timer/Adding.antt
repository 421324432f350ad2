-- ===== src/Timer/Adding.antt =====
-- How a handler takes tasks.
use empool.Base.{
  ℕ, ◌+◌, ◌^◌, ◌<◌, ◌≡◌, refl, ◌⊎◌, inl, inr, Bool, true, false, arith, one_if, ◌==◌, if_elim,
  if◌then◌else◌,
}
use empool.Heap.{PopHeap, count, contents}
use empool.Timer.Steps.{Steps}
use empool.Timer.Refusing.{Dated, Steps-Dated}
use empool.Heap.Least.{by_key, count-push}
use empool.Timer.{Store, deadline_of, push_task}
use empool.Timer.Handler.{State, accepts, enqueue, do_add_cron_timer_task, do_add_cycle_timer_task}

-- Task `x` was taken, with these times.
abbrev pub Taken : State → ℕ → (deadline : ℕ) → (interval : ℕ) → State → Type 0
Taken s x deadline interval t =
    (deadline_of t.tasks x ≡ deadline)
    × ((t.tasks x).interval ≡ interval)
    × ((y : ℕ) → ¬ (x ≡ y) → t.tasks y ≡ s.tasks y)
    × ((y : ℕ)
        → count y (contents t.handler.queue) ≡ one_if (y == x) + count y (contents s.handler.queue))

-- Neither way of adding task `x` does anything.
abbrev pub Refuses : State → ℕ → Type 0
Refuses t x =
    (now time : ℕ) (run_now : Bool)
    → (do_add_cron_timer_task now t x time ≡ (t, false))
      × (do_add_cycle_timer_task now t x time run_now ≡ (t, false))

-- Task `x` is refused after any steps of the handler, as long as there is no `EndTimerTask` at its
-- address.
abbrev pub StaysRefused : PopHeap → ℕ → State → Type 0
StaysRefused lib x s = (t : State) → Steps lib s t → (t.tasks x).is_end ≡ false → Refuses t x

-- A call that adds task `x` succeeds exactly if the thread is not asked to close and the task has
-- never been taken, and after that the task is refused; a call that fails changes nothing.
abbrev pub AddOutcome :
    PopHeap → State → ℕ → (deadline : ℕ) → (interval : ℕ) → State × Bool → Type 0
AddOutcome lib s x deadline interval r =
    ((r.1 ≡ true)
      × (s.handler.thread.is_request_close ≡ false)
      × (deadline_of s.tasks x ≡ 0)
      × Taken s x deadline interval r.0
      × StaysRefused lib x r.0)
    ⊎ ((r ≡ (s, false))
        × ((s.handler.thread.is_request_close ≡ true) ⊎ (0 < deadline_of s.tasks x)))

Refuses-dated : (t : State) (x : ℕ) → 0 < deadline_of t.tasks x → Refuses t x
unfolding do_add_cron_timer_task do_add_cycle_timer_task
Refuses-dated t x h now time run_now = (ground arith, ground arith)

stays : (lib : PopHeap) (x : ℕ) {s : State} → Dated x s → StaysRefused lib x s
stays lib x d t r user = Refuses-dated t x (Steps-Dated lib x r d user)

enqueue-Taken :
    (s : State) (tasks : Store) (x deadline interval : ℕ)
    → deadline_of tasks x ≡ deadline
    → (tasks x).interval ≡ interval
    → ((y : ℕ) → ¬ (x ≡ y) → tasks y ≡ s.tasks y)
    → Taken s x deadline interval (enqueue s tasks x)
unfolding push_task
enqueue-Taken s tasks x deadline interval d i same =
    (d, i, same, count-push (by_key (deadline_of tasks)) s.handler.queue x)

-- `AddCronTimerTask`: a task that is taken is due after the delay.
add_cron_outcome :
    (lib : PopHeap) (now : ℕ) (s : State) (x delay : ℕ)
    → 0 < now
    → now + delay < 2 ^ 64
    → AddOutcome lib s x (now + delay) (s.tasks x).interval (do_add_cron_timer_task now s x delay)
unfolding do_add_cron_timer_task
add_cron_outcome lib now s x delay pos fits =
    if_elim (AddOutcome lib s x (now + delay) (s.tasks x).interval) (accepts s x)
      (λ ok. inl (
        refl,
        ground arith,
        ground arith,
        enqueue-Taken s _ x _ _ (ground arith) (ground arith) (λ y ne. ground arith),
        stays lib x (λ k. ground arith),
      ))
      (λ not_ok. inr (refl, ground arith))

-- `AddCycleTimerTask`: a task that is taken is due at once or after one interval, as is asked.
add_cycle_outcome :
    (lib : PopHeap) (now : ℕ) (s : State) (x interval : ℕ) (run_now : Bool)
    → 0 < now
    → now + interval < 2 ^ 64
    → AddOutcome lib s x
        (if run_now then now else now + interval)
        interval
        (do_add_cycle_timer_task now s x interval run_now)
unfolding do_add_cycle_timer_task
add_cycle_outcome lib now s x interval run_now pos fits =
    if_elim (AddOutcome lib s x (if run_now then now else now + interval) interval) (accepts s x)
      (λ ok. inl (
        refl,
        ground arith,
        ground arith,
        enqueue-Taken s _ x _ _ (ground arith) (ground arith) (λ y ne. ground arith),
        stays lib x (λ k. ground arith),
      ))
      (λ not_ok. inr (refl, ground arith))

-- Both ways of adding a task, when no other call of the handler comes between the accesses of the
-- call. Each succeeds exactly if the thread is not asked to close and the task has never been taken;
-- a call that fails changes nothing. A task that is taken is in the queue once more, and such calls
-- refuse it after any steps of the handler, as long as there is no `EndTimerTask` at its address; it is
-- due after the delay with `AddCronTimerTask`, and with `AddCycleTimerTask` at once or after one
-- interval, as is asked. The clock has started, and times do not overflow.
pub add_outcome :
    (lib : PopHeap) (now : ℕ) (s : State) (x delay interval : ℕ) (run_now : Bool)
    → 0 < now
    → now + delay < 2 ^ 64
    → now + interval < 2 ^ 64
    → AddOutcome lib s x (now + delay) (s.tasks x).interval (do_add_cron_timer_task now s x delay)
      × AddOutcome lib s x
          (if run_now then now else now + interval)
          interval
          (do_add_cycle_timer_task now s x interval run_now)
add_outcome lib now s x delay interval run_now pos fits_delay fits_interval = (
  add_cron_outcome lib now s x delay pos fits_delay,
  add_cycle_outcome lib now s x interval run_now pos fits_interval,
)
