-- ===== src/Functor/Timed.antt =====
-- A function that is handed to a handler of timers, from the call of `AddCronTimerTask` to its end.
use empool.Base.{
  ℕ, ◌+◌, ◌-◌, ◌^◌, ◌≤◌, ◌<◌, ◌≡◌, refl, ◌∙◌, ap, Bool, false, Option, none, some, [], arith,
  update, if◌then◌else◌, Bool-cases, inl, inr, update-at,
}
use empool.Clock.{u64}
use empool.Heap.{PopHeap, empty, heap}
use empool.Task.{running, finished, new_task}
use empool.Timer.{new_timer_task, set_deadline, push_task, pop_min}
use empool.Timer.Handler.{
  State, with_queue, do_add_cron_timer_task, do_add_cycle_timer_task, pass, pass_min, timed_wait,
  waits, fires, fire, goes_on, escapes,
}
use empool.Functor.{Func, timer_task, make_functor_task, work_of, run_object}

-- `AddCronTimerTask` and `AddCycleTimerTask` of a function; `x` is the address of the new task.
abbrev pub with_new_task : State → ℕ → State
with_new_task s x = record s { tasks = update s.tasks x (new_timer_task false) }

unfoldable pub add_cron_function : (now : ℕ) → State → (x delay_in_ms : ℕ) → State × Option ℕ
unfolding do_add_cron_timer_task
add_cron_function now s x delay_in_ms =
    let (s', taken) = do_add_cron_timer_task now (with_new_task s x) x delay_in_ms in
    (s', if taken then some x else none)

unfoldable pub add_cycle_function :
    (now : ℕ) → State → (x interval_in_ms : ℕ) → (is_run_now : Bool) → State × Option ℕ
unfolding do_add_cycle_timer_task
add_cycle_function now s x interval_in_ms is_run_now =
    let (s', taken) = do_add_cycle_timer_task now (with_new_task s x) x interval_in_ms is_run_now in
    (s', if taken then some x else none)

-- A handler whose queue is the new task alone.
module _ (now : ℕ) (s : State) (x delay_in_ms : ℕ) where
  abbrev pub loaded : State
  loaded = record {
    tasks = set_deadline (with_new_task s x).tasks x (u64 (now + delay_in_ms));
    handler = record (s.handler) { queue = heap x [] };
  }

  loaded-task :
      now + delay_in_ms < 2 ^ 64
      → loaded.tasks x ≡ record (new_timer_task false) { deadline = now + delay_in_ms }
  loaded-task fits = ground (arith, update-at s.tasks x (new_timer_task false))

  added :
      s.handler.queue ≡ empty
      → s.handler.thread.is_request_close ≡ false
      → add_cron_function now s x delay_in_ms ≡ (loaded, some x)
  unfolding add_cron_function do_add_cron_timer_task push_task
  added none_ open_ = ground (arith, none_, open_, update-at s.tasks x (new_timer_task false))

  module _ (lib : PopHeap) (t : ℕ) where
    loaded_waits :
        s.handler.thread.is_request_close ≡ false
        → now + delay_in_ms < 2 ^ 64
        → t < now + delay_in_ms
        → pass lib t loaded ≡ (loaded, timed_wait (now + delay_in_ms - t))
    unfolding pass pass_min
    loaded_waits open_ fits early =
        ground (
          arith,
          open_,
          ap (λ k. k.deadline) (loaded-task fits),
          ap (λ k. k.task) (loaded-task fits),
        )

    loaded_fires :
        s.handler.thread.is_request_close ≡ false
        → now + delay_in_ms < 2 ^ 64
        → now + delay_in_ms ≤ t
        → pass lib t loaded ≡ (with_queue loaded empty, fires x)
    unfolding pass pass_min pop_min
    loaded_fires open_ fits due = ground (
      arith,
      open_,
      ap (λ k. k.deadline) (loaded-task fits),
      ap (λ k. k.interval) (loaded-task fits),
      ap (λ k. k.task) (loaded-task fits),
    )

-- What the thread of the handler does with the task once it fires it.
module _ {ℓ} {S : Type ℓ} (f : Func S) (now : ℕ) (s : State) (x delay_in_ms : ℕ) where
  abbrev fired : State
  fired = with_queue (loaded now s x delay_in_ms) empty

  fired-run :
      (st : S)
      → now + delay_in_ms < 2 ^ 64
      → run_object (make_functor_task timer_task f) (fired.tasks x).task st
        ≡ (record new_task { state = if (f st).1 then running else finished }, (f st).0, (f st).1)
  unfolding run_object
  fired-run st fits = elim (Bool-cases (f st).1) [
    | inl e ↦ ground (arith, e, ap (λ k. k.task) (loaded-task now s x delay_in_ms fits))
    | inr e ↦ ground (arith, e, ap (λ k. k.task) (loaded-task now s x delay_in_ms fits))
  ]

  fired-fire :
      (st : S)
      → now + delay_in_ms < 2 ^ 64
      → ((fire (work_of (f st)) fired x).1 ≡ (if (f st).1 then escapes else goes_on))
        × (((fire (work_of (f st)) fired x).0.tasks x).task
            ≡ (run_object (make_functor_task timer_task f) (fired.tasks x).task st).0)
        × ((fire (work_of (f st)) fired x).0.handler ≡ fired.handler)
  unfolding fire run_object
  fired-fire st fits = elim (Bool-cases (f st).1) [
    | inl e ↦ (ground (arith, e, user, task), ground (arith, e, user, task), ground (arith, user))
    | inr e ↦ (ground (arith, e, user, task), ground (arith, e, user, task), ground (arith, user))
  ]
    where
      user : (fired.tasks x).is_end ≡ false
      user = ap (λ k. k.is_end) (loaded-task now s x delay_in_ms fits)

      task : (fired.tasks x).task ≡ new_task
      task = ap (λ k. k.task) (loaded-task now s x delay_in_ms fits)

pass-empty :
    (lib : PopHeap) (now : ℕ) (s : State)
    → s.handler.queue ≡ empty
    → s.handler.thread.is_request_close ≡ false
    → pass lib now s ≡ (s, waits)
unfolding pass
pass-empty lib now s none_ open_ = ground (arith, none_, open_)

-- A function that is handed to an idle handler with a delay is run once, when the delay is over, if
-- the handler is not asked to close. The call returns a task; a pass before the deadline waits for
-- what is left of the delay, and changes nothing; a pass at the deadline or later takes the
-- task out of the queue and fires it: `Run` calls the function once, and leaves the task
-- FINISHED, or RUNNING if the function throws, when the exception leaves the loop of the thread; the
-- next pass finds the queue empty.
pub function_runs_once {ℓ} :
    {S : Type ℓ} (lib : PopHeap) (f : Func S) (st : S) (now : ℕ) (s : State) (x delay_in_ms : ℕ)
    → now + delay_in_ms < 2 ^ 64
    → s.handler.queue ≡ empty
    → s.handler.thread.is_request_close ≡ false
    → let (s₁, task) = add_cron_function now s x delay_in_ms in
      (task ≡ some x)
      × ((t : ℕ) → t < now + delay_in_ms → pass lib t s₁ ≡ (s₁, timed_wait (now + delay_in_ms - t)))
      × ((t : ℕ)
          → now + delay_in_ms ≤ t
          → let (s₂, how) = pass lib t s₁ in
            let (s₃, out) = fire (work_of (f st)) s₂ x in
            (how ≡ fires x)
            × (run_object (make_functor_task timer_task f) (s₂.tasks x).task st ≡ (
              record new_task { state = if (f st).1 then running else finished },
              (f st).0,
              (f st).1,
            ))
            × ((s₃.tasks x).task
                ≡ (run_object (make_functor_task timer_task f) (s₂.tasks x).task st).0)
            × (out ≡ (if (f st).1 then escapes else goes_on))
            × ((later : ℕ) → pass lib later s₃ ≡ (s₃, waits)))
function_runs_once lib f st now s x delay_in_ms fits none_ open_ =
    let (out, state, same) = fired-fire f now s x delay_in_ms st fits in
    rw (added now s x delay_in_ms none_ open_) (
      refl,
      λ t early. loaded_waits now s x delay_in_ms lib t open_ fits early,
      λ t due. rw (loaded_fires now s x delay_in_ms lib t open_ fits due) (
        refl,
        fired-run f now s x delay_in_ms st fits,
        state,
        out,
        λ later.
            pass-empty lib later (fire (work_of (f st)) (fired f now s x delay_in_ms) x).0
              (ap (λ h. h.queue) same) (ap (λ h. h.thread.is_request_close) same ∙ open_),
      ),
    )
