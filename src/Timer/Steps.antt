-- ===== src/Timer/Steps.antt =====
-- What can happen to a handler and its tasks, in any order.
use empool.Base.{ℕ, ◌+◌, ◌^◌, ◌<◌, ◌≡◌, Bool, true, false, update}
use empool.Heap.{PopHeap, count, contents}
use empool.Task.{Work}
use empool.Timer.Handler.{
  State, do_add_cron_timer_task, do_add_cycle_timer_task, push_end, close_thread, pass, fire,
}

-- `Cancel` of task `x` makes its request.
abbrev pub request_cancel : State → ℕ → State
request_cancel s x = record s {
  tasks =
      update s.tasks x
        (record (s.tasks x) { task = record ((s.tasks x).task) { is_request_cancel = true } });
}

-- The clock has started and times do not overflow; a user adds no `EndTimerTask`, and a new task
-- has an address that is not in the queue.
pub data Step (lib : PopHeap) (s : State) : State → Type 0 where
  adds_cron :
      (now x delay : ℕ)
      → 0 < now
      → now + delay < 2 ^ 64
      → (s.tasks x).is_end ≡ false
      → Step lib s (do_add_cron_timer_task now s x delay).0
  adds_cycle :
      (now x interval : ℕ) (is_run_now : Bool)
      → 0 < now
      → now + interval < 2 ^ 64
      → (s.tasks x).is_end ≡ false
      → Step lib s (do_add_cycle_timer_task now s x interval is_run_now).0
  passes :
      (now : ℕ)
      → 0 < now
      → ((x : ℕ) → now + (s.tasks x).interval < 2 ^ 64)
      → Step lib s (pass lib now s).0
  fires : (w : Work) (x : ℕ) → Step lib s (fire w s x).0
  cancels : (x : ℕ) → Step lib s (request_cancel s x)
  pushes_end :
      (fails : Bool) (end : ℕ)
      → count end (contents s.handler.queue) ≡ 0
      → Step lib s (push_end fails s end).0
  closes : (now fails : Bool) → Step lib s (close_thread now fails s).0

pub data Steps (lib : PopHeap) (s : State) : State → Type 0 where
  here : Steps lib s s
  then_ : {t u : State} → Steps lib s t → Step lib t u → Steps lib s u
