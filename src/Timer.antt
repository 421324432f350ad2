-- ===== src/Timer.antt =====
-- Timers: include/empool/TimerTask.h, src/TimerTask.cpp, src/TimerTaskQueue.cpp, and in the child
-- modules src/TimerTaskHandler.cpp. Tasks are shared, so they live in a store, and a queue holds
-- their addresses. A deadline of 0 marks a task that no handler has taken yet.
pub mod Handler
pub mod Steps
pub mod Invariant
pub mod Firing
pub mod Requeue
pub mod Refusing
pub mod Adding
pub mod Racing
pub mod Twice
pub mod Sleeper
pub mod Alert
pub mod Waking
pub mod Kept
pub mod Oversleeping
pub mod Shutdown
mod Clearing
mod Naps
mod Examples
use empool.Base.{
  ℕ, zero, suc, ◌+◌, ◌<◌, Bool, true, false, Option, none, some, List, [], ◌∷◌, ltb, update, length,
}
use empool.Heap.{PopHeap, PriorityQueue, empty, heap, contents, is_empty, top, push, pop}
use empool.Heap.Least.{by_key}
use empool.Task.{Task, new_task}

-- `is_end` tells an `EndTimerTask`.
pub record TimerTask : Type 0 where
  pub deadline : ℕ
  pub interval : ℕ
  pub is_end : Bool
  pub task : Task

abbrev pub Store : Type 0
Store = ℕ → TimerTask

-- A new `TimerTask`, and a new `EndTimerTask`.
abbrev pub new_timer_task : Bool → TimerTask
new_timer_task is_end = record { deadline = 0; interval = 0; is_end = is_end; task = new_task }

-- `GetDeadline`.
abbrev pub deadline_of : Store → ℕ → ℕ
deadline_of tasks x = (tasks x).deadline

abbrev pub set_deadline : Store → ℕ → ℕ → Store
set_deadline tasks x deadline = update tasks x (record (tasks x) { deadline = deadline })

abbrev pub set_interval : Store → ℕ → ℕ → Store
set_interval tasks x interval = update tasks x (record (tasks x) { interval = interval })

abbrev pub is_interval_task : TimerTask → Bool
is_interval_task t = ltb 0 t.interval

-- `CompareTimerTask`.
abbrev pub compare_timer_task : Store → ℕ → ℕ → Bool
compare_timer_task tasks = by_key (deadline_of tasks)

-- `GetMin`, `none` where its assertion fails.
abbrev pub get_min : PriorityQueue → Option ℕ
get_min queue = top queue

-- `PushTask`, which also notifies the thread of the handler.
unfoldable pub push_task : Store → PriorityQueue → ℕ → PriorityQueue
unfolding push
push_task tasks queue x = push (compare_timer_task tasks) queue x

module _ (lib : PopHeap) where
  -- What `PopMin` leaves; it is called on a queue that is not empty.
  unfoldable pub pop_min : Store → PriorityQueue → PriorityQueue
  unfolding pop
  pop_min tasks queue = pop lib (compare_timer_task tasks) queue

  -- `PopMinAndPush`: the deadline of the task at the root may have changed.
  unfoldable pub pop_min_and_push : Store → PriorityQueue → PriorityQueue
  unfolding push_task pop_min
  pop_min_and_push tasks empty = empty
  pop_min_and_push tasks (heap t rest) = push_task tasks (pop_min tasks (heap t rest)) t

  -- The loop of `Clear`, with fuel.
  clear_loop : ℕ → Store → PriorityQueue → Option PriorityQueue
  clear_loop zero tasks queue = none
  clear_loop (suc fuel) tasks empty = some empty
  clear_loop (suc fuel) tasks (heap t rest) = clear_loop fuel tasks (pop_min tasks (heap t rest))

  unfoldable pub clear : Store → PriorityQueue → Option PriorityQueue
  unfolding clear_loop
  clear tasks queue = clear_loop (length (contents queue) + 1) tasks queue
