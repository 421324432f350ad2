-- ===== src/Single.antt =====
-- The pool of one thread: include/empool/SingleThreadPool.h and src/SingleThreadPool.cpp. Tasks
-- are addresses in a store. A priority is a `long`, which is modelled by its value plus 2^63; in
-- the modes FIFO and LIFO it is the time at which the task is added, in seconds.
pub mod System
pub mod Order
pub mod Draining
pub mod Adding
pub mod Stopping
pub mod Waiting
mod Examples
use empool.Base.{
  ℕ, zero, suc, ◌+◌, ◌^◌, Bool, true, false, not, Option, none, some, List, [], ◌∷◌, update,
  if◌then◌else◌,
}
use empool.Heap.{PopHeap, PriorityQueue, empty, heap, is_empty, top, push, pop}
use empool.Heap.Least.{by_key}
use empool.Closeable.{
  Closeable, new_closeable, compare_exchange, request_close, ThreadPc, working, leaving, lost,
  checks, thread_step,
}

-- `SingleThreadPool::State`.
pub data PoolState : Type 0 where
  init running stop shutdown : PoolState

pub data RunMode : Type 0 where
  fifo lifo priority : RunMode

-- `is_end` tells an `EndPriorityTask`, whose priority is the `long` 0.
pub record PriorityTask : Type 0 where
  pub priority_value : ℕ
  pub is_end : Bool

abbrev pub Store : Type 0
Store = ℕ → PriorityTask

-- The `long` 0.
abbrev pub zero_priority : ℕ
zero_priority = 2 ^ 63

-- `MakePriorityFunctorTask`.
abbrev pub make_priority_functor_task : ℕ → PriorityTask
make_priority_functor_task value = record { priority_value = value; is_end = false }

-- `GetPriorityValue`.
abbrev pub priority_of : Store → ℕ → ℕ
priority_of tasks x = (tasks x).priority_value

-- `CompareFuncGreater` and `CompareFuncLesser`.
abbrev pub compare_func_greater : Store → ℕ → ℕ → Bool
compare_func_greater tasks = by_key (priority_of tasks)

abbrev pub compare_func_lesser : Store → ℕ → ℕ → Bool
compare_func_lesser tasks left right = not (compare_func_greater tasks left right)

pub record Pool : Type 0 where
  pub state : PoolState
  pub run_mode : RunMode
  pub is_request_shut_down : Bool
  pub task_queue_greater : PriorityQueue
  pub task_queue_lesser : PriorityQueue
  pub thread : Closeable

abbrev pub new_pool : RunMode → Pool
new_pool mode = record {
  state = running;
  run_mode = mode;
  is_request_shut_down = false;
  task_queue_greater = empty;
  task_queue_lesser = empty;
  thread = new_closeable;
}

-- `m_runMode == LIFO`.
abbrev pub is_lifo : RunMode → Bool
is_lifo lifo = true
is_lifo _ = false

-- `IsShutDown`.
abbrev pub is_shut_down : PoolState → Bool
is_shut_down shutdown = true
is_shut_down _ = false

-- `Empty`.
abbrev pub is_idle : Pool → Bool
is_idle p =
    if is_lifo p.run_mode then is_empty p.task_queue_lesser else is_empty p.task_queue_greater

-- `PushTask`, which also notifies the thread.
unfoldable pub push_task : Store → Pool → ℕ → Pool
unfolding push
push_task tasks p x =
    if is_lifo p.run_mode
    then record p { task_queue_lesser = push (compare_func_lesser tasks) p.task_queue_lesser x }
    else record p { task_queue_greater = push (compare_func_greater tasks) p.task_queue_greater x }

-- `DoAddTask`; the null pointer is `none`.
unfoldable pub do_add_task : Store → Pool → ℕ → Pool × Option ℕ
unfolding push_task
do_add_task tasks p x = if p.is_request_shut_down then (p, none) else (push_task tasks p x, some x)

-- `AddTask` without a priority takes the time in seconds for it, as a `long`.
abbrev pub add_task : Store → Pool → ℕ → (time_in_seconds : ℕ) → Store × Pool × Option ℕ
add_task tasks p x time_in_seconds =
    let tasks' = update tasks x (make_priority_functor_task (zero_priority + time_in_seconds)) in
    let (p', result) = do_add_task tasks' p x in (tasks', p', result)

-- `GetTask`, `none` where it waits.
unfoldable pub get_task : PopHeap → Store → Pool → Pool × Option ℕ
unfolding pop
get_task lib tasks p =
    if is_lifo p.run_mode
    then (
      record p { task_queue_lesser = pop lib (compare_func_lesser tasks) p.task_queue_lesser },
      top p.task_queue_lesser,
    )
    else (
      record p { task_queue_greater = pop lib (compare_func_greater tasks) p.task_queue_greater },
      top p.task_queue_greater,
    )

-- `ShutDown`, with the address of the new `EndPriorityTask`, which the store has; `fails` and
-- `fails_close` are failures of the weak exchanges of the flag and in `AsyncClose`.
unfoldable pub shut_down : (fails fails_close : Bool) → Store → Pool → (end : ℕ) → Pool
unfolding push_task request_close
shut_down fails fails_close tasks p end =
    let (flag, won) = compare_exchange fails p.is_request_shut_down in
    if won
    then push_task tasks
        (record p {
          is_request_shut_down = flag;
          state = stop;
          thread = (request_close fails_close p.thread).0;
        })
        end
    else p

-- Where the thread stands: in `CloseableThread` or at the top of its loop (`working`), in `GetTask`,
-- or in `Run` of a task.
pub data Pc : Type 0 where
  at : ThreadPc → Pc
  fetching : Pc
  executing : ℕ → Pc

-- What the thread does with what `GetTask` returned.
abbrev pub dispatch : Store → Option ℕ → Pc
dispatch tasks none = fetching
dispatch tasks (some x) = if (tasks x).is_end then at leaving else executing x

-- The thread outside `ThreadFunction` of the pool; its finish action is `NotifyWhenThreadStop`.
abbrev pub outer_step : Pool → ThreadPc → Pool × Pc
outer_step p leaving = (
  record p { state = shutdown; thread = (thread_step checks p.thread leaving).0 },
  at (thread_step checks p.thread leaving).1,
)
outer_step p pc = (
  record p { thread = (thread_step checks p.thread pc).0 },
  at (thread_step checks p.thread pc).1,
)

-- One step of the thread; `escapes` says whether an exception gets out of `Run`. The check at the
-- top of the loop goes on to `GetTask` unless a close is requested.
unfoldable pub step : PopHeap → (escapes : Bool) → Store → Pool → Pc → Pool × Pc
unfolding get_task thread_step
step lib escapes tasks p (at working) =
    (p, if p.thread.is_request_close then at leaving else fetching)
step lib escapes tasks p (at pc) = outer_step p pc
step lib escapes tasks p fetching = let (p', x) = get_task lib tasks p in (p', dispatch tasks x)
step lib escapes tasks p (executing x) = (p, if escapes then at lost else at working)
