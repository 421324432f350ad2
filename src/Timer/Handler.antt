-- ===== src/Timer/Handler.antt =====
-- src/TimerTaskHandler.cpp: one thread that runs the tasks of one queue when they are due. Times
-- are `uint64_t` milliseconds, read from the clock by the caller and handed on.
use empool.Base.{
  ℕ, ◌+◌, ◌-◌, ◌<◌, Bool, true, false, ◌&&◌, not, none, some, leb, ◌==◌, ◌≤◌, ◌≡◌, update,
  Bool-cases, inl, inr, dec_lt, arith, if◌then◌else◌,
}
use empool.Clock.{u64}
use empool.Heap.{PopHeap, PriorityQueue, empty, top}
use empool.Task.{Work, is_cancelled, run}
use empool.Closeable.{Closeable, compare_exchange, request_close, new_closeable}
use empool.Timer.{
  Store, new_timer_task, deadline_of, set_deadline, set_interval, is_interval_task, push_task,
  pop_min, pop_min_and_push,
}

pub record Handler : Type 0 where
  pub is_request_shut_down : Bool
  pub queue : PriorityQueue
  pub thread : Closeable

abbrev pub new_handler : Handler
new_handler = record { is_request_shut_down = false; queue = empty; thread = new_closeable }

-- The tasks, and the handler.
pub record State : Type 0 where
  pub tasks : Store
  pub handler : Handler

-- Whether `DoAddCronTimerTask` and `DoAddCycleTimerTask` take the task.
abbrev pub accepts : State → ℕ → Bool
accepts s x = not s.handler.thread.is_request_close && deadline_of s.tasks x == 0

-- The end of both: the task has its times, and is pushed under the lock.
abbrev pub enqueue : State → Store → ℕ → State
enqueue s tasks x = record {
  tasks = tasks;
  handler = record (s.handler) { queue = push_task tasks s.handler.queue x };
}

unfoldable pub do_add_cron_timer_task : (now : ℕ) → State → ℕ → (delay : ℕ) → State × Bool
unfolding push_task
do_add_cron_timer_task now s x delay =
    if accepts s x
    then (enqueue s (set_deadline s.tasks x (u64 (now + delay))) x, true)
    else (s, false)

unfoldable pub do_add_cycle_timer_task :
    (now : ℕ) → State → ℕ → (interval : ℕ) → (is_run_now : Bool) → State × Bool
unfolding push_task
do_add_cycle_timer_task now s x interval is_run_now =
    if accepts s x
    then (
      enqueue s
          (set_interval (set_deadline s.tasks x (if is_run_now then now else u64 (now + interval)))
            x interval)
          x,
      true,
    )
    else (s, false)

-- The first part of `ShutDownHelper`, with the address of the new `EndTimerTask` that it pushes.
-- The one whose deadline it sets is another, which it drops. `fails` is the failure of a weak
-- exchange; the flag says that the exchange was made.
unfoldable pub push_end : (fails : Bool) → State → (end : ℕ) → State × Bool
unfolding push_task
push_end fails s end =
    let (flag, won) = compare_exchange fails s.handler.is_request_shut_down in
    let tasks = update s.tasks end (new_timer_task true) in
    if won
    then (
      record {
        tasks = tasks;
        handler = record (s.handler) {
          is_request_shut_down = flag;
          queue = push_task tasks s.handler.queue end;
        };
      },
      true,
    )
    else (s, false)

-- Its second part, `Close` or `AsyncClose`; the flag says that the caller waits for the thread.
unfoldable pub close_thread : (now : Bool) → (fails : Bool) → State → State × Bool
unfolding request_close
close_thread now fails s =
    let (thread, won) = request_close fails s.handler.thread in
    (record s { handler = record (s.handler) { thread = thread } }, now && won)

-- `ShutDownHelper`.
unfoldable pub shut_down_helper :
    (now : Bool) → (fails : Bool) → (fails_close : Bool) → State → (end : ℕ) → State × Bool
unfolding push_end close_thread
shut_down_helper now fails fails_close s end =
    let (s', won) = push_end fails s end in
    if won then close_thread now fails_close s' else (s', false)

-- How one pass through the loop of `ThreadFunction` goes: it waits for a task, ends by the
-- exception of `checkFunc`, drops a cancelled task, fires a task, or waits for a deadline.
pub data Pass : Type 0 where
  waits closed dropped : Pass
  fires : ℕ → Pass
  timed_wait : ℕ → Pass

abbrev pub with_queue : State → PriorityQueue → State
with_queue s queue = record s { handler = record (s.handler) { queue = queue } }

module _ (lib : PopHeap) where
  -- The pass from `GetMin` on, for the task `x` at the root.
  unfoldable pub pass_min : (now : ℕ) → State → ℕ → State × Pass
  unfolding pop_min pop_min_and_push
  pass_min now s x =
      let popped = with_queue s (pop_min lib s.tasks s.handler.queue) in
      let tasks = set_deadline s.tasks x (u64 (now + (s.tasks x).interval)) in
      let again = record (with_queue s (pop_min_and_push lib tasks s.handler.queue)) {
        tasks = tasks;
      } in
      if is_cancelled (s.tasks x).task.state
      then (popped, dropped)
      else if (s.tasks x).task.is_request_cancel
      then (popped, fires x)
      else if leb (deadline_of s.tasks x) now
      then if is_interval_task (s.tasks x) then (again, fires x) else (popped, fires x)
      else (s, timed_wait (deadline_of s.tasks x - now))

  -- One pass, up to the unlocking of the mutex.
  unfoldable pub pass : (now : ℕ) → State → State × Pass
  unfolding pass_min
  pass now s =
      if s.handler.thread.is_request_close
      then (s, closed)
      else elim (top s.handler.queue) [ none ↦ (s, waits) | some x ↦ pass_min now s x ]

-- The five ways in which a pass can go for the task `x` at the root, with when each happens.
module _ (lib : PopHeap) (now : ℕ) (s : State) (x : ℕ) where
  abbrev pub popped : State
  popped = with_queue s (pop_min lib s.tasks s.handler.queue)

  abbrev pub renewed : Store
  renewed = set_deadline s.tasks x (u64 (now + (s.tasks x).interval))

  abbrev pub again : State
  again = record {
    tasks = renewed;
    handler = record (s.handler) { queue = pop_min_and_push lib renewed s.handler.queue };
  }

  pub data Result (r : State × Pass) : Type 0 where
    drops : is_cancelled (s.tasks x).task.state ≡ true → r ≡ (popped, dropped) → Result r
    fires_asked :
        is_cancelled (s.tasks x).task.state ≡ false
        → (s.tasks x).task.is_request_cancel ≡ true
        → r ≡ (popped, fires x)
        → Result r
    fires_again :
        is_cancelled (s.tasks x).task.state ≡ false
        → (s.tasks x).task.is_request_cancel ≡ false
        → deadline_of s.tasks x ≤ now
        → 0 < (s.tasks x).interval
        → r ≡ (again, fires x)
        → Result r
    fires_once :
        is_cancelled (s.tasks x).task.state ≡ false
        → (s.tasks x).task.is_request_cancel ≡ false
        → deadline_of s.tasks x ≤ now
        → (s.tasks x).interval ≡ 0
        → r ≡ (popped, fires x)
        → Result r
    sleeps :
        is_cancelled (s.tasks x).task.state ≡ false
        → (s.tasks x).task.is_request_cancel ≡ false
        → now < deadline_of s.tasks x
        → r ≡ (s, timed_wait (deadline_of s.tasks x - now))
        → Result r

  pub pass_min-Result : Result (pass_min lib now s x)
  unfolding pass_min
  pass_min-Result = elim (Bool-cases (is_cancelled (s.tasks x).task.state)) [
    | inl c ↦ drops c (ground arith)
    | inr c ↦ elim (Bool-cases (s.tasks x).task.is_request_cancel) [
      | inl a ↦ fires_asked c a (ground arith)
      | inr a ↦ elim (dec_lt now (deadline_of s.tasks x)) [
        | yes d ↦ sleeps c a d (ground arith)
        | no d ↦ elim (dec_lt 0 (s.tasks x).interval) [
          | yes i ↦ fires_again c a (omega arith) i (ground arith)
          | no i ↦ fires_once c a (omega arith) (omega arith) (ground arith)
        ]
      ]
    ]
  ]

-- What the thread does with a task that it fires.
pub data Fired : Type 0 where
  ends goes_on escapes : Fired

unfoldable pub fire : Work → State → ℕ → State × Fired
fire w s x =
    let (task, out) = run w (s.tasks x).task in
    if (s.tasks x).is_end then (s, ends) else (
      record s { tasks = update s.tasks x (record (s.tasks x) { task = task }) },
      if out then escapes else goes_on,
    )
