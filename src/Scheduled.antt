-- ===== src/Scheduled.antt =====
-- The pool of timers: src/ScheduledThreadPool.cpp. Its handlers are those of Timer.antt; they share
-- the store of the tasks. `m_index` is an `atomic_long`, which the remainder reads as a `size_t`.
pub mod Turns
pub mod Rounds
pub mod System
pub mod Dealing
pub mod Phases
pub mod Bystanders
pub mod Shutter
pub mod Closing
pub mod Stepping
pub mod Final
pub mod Moves
pub mod Ending
pub mod Shutdown
mod Examples
use empool.Base.{
  ℕ, zero, suc, ◌+◌, ◌%◌, Bool, true, false, Option, none, some, update, if◌then◌else◌,
}
use empool.Clock.{u64}
use empool.Closeable.{compare_exchange}
use empool.Timer.{Store}
use empool.Timer.Handler.{
  State, Handler, new_handler, do_add_cron_timer_task, do_add_cycle_timer_task, shut_down_helper,
}

-- `ScheduledThreadPool::State`.
pub data PoolState : Type 0 where
  init running stop shutdown : PoolState

pub record Pool : Type 0 where
  pub state : PoolState
  pub index : ℕ
  pub is_request_shut_down : Bool
  pub thread_num : ℕ
  pub handlers : ℕ → Handler

abbrev pub new_pool : ℕ → Pool
new_pool thread_num = record {
  state = running;
  index = 0;
  is_request_shut_down = false;
  thread_num = thread_num;
  handlers = λ _. new_handler;
}

-- `IsShutDown`.
abbrev pub is_shut_down : PoolState → Bool
is_shut_down shutdown = true
is_shut_down _ = false

-- `m_index.fetch_add(1)`, and what it is for.
abbrev pub current_index : Pool → ℕ
current_index p = p.index % p.thread_num

abbrev pub fetch_add : Pool → Pool
fetch_add p = record p { index = u64 (p.index + 1) }

-- One handler of the pool, with the tasks.
abbrev pub at_handler : Store → Pool → ℕ → State
at_handler tasks p i = record { tasks = tasks; handler = p.handlers i }

-- The pool and the tasks after a call of handler `i`.
abbrev pub with_handler : Pool → ℕ → State → Store × Pool
with_handler p i s = (s.tasks, record p { handlers = update p.handlers i s.handler })

-- The task that a call returns, which is null, `none`, if the handler refuses it.
abbrev pub result : ℕ → Bool → Option ℕ
result x taken = if taken then some x else none

-- `DoAddCronTimerTask`; the null pointer is `none`.
unfoldable pub do_add_cron :
    (now : ℕ) → Store → Pool → Option ℕ → (delay : ℕ) → Store × Pool × Option ℕ
do_add_cron now tasks p none delay = (tasks, p, none)
do_add_cron now tasks p (some x) delay =
    let i = current_index p in
    let (s, taken) = do_add_cron_timer_task now (at_handler tasks p i) x delay in
    let (tasks', p') = with_handler (fetch_add p) i s in
    if p.is_request_shut_down then (tasks, p, none) else (tasks', p', result x taken)

-- `DoAddCycleTimerTask`.
unfoldable pub do_add_cycle :
    (now : ℕ)
    → Store
    → Pool
    → Option ℕ
    → (period : ℕ) → (is_run_now : Bool) → Store × Pool × Option ℕ
do_add_cycle now tasks p none period is_run_now = (tasks, p, none)
do_add_cycle now tasks p (some x) period is_run_now =
    let i = current_index p in
    let (s, taken) = do_add_cycle_timer_task now (at_handler tasks p i) x period is_run_now in
    let (tasks', p') = with_handler (fetch_add p) i s in
    if p.is_request_shut_down then (tasks, p, none) else (tasks', p', result x taken)

-- The loop of `ShutDownHelper` over the first `n` handlers; `end i` is the address of the
-- `EndTimerTask` for handler `i`. `ShutDownNow` also waits for the thread of each in turn.
unfoldable pub shut_down_handlers : (now : Bool) → (end : ℕ → ℕ) → ℕ → Store → Pool → Store × Pool
unfolding shut_down_helper
shut_down_handlers now end zero tasks p = (tasks, p)
shut_down_handlers now end (suc n) tasks p =
    let (tasks', p') = shut_down_handlers now end n tasks p in
    with_handler p' n (shut_down_helper now false false (at_handler tasks' p' n) (end n)).0

-- `ShutDownHelper`; `fails` is a failure of its weak exchange, and none fails in the handlers.
unfoldable pub shut_down : (now fails : Bool) → (end : ℕ → ℕ) → Store → Pool → Store × Pool
unfolding shut_down_handlers
shut_down now fails end tasks p =
    let (flag, won) = compare_exchange fails p.is_request_shut_down in
    let (tasks', p') =
      shut_down_handlers now end p.thread_num tasks
        (record p { is_request_shut_down = flag; state = stop }) in
    if won then (tasks', record p' { state = shutdown }) else (tasks, p)
