-- ===== src/Lib.antt =====
-- The thread pools of Empool, a C++ library on POSIX threads, modelled and verified.
--
-- The program. Four pools run tasks on threads. `ScalingThreadPool` (src/ScalingThreadPool.cpp)
-- keeps a map of `WorkerThread`s (src/WorkerThread.cpp), which read one `BlockingTaskQueue`, and a
-- monitor thread, which adds workers when many tasks wait and erases those that closed themselves;
-- `FixedThreadPool` is such a pool with equal sizes. `SingleThreadPool` (src/SingleThreadPool.cpp)
-- has one thread and a priority queue. `ScheduledThreadPool` (src/ScheduledThreadPool.cpp) deals
-- timed tasks out to `TimerTaskHandler`s (src/TimerTaskHandler.cpp), each a thread with a queue by
-- deadline. Every such thread is a `CloseableThread` (src/CloseableThread.cpp), every task a
-- `TaskBase` (src/TaskBase.cpp), and `CyclicBarrier` (src/CyclicBarrier.cpp) is a part of its own.
--
-- The files. Each module has the names of the source in antt's spelling, with one function for each
-- operation, and in its child modules a step relation for the threads that call it, what holds in
-- every reachable state, and runs in `Examples`.
--   Base       Boolean tests, lists over the native numbers, families of threads.
--   Clock      src/Util.cpp, `GetCurrentTime` and `ConditionVariable::TimeWait`
--              (src/ConditionVariable.cpp): the arithmetic of times.
--   Lock       src/Mutex.cpp, src/ConditionVariable.cpp and the lockers of
--              include/empool/ConditionVariable.h: Lock/System has threads that run sections, one
--              statement at a time, and Lock/Atomic the same threads with each section in one step,
--              which is the view that the other modules take; Lock/Refinement relates the two, and
--              Lock/Mutex has the operations of `Mutex`.
--   Thread     include/empool/Thread.h, src/Thread.cpp, `Tid` of include/empool/System.h, and
--              `CloseableThread::Init`: `construct`, `init`, and in Thread/System the thread that
--              creates, asks and destroys beside the thread that is created; Thread/Locals has the
--              cached id of src/System.cpp and its string.
--   Future     include/empool/FutureTask.h, as sections of Lock: `code` gives that of each call.
--   Queue      include/empool/BlockingQueue.h and src/BlockingTaskQueue.cpp: `push`, `read` for the
--              six reading calls, `size`; Queue/Sections has the calls as sections of Lock, statement by
--              statement, and Queue/Refinement relates them to Queue/System.
--   Spinning   src/NoBlockingTaskQueue.cpp, over any `boost::lockfree::queue` that does what is
--              documented, the record `LockfreeQueue`: `push_task`, `pop_task`.
--   Heap       `std::priority_queue`, over any `std::pop_heap` that does what is documented: the
--              record `PopHeap`, which `Heap.Scan.scanning` fills.
--   Task       src/TaskBase.cpp: `run_step` is `Run` up to its next access to what it shares, `run`
--              the whole call; `Cancel` is part of the step relation.
--   Closeable  src/CloseableThread.cpp: `thread_step` is `ThreadFunction` with `NotifyFinished`,
--              `request_close` is `AsyncClose` and the first half of `Close`.
--   Barrier    src/CyclicBarrier.cpp: `await`, `await_loop`, `reset`.
--   Timer      src/TimerTask.cpp, src/TimerTaskQueue.cpp, and in Timer/Handler
--              src/TimerTaskHandler.cpp: `pass` is one pass of `ThreadFunction`, `fire` what it does
--              with a task, `do_add_cron_timer_task`, `do_add_cycle_timer_task`,
--              `shut_down_helper`; Timer/Racing breaks an addition up at its accesses to shared state,
--              and Timer/Sleeper has these beside the thread, its waits and its notifications.
--   Functor    include/empool/FunctorTask.h, the functor tasks and end tasks beside it, and
--              include/empool/FunctorFutureTask.h: `do_run`, `run_object`; Functor/Timed has the calls
--              of a handler that take a function.
--   Scheduled  src/ScheduledThreadPool.cpp, over Timer; Scheduled/System has threads in calls of
--              the pool, access by access, beside the threads of its handlers.
--   Single     src/SingleThreadPool.cpp and include/empool/SingleThreadPool.h, over Heap and
--              Closeable: `push_task`, `get_task`, `step` for the thread, `shut_down`;
--              Single/Waiting has the wait of `ShutDownNow` as a section of Lock.
--   Scaling    src/ScalingThreadPool.cpp, in Scaling/Fixed, until it is shut down, and from Scaling/Lasting
--              to Scaling/Ending, for its whole life, src/FixedThreadPool.cpp, in Scaling/Worker
--              src/WorkerThread.cpp: `handle_worker_thread` is a pass of the monitor, which
--              Scaling/System divides where the new thread begins to run, `worker_step` a step of
--              a worker with `NotifyWhenThreadsStop`, `shut_step` a step of `ShutDown`;
--              Scaling/Served has runs with the tasks that are added and begun, and
--              Scaling/Waiting has the wait of `ShutDownNow` as a section of Lock.
--
-- How it is modelled. Shared objects live in a store and are named by numbers. What a mutex protects
-- is one step; what is done without it is a step by itself, so that other threads come between. A
-- condition variable wakes a waiter when it is notified, and also for no reason. A weak
-- compare-exchange may fail for no reason: `fails` says so. The clock, and what a task does, are
-- arguments. Times and the index of `ScheduledThreadPool` wrap at 2 ^ 64 as written; a priority, a
-- `long`, is its value plus 2 ^ 63. `Timer.clear` runs on the length of the queue plus one as fuel,
-- `Thread.init` and `Spinning.pop_task` on fuel that exceeds the number of attempts that fail, and
-- `Thread.Locals.digits` on ten places, which an `int` does not exceed;
-- the other loops are recursion on a list, or one step each.
--
-- What is not modelled. The pthread calls are taken as POSIX documents them: the step relations of
-- Lock and Thread say what they do. Printing, and include/empool/ThreadPoolManager.h, which only
-- constructs pools, are left out. In Timer/Steps a call that adds a task is one step. So are, in
-- Timer/Steps and Scheduled/System, the exchange of a handler's `ShutDownHelper` and its push, which
-- Timer/Sleeper has as two, and in Scaling/System the loops of `ShutDown` over threads and end tasks,
-- and the monitor's loop over its vector of ids. The number that ScheduledThreadPool draws for a task
-- fits into an `int`: there are at most 2 ^ 31 handlers. The work of a thread in Thread/System throws
-- no exception of its own. The counters of a barrier stay below the largest `int`. That the ids of
-- threads are not 0 and are not used again while the pool lives is what the system gives.
pub mod Base
pub mod Clock
pub mod Lock
pub mod Thread
pub mod Future
pub mod Barrier
pub mod Task
pub mod Closeable
pub mod Queue
pub mod Spinning
pub mod Heap
pub mod Timer
pub mod Functor
pub mod Scheduled
pub mod Single
pub mod Scaling
