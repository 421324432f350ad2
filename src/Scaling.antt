-- ===== src/Scaling.antt =====
-- The pool of a varying number of threads: src/ScalingThreadPool.cpp and src/WorkerThread.cpp, and
-- src/FixedThreadPool.cpp, which is this pool with equal bounds. `m_threads` is the list of the
-- ids that it holds, whose closeable threads are in `thread`. The task queue is that of
-- Queue.antt; what a task does when it runs is in Task.antt, and a task is its address here.
pub mod Census
pub mod Worker
pub mod System
pub mod Invariant
pub mod Preserved
pub mod Monitor
pub mod Always
pub mod Stopping
pub mod Unchanged
pub mod Bounds
pub mod Hangs
pub mod Idle
pub mod Fixed
pub mod Lifelong
pub mod Callers
pub mod Lasting
pub mod Marking
pub mod Leaving
pub mod Moving
pub mod Ending
pub mod Served
pub mod Serving
pub mod Waiting
mod ServedExamples
mod EndingExamples
mod Examples
use empool.Base.{
  ℕ, zero, suc, ◌+◌, Bool, true, false, ◌&&◌, ◌||◌, not, Option, none, some, List, [], ◌∷◌, ◌++◌,
  ltb, update, length, if◌then◌else◌,
}
use empool.Heap.{count}
use empool.Closeable.{Closeable, new_closeable, request_close, compare_exchange}
use empool.Queue.{push, size, is_empty}

-- `ScalingThreadPool::State`.
pub data PoolState : Type 0 where
  init running stop shutdown : PoolState

-- A task, or an `EndTask`.
pub data Item : Type 0 where
  end_task : Item
  task : ℕ → Item

pub record Pool : Type 0 where
  pub state : PoolState
  pub core_pool_size : ℕ
  pub max_thread_size : ℕ
  pub stopped_thread_num : ℕ
  pub is_request_shut_down : Bool
  pub queue : List Item
  pub threads : List ℕ
  pub sub_worker_thread_id : List ℕ
  pub thread : ℕ → Closeable
  pub monitor_thread : Closeable

-- `TASK_QUEUE_SIZE_THRESHOLD`.
abbrev pub task_queue_size_threshold : ℕ
task_queue_size_threshold = 1024

-- `IsShutDown`.
abbrev pub is_shut_down : PoolState → Bool
is_shut_down shutdown = true
is_shut_down _ = false

-- Whether the map has the id.
abbrev pub has : List ℕ → ℕ → Bool
has threads id = ltb 0 (count id threads)

-- `std::unordered_map::insert` and `erase`, on the keys.
abbrev pub insert : List ℕ → ℕ → List ℕ
insert threads id = if has threads id then threads else id ∷ threads

unfoldable pub erase : List ℕ → ℕ → List ℕ
erase [] id = []
erase (x ∷ xs) id = let rest = erase xs id in if ltb 0 (count id (x ∷ [])) then xs else x ∷ rest

abbrev pub get_thread_num : Pool → ℕ
get_thread_num p = length p.threads

abbrev pub if_more_than : Pool → Bool
if_more_than p = ltb p.core_pool_size (get_thread_num p)

-- Whether `HandleWorkerThread` adds a thread.
abbrev pub wants_more : Pool → Bool
wants_more p =
    ltb task_queue_size_threshold (size p.queue) && ltb (length p.threads) p.max_thread_size

abbrev pub judge_func : Pool → Bool
judge_func p = wants_more p || not (is_empty p.sub_worker_thread_id)

-- The push of `DoAddTask`.
abbrev pub push_task : Pool → ℕ → Pool
push_task p x = record p { queue = (push p.queue (task x)).0 }

-- `DoAddTask`; a null pointer is `none`.
unfoldable pub do_add_task : Pool → Option ℕ → Pool × Option ℕ
unfolding push
do_add_task p none = (p, none)
do_add_task p (some x) = if p.is_request_shut_down then (p, none) else (push_task p x, some x)

-- `AddWorkerThread`, with the id of the new thread: it makes the thread, which begins to run, and
-- then puts it into the map.
abbrev pub create_worker_thread : Pool → ℕ → Pool
create_worker_thread p id = record p { thread = update p.thread id new_closeable }

abbrev pub insert_worker_thread : Pool → ℕ → Pool
insert_worker_thread p id = record p { threads = insert p.threads id }

abbrev pub add_worker_thread : Pool → ℕ → Pool
add_worker_thread p id = insert_worker_thread (create_worker_thread p id) id

-- `SubWorkerThread`.
abbrev pub sub_worker_thread : Pool → ℕ → Pool × Bool
sub_worker_thread p id =
    if has p.threads id then (record p { threads = erase p.threads id }, true) else (p, false)

abbrev pub add_worker_thread_id_to_sub_vector : Pool → ℕ → Pool
add_worker_thread_id_to_sub_vector p id = record p {
  sub_worker_thread_id = p.sub_worker_thread_id ++ id ∷ [];
}

-- The constructor: `ids` are those of the first `minThreadSize` threads.
unfoldable pub insert_all : List ℕ → List ℕ → List ℕ
insert_all threads [] = threads
insert_all threads (id ∷ ids) = insert_all (insert threads id) ids

unfoldable pub new_pool : ℕ → ℕ → List ℕ → Pool
unfolding insert_all
new_pool min_thread_size max_thread_size ids = record {
  state = running;
  core_pool_size = min_thread_size;
  max_thread_size = max_thread_size;
  stopped_thread_num = 0;
  is_request_shut_down = false;
  queue = [];
  threads = insert_all [] ids;
  sub_worker_thread_id = [];
  thread = λ _. new_closeable;
  monitor_thread = new_closeable;
}

-- `FixedThreadPool`, which hands every other call on.
abbrev pub new_fixed_pool : ℕ → List ℕ → Pool
new_fixed_pool thread_num ids = new_pool thread_num thread_num ids

-- The loop over `m_subWorkerThreadId` in `HandleWorkerThread`.
unfoldable pub sub_worker_threads : Pool → List ℕ → Pool
sub_worker_threads p [] = p
sub_worker_threads p (id ∷ ids) = sub_worker_threads (sub_worker_thread p id).0 ids

-- The second part of a pass: erases the threads that the vector names.
unfoldable pub sub_vector : Pool → Pool
unfolding sub_worker_threads
sub_vector p =
    if is_empty p.sub_worker_thread_id
    then p
    else record (sub_worker_threads p p.sub_worker_thread_id) { sub_worker_thread_id = [] }

-- One pass of `HandleWorkerThread` after its second check; `id` is that of the thread that it may
-- create.
unfoldable pub handle_worker_thread : Pool → (id : ℕ) → Pool
unfolding sub_vector
handle_worker_thread p id = sub_vector (if wants_more p then add_worker_thread p id else p)

-- The two loops of `ShutDown`; `fails` says for which threads the weak exchange fails.
unfoldable pub close_all : (fails : ℕ → Bool) → List ℕ → (ℕ → Closeable) → ℕ → Closeable
unfolding request_close
close_all fails [] thread = thread
close_all fails (id ∷ ids) thread =
    close_all fails ids (update thread id (request_close (fails id) (thread id)).0)

unfoldable pub push_ends : ℕ → List Item → List Item
unfolding push
push_ends zero queue = queue
push_ends (suc n) queue = push_ends n (push queue end_task).0

-- Where the caller of `ShutDown` stands: before the call, before `SetState(STOP)`, before its
-- loops, before the `AsyncClose` of the monitor, before it adds the id 0, or returned and free to call
-- again.
pub data ShutPc : Type 0 where
  outside setting stopping asking adding returned : ShutPc

-- One step of `ShutDown`, up to its next access to what it shares.
unfoldable pub shut_step : (fails : ℕ → Bool) → Pool → ShutPc → Pool × ShutPc
unfolding close_all push_ends request_close
shut_step fails p outside =
    let (flag, won) = compare_exchange (fails 0) p.is_request_shut_down in
    (record p { is_request_shut_down = flag }, if won then setting else returned)
shut_step fails p setting = (record p { state = stop }, stopping)
shut_step fails p stopping = (
  record p {
    thread = close_all fails p.threads p.thread;
    queue = push_ends (length p.threads) p.queue;
  },
  asking,
)
shut_step fails p asking =
    (record p { monitor_thread = (request_close (fails 0) p.monitor_thread).0 }, adding)
shut_step fails p adding = (add_worker_thread_id_to_sub_vector p 0, returned)
shut_step fails p returned = (p, outside)
