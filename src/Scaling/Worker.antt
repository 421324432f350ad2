-- ===== src/Scaling/Worker.antt =====
-- src/WorkerThread.cpp, with the finish action that the pool gives it, `NotifyWhenThreadsStop`.
use empool.Base.{ℕ, ◌+◌, Bool, true, false, List, [], ◌∷◌, leb, update, length, if◌then◌else◌}
use empool.Closeable.{request_close}
use empool.Scaling.{
  shutdown, Item, end_task, task, Pool, if_more_than, add_worker_thread_id_to_sub_vector,
}

-- Where a worker stands: not created; before the check at the top of its loop, in `PopTimeWait`,
-- before `m_judge`, before its own `AsyncClose`, before the check after it, in `Run`, or out of it
-- by an exception; in the finish action before it reads the flag, before it adds its id, before
-- its notification, before it counts itself, and before it compares the count; and after it.
pub data WorkerPc : Type 0 where
  absent checking fetching judging closing rechecking lost : WorkerPc
  executing : ℕ → WorkerPc
  leaving reporting waking counting : WorkerPc
  comparing : ℕ → WorkerPc
  reported counted : WorkerPc

-- What decides how the worker goes on: whether the wait for a task has run out, whether an
-- exception gets out of `Run` (Task.antt), and whether a weak exchange fails.
pub record Input : Type 0 where
  pub expires : Bool
  pub escapes : Bool
  pub fails : Bool

-- What the worker does with what `PopTimeWait` has left it in `m_runningTask`.
unfoldable pub take : Pool → List Item → Pool × WorkerPc
take p [] = (p, fetching)
take p (end_task ∷ rest) = (record p { queue = rest }, leaving)
take p (task x ∷ rest) = (record p { queue = rest }, executing x)

-- `NotifyWhenThreadsStop`: its first test, and the test of the count that the worker has read.
abbrev pub test_request : Pool → WorkerPc
test_request p = if p.is_request_shut_down then counting else reporting

abbrev pub test_count : Pool → (stopped_thread_num : ℕ) → Pool
test_count p stopped_thread_num =
    if leb (length p.threads) stopped_thread_num then record p { state = shutdown } else p

-- One step of worker `i`, up to its next access to what it shares.
unfoldable pub worker_step : Input → Pool → (i : ℕ) → WorkerPc → Pool × WorkerPc
unfolding take request_close
worker_step u p i absent = (p, absent)
worker_step u p i checking = (p, if (p.thread i).is_request_close then leaving else fetching)
worker_step u p i fetching = if u.expires then (p, judging) else take p p.queue
worker_step u p i judging = (p, if if_more_than p then closing else checking)
worker_step u p i closing =
    (record p { thread = update p.thread i (request_close u.fails (p.thread i)).0 }, rechecking)
worker_step u p i rechecking = (p, if (p.thread i).is_request_close then leaving else checking)
worker_step u p i lost = (p, lost)
worker_step u p i (executing x) = (p, if u.escapes then lost else checking)
worker_step u p i leaving = (p, test_request p)
worker_step u p i reporting = (add_worker_thread_id_to_sub_vector p i, waking)
worker_step u p i waking = (p, reported)
worker_step u p i counting = (
  record p { stopped_thread_num = p.stopped_thread_num + 1 },
  comparing (p.stopped_thread_num + 1),
)
worker_step u p i (comparing n) = (test_count p n, counted)
worker_step u p i reported = (p, reported)
worker_step u p i counted = (p, counted)

-- Whether the next step takes `m_addOrSubThreadNumGuard`.
abbrev pub needs_guard : WorkerPc → Bool
needs_guard judging = true
needs_guard reporting = true
needs_guard waking = true
needs_guard _ = false

abbrev pub is_counted : WorkerPc → Bool
is_counted (comparing n) = true
is_counted counted = true
is_counted _ = false

-- Created, and not past the report of its id.
abbrev pub is_live : WorkerPc → Bool
is_live absent = false
is_live reported = false
is_live _ = true
