-- ===== src/Scaling/System.antt =====
-- The pool with its workers, its monitor, and any number of threads that shut it down.
use empool.Base.{ℕ, ◌<◌, ◌≡◌, Bool, true, false, ◌&&◌, ◌||◌, Option, List, update, if◌then◌else◌}
use empool.Heap.{count}
use empool.Scaling.{
  Pool, new_pool, judge_func, wants_more, has, do_add_task, push_task, create_worker_thread,
  insert_worker_thread, sub_vector, ShutPc, outside, stopping, adding, shut_step,
}
use empool.Scaling.Worker.{WorkerPc, absent, checking, reported, Input, worker_step, needs_guard}

-- Where the monitor stands: before its first check, in its timed wait, past its second check with
-- the guard taken, in `AddWorkerThread` with the new thread not in the map yet, past it, or at its
-- end.
pub data MonitorPc : Type 0 where
  top waiting acting erasing ended : MonitorPc
  inserting : (id : ℕ) → MonitorPc

pub record System : Type 0 where
  pub pool : Pool
  pub worker : ℕ → WorkerPc
  pub monitor : MonitorPc
  pub shut : ℕ → ShutPc

-- The monitor keeps `m_addOrSubThreadNumGuard` from the end of its wait to the end of its pass.
abbrev pub holds_guard : MonitorPc → Bool
holds_guard acting = true
holds_guard (inserting id) = true
holds_guard erasing = true
holds_guard _ = false

abbrev pub shut_needs_guard : ShutPc → Bool
shut_needs_guard stopping = true
shut_needs_guard adding = true
shut_needs_guard _ = false

abbrev pub step_worker : Input → System → ℕ → System
step_worker u s i = record s {
  pool = (worker_step u s.pool i (s.worker i)).0;
  worker = update s.worker i (worker_step u s.pool i (s.worker i)).1;
}

abbrev pub monitor_check : System → MonitorPc → MonitorPc
monitor_check s passed = if s.pool.monitor_thread.is_request_close then ended else passed

-- The threads of the map that these ids name have come to their end.
abbrev pub NoneToAwait : List ℕ → Pool → (ℕ → WorkerPc) → Type 0
NoneToAwait ids p worker = (y : ℕ) → 0 < count y ids → has p.threads y ≡ true → worker y ≡ reported

pub data Step (s : System) : System → Type 0 where
  adds : (x : Option ℕ) → Step s (record s { pool = (do_add_task s.pool x).0 })
  -- A call whose test of the flag was made earlier, maybe before a `ShutDown`, comes to its push.
  pushes_late : (x : ℕ) → Step s (record s { pool = push_task s.pool x })
  works :
      (u : Input) (i : ℕ)
      → needs_guard (s.worker i) && holds_guard s.monitor ≡ false
      → Step s (step_worker u s i)
  monitor_checks : s.monitor ≡ top → Step s (record s { monitor = monitor_check s waiting })
  -- Its wait ends when `JudgeFunc` holds, or its time has run out.
  monitor_wakes :
      (expires : Bool)
      → expires || judge_func s.pool ≡ true
      → s.monitor ≡ waiting
      → Step s (record s { monitor = monitor_check s acting })
  -- A new thread has an id that no other has had, and that is not 0. It runs before it is in the
  -- map.
  monitor_creates :
      (id : ℕ)
      → s.monitor ≡ acting
      → wants_more s.pool ≡ true
      → s.worker id ≡ absent
      → 0 < id
      → Step s (record s {
        pool = create_worker_thread s.pool id;
        worker = update s.worker id checking;
        monitor = inserting id;
      })
  monitor_inserts :
      (id : ℕ)
      → s.monitor ≡ inserting id
      → Step s (record s { pool = insert_worker_thread s.pool id; monitor = erasing })
  -- The rest of the pass, with a new thread and without. Erasing a worker joins its thread, which
  -- must have come to its end.
  monitor_erases :
      s.monitor ≡ erasing
      → NoneToAwait s.pool.sub_worker_thread_id s.pool s.worker
      → Step s (record s { pool = sub_vector s.pool; monitor = top })
  monitor_acts :
      s.monitor ≡ acting
      → wants_more s.pool ≡ false
      → NoneToAwait s.pool.sub_worker_thread_id s.pool s.worker
      → Step s (record s { pool = sub_vector s.pool; monitor = top })
  shuts :
      (fails : ℕ → Bool) (j : ℕ)
      → shut_needs_guard (s.shut j) && holds_guard s.monitor ≡ false
      → Step s (record s {
        pool = (shut_step fails s.pool (s.shut j)).0;
        shut = update s.shut j (shut_step fails s.pool (s.shut j)).1;
      })

pub data Steps (s : System) : System → Type 0 where
  here : Steps s s
  then_ : {t u : System} → Steps s t → Step t u → Steps s u

-- The pool at the end of its constructor, with `ids` the ids of its threads.
abbrev pub start : ℕ → ℕ → List ℕ → System
start min_thread_size max_thread_size ids = record {
  pool = new_pool min_thread_size max_thread_size ids;
  worker = λ i. if has ids i then checking else absent;
  monitor = top;
  shut = λ j. outside;
}
