-- ===== src/Scheduled/System.antt =====
-- Any number of threads that call one pool, access by access, beside the threads of its handlers.
use empool.Base.{
  ℕ, suc, ◌<◌, ◌≡◌, ◌⊎◌, Bool, true, false, Option, none, some, List, [], ◌∷◌, update,
  if◌then◌else◌,
}
use empool.Heap.{PopHeap}
use empool.Closeable.{compare_exchange, finished}
use empool.Task.{Work}
use empool.Timer.{Store}
use empool.Timer.Handler.{State, push_end, close_thread, pass, fire}
use empool.Timer.Steps.{request_cancel}
use empool.Timer.Racing.{Request, AddPc, asking, returned, add_step}
use empool.Scheduled.{
  stop, shutdown, Pool, new_pool, current_index, fetch_add, at_handler, with_handler, result,
}

-- Where a thread stands: outside; in a call that adds a task, past the test of
-- `m_isRequestShutDown`, or in the call of handler `i`, which began at the time `now`; with the
-- answer to such a call; in `ShutDownHelper`, before `SetState(STOP)`, before handler `k`, before
-- closing its thread, in `Close` of that thread, or before `SetState(SHUTDOWN)`; returned from it.
pub data Pc : Type 0 where
  outside : Pc
  checked : Request → (x : ℕ) → Pc
  adding : (now : ℕ) → Request → (x i : ℕ) → AddPc → Pc
  answered : Option ℕ → Pc
  stopping : (now : Bool) → Pc
  at_handler_number : (now : Bool) → (k : ℕ) → Pc
  closing joining : (now : Bool) → (k : ℕ) → Pc
  shut : (now won : Bool) → Pc

-- `dealt` records, latest first, the handlers that have been drawn.
pub record System : Type 0 where
  pub tasks : Store
  pub pool : Pool
  pub pc : ℕ → Pc
  pub dealt : List ℕ

-- Not inside a call.
abbrev pub IsIdle : Pc → Type 0
IsIdle p =
    (p ≡ outside) ⊎ ((r : Option ℕ) × (p ≡ answered r)) ⊎ ((now won : Bool) × (p ≡ shut now won))

-- The first tests of `DoAddCronTimerTask` and `DoAddCycleTimerTask`; the null pointer is `none`.
abbrev pub after_tests : Pool → Request → Option ℕ → Pc
after_tests p req none = answered none
after_tests p req (some x) = if p.is_request_shut_down then answered none else checked req x

-- `m_handlers[i]` of a system.
abbrev pub handler : System → ℕ → State
handler s i = at_handler s.tasks s.pool i

-- Handler `i` has changed.
abbrev pub put : System → ℕ → State → System
put s i h = record s { tasks = (with_handler s.pool i h).0; pool = (with_handler s.pool i h).1 }

abbrev pub go_to : System → ℕ → Pc → System
go_to s j p = record s { pc = update s.pc j p }

-- Where `ShutDownHelper` goes on after its exchange, and after handler `k` is done.
abbrev pub after_exchange : (now won : Bool) → Pc
after_exchange now won = if won then stopping now else shut now false

abbrev pub after_close : (now waits : Bool) → (k : ℕ) → Pc
after_close now waits k = if waits then joining now k else at_handler_number now (suc k)

-- What the thread of a handler does, and cancels of tasks.
pub data Turn (lib : PopHeap) (h : State) : State → Type 0 where
  passes : (now : ℕ) → Turn lib h (pass lib now h).0
  fires : (w : Work) (x : ℕ) → Turn lib h (fire w h x).0
  cancels : (x : ℕ) → Turn lib h (request_cancel h x)
  finishes : Turn lib h (record h {
    handler = record (h.handler) { thread = record (h.handler.thread) { state = finished } };
  })

-- One access. `may_fail` says whether a weak exchange may fail for no reason.
pub data Step (lib : PopHeap) (may_fail : Bool) (s : System) : System → Type 0 where
  begins :
      (j : ℕ) (req : Request) (task : Option ℕ)
      → IsIdle (s.pc j)
      → Step lib may_fail s (go_to s j (after_tests s.pool req task))
  draws :
      (j now : ℕ) (req : Request) (x : ℕ)
      → s.pc j ≡ checked req x
      → Step lib may_fail s (record s {
        pool = fetch_add s.pool;
        pc = update s.pc j (adding now req x (current_index s.pool) asking);
        dealt = current_index s.pool ∷ s.dealt;
      })
  adds :
      (j now : ℕ) (req : Request) (x i : ℕ) (p : AddPc)
      → s.pc j ≡ adding now req x i p
      → Step lib may_fail s (
          go_to
            (put s i (add_step now req x (handler s i) p).0)
            j
            (adding now req x i (add_step now req x (handler s i) p).1))
  answers :
      (j now : ℕ) (req : Request) (x i : ℕ) (taken : Bool)
      → s.pc j ≡ adding now req x i (returned taken)
      → Step lib may_fail s (go_to s j (answered (result x taken)))
  asks :
      (j : ℕ) (now fails : Bool)
      → IsIdle (s.pc j)
      → (fails ≡ true → may_fail ≡ true)
      → Step lib may_fail s (record s {
        pool = record (s.pool) {
          is_request_shut_down = (compare_exchange fails s.pool.is_request_shut_down).0;
        };
        pc =
            update s.pc j
              (after_exchange now (compare_exchange fails s.pool.is_request_shut_down).1);
      })
  stops :
      (j : ℕ) (now : Bool)
      → s.pc j ≡ stopping now
      → Step lib may_fail s (record s {
        pool = record (s.pool) { state = stop };
        pc = update s.pc j (at_handler_number now 0);
      })
  -- `ShutDownHelper` of handler `k`: a failed exchange leaves it alone.
  pushes_end :
      (j : ℕ) (now fails : Bool) (k end : ℕ)
      → s.pc j ≡ at_handler_number now k
      → k < s.pool.thread_num
      → (fails ≡ true → may_fail ≡ true)
      → Step lib may_fail s (
          go_to (put s k (push_end fails (handler s k) end).0) j (
            if (push_end fails (handler s k) end).1
            then closing now k
            else at_handler_number now (suc k)))
  closes :
      (j : ℕ) (now fails : Bool) (k : ℕ)
      → s.pc j ≡ closing now k
      → (fails ≡ true → may_fail ≡ true)
      → Step lib may_fail s (
          go_to
            (put s k (close_thread now fails (handler s k)).0)
            j
            (after_close now (close_thread now fails (handler s k)).1 k))
  joins :
      (j : ℕ) (now : Bool) (k : ℕ)
      → s.pc j ≡ joining now k
      → (s.pool.handlers k).thread.state ≡ finished
      → Step lib may_fail s (go_to s j (at_handler_number now (suc k)))
  ends :
      (j : ℕ) (now : Bool) (k : ℕ)
      → s.pc j ≡ at_handler_number now k
      → s.pool.thread_num ≡ k
      → Step lib may_fail s (record s {
        pool = record (s.pool) { state = shutdown };
        pc = update s.pc j (shut now true);
      })
  turns : (i : ℕ) {h : State} → Turn lib (handler s i) h → Step lib may_fail s (put s i h)

abbrev pub start : ℕ → Store → System
start n tasks = record { tasks = tasks; pool = new_pool n; pc = λ _. outside; dealt = [] }

pub data Reach (lib : PopHeap) (may_fail : Bool) (n : ℕ) (tasks : Store) : System → Type 0 where
  first : Reach lib may_fail n tasks (start n tasks)
  later :
      {s t : System}
      → Reach lib may_fail n tasks s
      → Step lib may_fail s t
      → Reach lib may_fail n tasks t
