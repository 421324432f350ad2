-- ===== src/Timer/Sleeper.antt =====
-- The thread of a handler with its waits in `ThreadFunction` of src/TimerTaskHandler.cpp, beside the
-- calls that add tasks, cancel them and shut the handler down.
use empool.Base.{ℕ, ◌*◌, ◌||◌, update, ◌+◌, ◌^◌, ◌<◌, ◌≡◌, Bool, true, false, if◌then◌else◌}
use empool.Heap.{PopHeap, count, contents}
use empool.Task.{Work}
use empool.Closeable.{compare_exchange}
use empool.Timer.{Store, new_timer_task, push_task, deadline_of}
use empool.Timer.Handler.{
  State, new_handler, close_thread, pass, Pass, waits, closed, dropped, fires, timed_wait, fire,
  Fired, ends, goes_on, escapes,
}
use empool.Timer.Steps.{request_cancel}
use empool.Timer.Racing.{Request, add_step, AddPc, pushing}

-- Where the thread stands: before its next pass, in `Wait`, in a `TimedWait` up to the microsecond
-- `time`, before the task that it fires, or out of its loop. `late` is how much later, in microseconds,
-- `TimeWait` has read the clock than the pass has, which keeps whole milliseconds only.
pub data Rest : Type 0 where
  awake asleep over : Rest
  asleep_until : (time late : ℕ) → Rest
  busy : (x : ℕ) → Rest

-- `shutting` says that a thread is in `ShutDownHelper`, past its exchange and before its push.
pub record System : Type 0 where
  pub state : State
  pub rest : Rest
  pub shutting : Bool

-- `m_cond.Notify` of `PushTask`.
abbrev pub wake : Rest → Rest
wake asleep = awake
wake (asleep_until time late) = awake
wake r = r

abbrev pub wake_if : Bool → Rest → Rest
wake_if b r = if b then wake r else r

-- Where a pass at the time `now` leaves the thread.
abbrev pub after_pass : (now late : ℕ) → Pass → Rest
after_pass now late waits = asleep
after_pass now late closed = over
after_pass now late dropped = awake
after_pass now late (fires x) = busy x
after_pass now late (timed_wait delay) = asleep_until (1000 * (now + delay) + late) late

abbrev pub after_fire : Fired → Rest
after_fire ends = over
after_fire goes_on = awake
after_fire escapes = over

abbrev pub is_pushing : AddPc → Bool
is_pushing pushing = true
is_pushing _ = false

-- The exchange of `ShutDownHelper`, and its push of an `EndTimerTask` with the address `end`.
abbrev pub exchange : (fails : Bool) → System → System
exchange fails s = record s {
  state = record (s.state) {
    handler = record (s.state.handler) {
      is_request_shut_down = (compare_exchange fails s.state.handler.is_request_shut_down).0;
    };
  };
  shutting = (compare_exchange fails s.state.handler.is_request_shut_down).1 || s.shutting;
}

abbrev pub with_end : Store → ℕ → Store
with_end tasks end = update tasks end (new_timer_task true)

abbrev pub push_end_task : System → ℕ → System
push_end_task s end = record {
  state = record {
    tasks = with_end s.state.tasks end;
    handler = record (s.state.handler) {
      queue = push_task (with_end s.state.tasks end) s.state.handler.queue end;
    };
  };
  rest = wake s.rest;
  shutting = false;
}

-- The clock has started and times do not overflow. A call may add a task at any time, one access
-- after the other, with other calls between; but only one call adds each task, and no user has
-- an `EndTimerTask`. `AsyncClose` comes after the push of `ShutDownHelper`.
pub data Step (lib : PopHeap) (s : System) : System → Type 0 where
  adds :
      (now : ℕ) (req : Request) (x : ℕ) (p : AddPc)
      → (s.state.tasks x).is_end ≡ false
      → count x (contents s.state.handler.queue) ≡ 0
      → (p ≡ pushing → 0 < deadline_of s.state.tasks x)
      → Step lib s (record {
        state = (add_step now req x s.state p).0;
        rest = wake_if (is_pushing p) s.rest;
        shutting = s.shutting;
      })
  passes :
      (now late : ℕ)
      → s.rest ≡ awake
      → 0 < now
      → ((x : ℕ) → now + (s.state.tasks x).interval < 2 ^ 64)
      → Step lib s (record {
        state = (pass lib now s.state).0;
        rest = after_pass now late (pass lib now s.state).1;
        shutting = s.shutting;
      })
  runs :
      (w : Work) (x : ℕ)
      → s.rest ≡ busy x
      → Step lib s
          (record s { state = (fire w s.state x).0; rest = after_fire (fire w s.state x).1 })
  -- A wait that ends for no reason.
  stirs : Step lib s (record s { rest = wake s.rest })
  expires :
      (time late : ℕ) → s.rest ≡ asleep_until time late → Step lib s (record s { rest = awake })
  cancels :
      (x : ℕ)
      → (s.state.tasks x).is_end ≡ false
      → Step lib s (record s { state = request_cancel s.state x })
  exchanges : (fails : Bool) → Step lib s (exchange fails s)
  pushes_end :
      (end : ℕ)
      → s.shutting ≡ true
      → count end (contents s.state.handler.queue) ≡ 0
      → Step lib s (push_end_task s end)
  asks_close :
      (now fails : Bool)
      → s.state.handler.is_request_shut_down ≡ true
      → s.shutting ≡ false
      → Step lib s (record s { state = (close_thread now fails s.state).0 })

abbrev pub start : Store → System
start tasks = record {
  state = record { tasks = tasks; handler = new_handler };
  rest = awake;
  shutting = false;
}

pub data Reach (lib : PopHeap) (tasks : Store) : System → Type 0 where
  first : Reach lib tasks (start tasks)
  later : {s t : System} → Reach lib tasks s → Step lib s t → Reach lib tasks t
