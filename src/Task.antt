-- ===== src/Task.antt =====
-- include/empool/TaskBase.h and src/TaskBase.cpp: the life of a task, which one thread runs and
-- others may cancel. `m_stateGuard` is held inside each access to the state, so `Run` and `Cancel`
-- are broken up at their accesses to `m_state` and `m_isRequestCancel`.
pub mod System
pub mod Cancelling
pub mod Running
mod Examples
use empool.Base.{ℕ, zero, suc, Bool, true, false, ◌||◌, if◌then◌else◌}

-- `TaskBase::State`.
pub data TaskState : Type 0 where
  init running finished cancelled : TaskState

pub record Task : Type 0 where
  pub state : TaskState
  pub is_request_cancel : Bool

abbrev pub new_task : Task
new_task = record { state = init; is_request_cancel = false }

abbrev pub is_running : TaskState → Bool
is_running running = true
is_running _ = false

abbrev pub is_finished : TaskState → Bool
is_finished finished = true
is_finished _ = false

abbrev pub is_cancelled : TaskState → Bool
is_cancelled cancelled = true
is_cancelled _ = false

-- `IsStopState`, which `IsStopped` calls under the lock.
abbrev pub is_stop_state : TaskState → Bool
is_stop_state s = is_finished s || is_cancelled s

-- How the `DoRun` of a subclass goes on: it returns, it calls `CheckCancellation`, or it throws
-- some other exception.
pub data Work : Type 0 where
  returns checks throws : Work

-- Where the thread in `Run` stands: before the call or after it, before `SetState(RUNNING)`, in
-- `DoRun`, before `SetState(FINISHED)`, before `SetState(CANCELLED)`, before the notification, or
-- out of `Run` by an exception that is not a `TaskCancelException`.
pub data RunPc : Type 0 where
  idle started working ended caught stopping escaped : RunPc

-- `CheckCancellation` at its two call sites: it throws if a cancel is requested.
check_cancellation : Task → RunPc → RunPc
check_cancellation t passed = if t.is_request_cancel then caught else passed

-- One step of `Run`, up to its next access to what it shares.
unfoldable pub run_step : Work → Task → RunPc → Task × RunPc
unfolding check_cancellation
run_step w t idle = (t, check_cancellation t started)
run_step w t started = (record t { state = running }, working)
run_step returns t working = (t, ended)
run_step checks t working = (t, check_cancellation t working)
run_step throws t working = (t, escaped)
run_step w t ended = (record t { state = finished }, stopping)
run_step w t caught = (record t { state = cancelled }, stopping)
run_step w t stopping = (t, idle)
run_step w t escaped = (t, check_cancellation t started)

-- `Run` as one call, when no other thread comes between; the flag says that an exception got out.
run_work : Work → Task → Task × Bool
run_work throws t = (t, true)
run_work _ t = (record t { state = finished }, false)

unfoldable pub run : Work → Task → Task × Bool
unfolding run_work
run w t =
    if t.is_request_cancel
    then (record t { state = cancelled }, false)
    else run_work w (record t { state = running })
