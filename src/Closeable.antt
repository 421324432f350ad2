-- ===== src/Closeable.antt =====
-- include/empool/CloseableThread.h and src/CloseableThread.cpp: a thread that runs a work function
-- and ends when it is asked to. `m_state` is written without the lock; `m_isRequestClose` is
-- atomic, and set by a weak compare-exchange, which may fail for no reason.
pub mod System
pub mod Closing
pub mod Lifetime
mod Examples
use empool.Base.{Bool, true, false, ◌&&◌, not, if◌then◌else◌}

-- `CloseableThread::State`.
pub data ThreadState : Type 0 where
  init running finished : ThreadState

pub record Closeable : Type 0 where
  pub state : ThreadState
  pub is_request_close : Bool

abbrev pub new_closeable : Closeable
new_closeable = record { state = init; is_request_close = false }

-- `IsFinished`.
abbrev pub is_finished : ThreadState → Bool
is_finished finished = true
is_finished _ = false

-- `compare_exchange_weak(false, true)`: the flag after it, and whether it was exchanged.
abbrev pub compare_exchange : (fails : Bool) → Bool → Bool × Bool
compare_exchange fails flag = if not flag && not fails then (true, true) else (flag, false)

-- `AsyncClose`, which also is what `Close` does before it waits; the flag says that it waits.
unfoldable pub request_close : (fails : Bool) → Closeable → Closeable × Bool
request_close fails c =
    let (flag, won) = compare_exchange fails c.is_request_close in
    (record c { is_request_close = flag }, won)

-- How the work function goes on: it returns, it calls its argument `checkFunc`, or it throws
-- some exception of its own.
pub data Work : Type 0 where
  returns checks throws : Work

-- Where the thread stands: before `SetState(RUNNING)`, before its own check, in the work function,
-- before the finish action, before `SetState(FINISHED)`, before the notification, at its end, or
-- out of `ThreadFunction` by an exception that it does not catch.
pub data ThreadPc : Type 0 where
  born checking working leaving finishing notifying ended lost : ThreadPc

-- `CheckIsRequestClose`: its exception is caught in `ThreadFunction`.
check_is_request_close : Closeable → ThreadPc → ThreadPc
check_is_request_close c passed = if c.is_request_close then leaving else passed

-- One step of `ThreadFunction` and `NotifyFinished`.
unfoldable pub thread_step : Work → Closeable → ThreadPc → Closeable × ThreadPc
unfolding check_is_request_close
thread_step w c born = (record c { state = running }, checking)
thread_step w c checking = (c, check_is_request_close c working)
thread_step returns c working = (c, leaving)
thread_step checks c working = (c, check_is_request_close c working)
thread_step throws c working = (c, lost)
thread_step w c leaving = (c, finishing)
thread_step w c finishing = (record c { state = finished }, notifying)
thread_step w c notifying = (c, ended)
thread_step w c ended = (c, ended)
thread_step w c lost = (c, lost)
