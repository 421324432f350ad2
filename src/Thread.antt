-- ===== src/Thread.antt =====
-- Threads and their creation: include/empool/Thread.h, src/Thread.cpp, the thread id of
-- include/empool/System.h and src/System.cpp, and `CloseableThread::Init` of
-- src/CloseableThread.cpp, which tries until a thread is created.
pub mod System
pub mod Safety
pub mod Race
pub mod Creation
pub mod Locals
pub mod TidString
mod Examples
use empool.Base.{ℕ, zero, suc, Bool, true, false, Option, none, some, ◌==◌, ◌+◌, if◌then◌else◌}

-- What `pthread_create` returns: 0, or one of its error codes, or another number.
pub data CreateResult : Type 0 where
  created eagain einval eperm other_error : CreateResult

-- The messages of the exceptions of `ProcessCreateError`.
pub data Message : Type 0 where
  resource_limit invalid_attribute no_permission unknown_error : Message

-- `ProcessCreateError`, where the constructor calls it.
unfoldable pub create_error : CreateResult → Option Message
create_error created = none
create_error eagain = some resource_limit
create_error einval = some invalid_attribute
create_error eperm = some no_permission
create_error other_error = some unknown_error

-- What the constructor leaves: the exception, or a thread with `m_isStart`, and how many `Args` no
-- one frees, since only the new thread does.
pub record Constructed : Type 0 where
  pub thrown : Option Message
  pub is_start : Bool
  pub leaked : ℕ

abbrev constructed : Option Message → Constructed
constructed none = record { thrown = none; is_start = true; leaked = 0 }
constructed (some m) = record { thrown = some m; is_start = false; leaked = 1 }

-- `Thread::Thread`.
unfoldable pub construct : CreateResult → Constructed
construct r = constructed (create_error r)

-- What `Init` has done: the attempts that failed and their leaks, and whether it has returned.
pub record Launch : Type 0 where
  pub failures : ℕ
  pub leaked : ℕ
  pub is_launched : Bool

abbrev pub attempt : Constructed → Launch → Launch
attempt c l =
    if c.is_start
    then record l { is_launched = true }
    else record l { failures = suc l.failures; leaked = l.leaked + c.leaked }

-- The loop of `Init`; `results` tells what each `pthread_create` returns.
unfoldable pub init : (fuel : ℕ) → (results : ℕ → CreateResult) → Launch → Launch
unfolding construct
init zero results l = l
init (suc fuel) results l =
    let l' = attempt (construct (results l.failures)) l in
    let rest = init fuel results l' in if l'.is_launched then l' else rest

abbrev pub not_launched : Launch
not_launched = record { failures = 0; leaked = 0; is_launched = false }

-- `Tid`: the id that the thread has cached, or else that of the system.
unfoldable pub tid : (cached gettid : ℕ) → ℕ
tid cached gettid = if cached == 0 then gettid else cached
