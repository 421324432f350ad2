-- ===== src/Lock.antt =====
-- Critical sections: src/Mutex.cpp, include/empool/Mutex.h, src/ConditionVariable.cpp and the
-- lockers of include/empool/ConditionVariable.h. One mutex guards a shared state of any type; one
-- condition variable belongs to it. A section is what a thread does between the constructor and
-- the destructor of a locker, statement by statement. Of POSIX the step relation has what is
-- documented: a mutex has one owner, a wait gives it up, and ends by a notification or for no
-- reason.
pub mod System
pub mod Atomic
pub mod Exclusion
pub mod Refinement
pub mod Between
mod Mutex
pub mod Progress
mod Examples
use empool.Base.{ℕ, Bool, true, false, List, [], ◌∷◌}

-- What the constructor of a notifying locker does if its condition holds.
pub data Notice : Type 0 where
  no_notice one_notice all_notice : Notice

-- The test in the constructor of a notifying locker.
abbrev pub notice_if : Bool → Notice → Notice
notice_if true n = n
notice_if false n = no_notice

-- `waits` is the condition under which a `ConditionWaitLocker` waits, `timed` says whether it does
-- so by `TimeWait`, `notice` is what a notifying locker does in a state, `body` are the statements
-- under the lock, and `late` are those after a `TimeWait` that has returned false.
pub record Section {ℓ} (S : Type ℓ) : Type ℓ where
  pub waits : S → Bool
  pub timed : Bool
  pub notice : S → Notice
  pub body : List (S → S)
  pub late : List (S → S)

module _ {ℓ} {S : Type ℓ} where
  -- `MutexLocker`.
  abbrev pub mutex_locker : List (S → S) → Section S
  mutex_locker body = record {
    waits = λ _. false;
    timed = false;
    notice = λ _. no_notice;
    body = body;
    late = [];
  }

  -- `ConditionWaitLocker` with its condition, or with its `TimeWait`.
  abbrev pub condition_wait_locker :
      (timed : Bool) → (S → Bool) → List (S → S) → (late : List (S → S)) → Section S
  condition_wait_locker timed f body late = record {
    waits = f;
    timed = timed;
    notice = λ _. no_notice;
    body = body;
    late = late;
  }

  -- `ConditionNotifyLocker` and `ConditionNotifyAllLocker`.
  abbrev pub condition_notify_locker : (S → Bool) → List (S → S) → Section S
  condition_notify_locker f body = record {
    waits = λ _. false;
    timed = false;
    notice = λ s. notice_if (f s) one_notice;
    body = body;
    late = [];
  }

  abbrev pub condition_notify_all_locker : (S → Bool) → List (S → S) → Section S
  condition_notify_all_locker f body = record {
    waits = λ _. false;
    timed = false;
    notice = λ s. notice_if (f s) all_notice;
    body = body;
    late = [];
  }

  -- The statements one after another.
  abbrev pub run : List (S → S) → S → S
  run [] s = s
  run (f ∷ fs) s = run fs (f s)
