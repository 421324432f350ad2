-- ===== src/Task/System.antt =====
-- One thread that runs a task, again and again, and any number of threads that cancel it.
use empool.Base.{ℕ, ◌≡◌, ◌⊎◌, Bool, true, false, update, if◌then◌else◌}
use empool.Task.{Task, is_stop_state, Work, RunPc, idle, stopping, run_step, new_task}

-- Where a thread in `Cancel` stands: before the call, before its first test of the state, asleep,
-- awake again and before its next test, or returned.
pub data CancelPc : Type 0 where
  outside requested waiting woken returned : CancelPc

pub record System : Type 0 where
  pub task : Task
  pub runner : RunPc
  pub canceller : ℕ → CancelPc

-- `NotifyAll` reaches the threads that wait.
abbrev pub wake : CancelPc → CancelPc
wake waiting = woken
wake p = p

-- The `ConditionNotifyAllLocker` at the end of `Run`.
abbrev pub notify_all : Bool → (ℕ → CancelPc) → ℕ → CancelPc
notify_all b c i = if b then wake (c i) else c i

abbrev pub notifies : RunPc → Task → Bool
notifies stopping t = t.is_request_cancel
notifies _ t = false

abbrev pub IsTesting : CancelPc → Type 0
IsTesting p = (p ≡ requested) ⊎ (p ≡ woken)

pub data Step (s : System) : System → Type 0 where
  -- The thread in `Run` goes on.
  advance :
      (w : Work)
      → Step s (record {
        task = (run_step w s.task s.runner).0;
        runner = (run_step w s.task s.runner).1;
        canceller = notify_all (notifies s.runner s.task) s.canceller;
      })
  -- `Cancel` stores its request before it takes the lock.
  request :
      (i : ℕ)
      → ((s.canceller i ≡ outside) ⊎ (s.canceller i ≡ returned))
      → Step s (record {
        task = record (s.task) { is_request_cancel = true };
        runner = s.runner;
        canceller = update s.canceller i requested;
      })
  -- Under the lock `Cancel` tests the state: it waits, or returns.
  sleep :
      (i : ℕ)
      → IsTesting (s.canceller i)
      → is_stop_state s.task.state ≡ false
      → Step s (record s { canceller = update s.canceller i waiting })
  done :
      (i : ℕ)
      → IsTesting (s.canceller i)
      → is_stop_state s.task.state ≡ true
      → Step s (record s { canceller = update s.canceller i returned })
  -- A spurious return of `pthread_cond_wait`.
  stir :
      (i : ℕ)
      → s.canceller i ≡ waiting
      → Step s (record s { canceller = update s.canceller i woken })

pub data Steps (s : System) : System → Type 0 where
  here : Steps s s
  then_ : {t u : System} → Steps s t → Step t u → Steps s u

abbrev pub start : System
start = record { task = new_task; runner = idle; canceller = λ _. outside }
