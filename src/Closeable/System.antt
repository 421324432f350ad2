-- ===== src/Closeable/System.antt =====
-- One closeable thread, and any number of threads that close it.
use empool.Base.{ℕ, ◌+◌, ◌≡◌, ◌⊎◌, Bool, true, false, update, if◌then◌else◌}
use empool.Closeable.{
  Closeable, new_closeable, is_finished, request_close, Work, ThreadPc, born, leaving, notifying,
  thread_step,
}

-- Where a thread in `Close` stands: before the call, before its first test of the state, asleep,
-- awake again, returned, or returned at once since the exchange failed.
pub data ClosePc : Type 0 where
  outside asked waiting woken returned refused : ClosePc

-- `finish_calls` counts the calls of `m_finishAction`.
pub record System : Type 0 where
  pub thread : Closeable
  pub pc : ThreadPc
  pub finish_calls : ℕ
  pub closer : ℕ → ClosePc

abbrev pub wake : ClosePc → ClosePc
wake waiting = woken
wake p = p

-- The `ConditionNotifyAllLocker` of `NotifyFinished`.
abbrev pub notify_all : Bool → (ℕ → ClosePc) → ℕ → ClosePc
notify_all b c i = if b then wake (c i) else c i

abbrev pub notifies : ThreadPc → Closeable → Bool
notifies notifying c = c.is_request_close
notifies _ c = false

abbrev pub finish_action : ThreadPc → ℕ → ℕ
finish_action leaving n = n + 1
finish_action _ n = n

abbrev pub IsTesting : ClosePc → Type 0
IsTesting p = (p ≡ asked) ⊎ (p ≡ woken)

abbrev pub IsIdle : ClosePc → Type 0
IsIdle p = (p ≡ outside) ⊎ (p ≡ returned) ⊎ (p ≡ refused)

pub data Step (s : System) : System → Type 0 where
  advance :
      (w : Work)
      → Step s (record {
        thread = (thread_step w s.thread s.pc).0;
        pc = (thread_step w s.thread s.pc).1;
        finish_calls = finish_action s.pc s.finish_calls;
        closer = notify_all (notifies s.pc s.thread) s.closer;
      })
  async_close : (fails : Bool) → Step s (record s { thread = (request_close fails s.thread).0 })
  close :
      (i : ℕ) (fails : Bool)
      → IsIdle (s.closer i)
      → Step s (record s {
        thread = (request_close fails s.thread).0;
        closer = update s.closer i (if (request_close fails s.thread).1 then asked else refused);
      })
  sleep :
      (i : ℕ)
      → IsTesting (s.closer i)
      → is_finished s.thread.state ≡ false
      → Step s (record s { closer = update s.closer i waiting })
  done :
      (i : ℕ)
      → IsTesting (s.closer i)
      → is_finished s.thread.state ≡ true
      → Step s (record s { closer = update s.closer i returned })
  stir : (i : ℕ) → s.closer i ≡ waiting → Step s (record s { closer = update s.closer i woken })

pub data Steps (s : System) : System → Type 0 where
  here : Steps s s
  then_ : {t u : System} → Steps s t → Step t u → Steps s u

abbrev pub start : System
start = record { thread = new_closeable; pc = born; finish_calls = 0; closer = λ _. outside }
