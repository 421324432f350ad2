-- ===== src/Thread/System.antt =====
-- A closeable thread that is created, asked for its id and destroyed, beside the thread that does
-- so.
use empool.Base.{ℕ, ◌≡◌, ◌≢◌, Bool, true, false, some}
use empool.Thread.{CreateResult, created, Message, construct, tid}

-- Where the creating thread stands: in `Init`, before `m_isStart = true`, before `reset`, with the
-- object, in `GetThreadId`, with its answer, in `~Thread`, or with the object destroyed.
pub data ParentPc : Type 0 where
  initialising created_ built ready asking : ParentPc
  answered : ℕ → ParentPc
  joining destroyed : ParentPc

-- Where the new thread stands: not created, before it stores its id, in its work, in the call
-- `m_thread->GetThreadId()` for its finish action, at its end, or in a call through the null
-- pointer.
pub data ChildPc : Type 0 where
  unborn born working reporting : ChildPc
  ended crashed : ChildPc

-- `has_pointer` says whether `m_thread` has been set; `gettid` is the id that the system gives.
pub record System : Type 0 where
  pub thread_id : ℕ
  pub is_start : Bool
  pub has_pointer : Bool
  pub parent : ParentPc
  pub child : ChildPc

abbrev pub start : System
start = record {
  thread_id = 0;
  is_start = false;
  has_pointer = false;
  parent = initialising;
  child = unborn;
}

pub data Step (gettid : ℕ) (s : System) : System → Type 0 where
  fails :
      (r : CreateResult) (m : Message)
      → s.parent ≡ initialising
      → (construct r).thrown ≡ some m
      → Step gettid s s
  creates :
      s.parent ≡ initialising
      → s.child ≡ unborn
      → Step gettid s (record s { parent = created_; child = born })
  marks :
      s.parent ≡ created_
      → Step gettid s (record s { is_start = (construct created).is_start; parent = built })
  resets : s.parent ≡ built → Step gettid s (record s { has_pointer = true; parent = ready })
  -- Each turn of the loop of `GetThreadId` that finds 0 sleeps and tests again.
  asks : s.parent ≡ ready → Step gettid s (record s { parent = asking })
  spins : s.parent ≡ asking → s.thread_id ≡ 0 → Step gettid s s
  gets :
      s.parent ≡ asking
      → s.thread_id ≢ 0
      → Step gettid s (record s { parent = answered s.thread_id })
  goes_on : (n : ℕ) → s.parent ≡ answered n → Step gettid s (record s { parent = ready })
  destroys : s.parent ≡ ready → s.is_start ≡ true → Step gettid s (record s { parent = joining })
  skips : s.parent ≡ ready → s.is_start ≡ false → Step gettid s (record s { parent = destroyed })
  joins :
      s.parent ≡ joining
      → s.child ≡ ended
      → Step gettid s (record s { is_start = false; parent = destroyed })
  stores : s.child ≡ born → Step gettid s (record s { thread_id = tid 0 gettid; child = working })
  works : s.child ≡ working → Step gettid s (record s { child = reporting })
  reports :
      s.child ≡ reporting
      → s.has_pointer ≡ true
      → s.thread_id ≢ 0
      → Step gettid s (record s { child = ended })
  crashes :
      s.child ≡ reporting → s.has_pointer ≡ false → Step gettid s (record s { child = crashed })

pub data Steps (gettid : ℕ) (s : System) : System → Type 0 where
  here : Steps gettid s s
  then_ : {t u : System} → Steps gettid s t → Step gettid t u → Steps gettid s u
