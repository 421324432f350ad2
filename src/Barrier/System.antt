-- ===== src/Barrier/System.antt =====
-- Any number of threads that call `Await` and `Reset` on one barrier, in any order.
use empool.Base.{ℕ, ◌<◌, ◌≡◌, ◌⊎◌, Bool, true, update, if◌then◌else◌}
use empool.Barrier.{
  Barrier, Outcome, timeout, Ticket, Pc, outside, asleep, woken, expired, returned, int_max, await,
  await_loop, reset,
}

pub record System : Type 0 where
  pub barrier : Barrier
  pub pc : ℕ → Pc

-- `pthread_cond_broadcast`: whoever waits goes on, once it has the mutex.
abbrev pub wake : Pc → Pc
wake (asleep timed t) = woken timed t
wake p = p

abbrev pub notify_all : Bool → (ℕ → Pc) → ℕ → Pc
notify_all b pc i = if b then wake (pc i) else pc i

abbrev pub IsIdle : Pc → Type 0
IsIdle p = (p ≡ outside) ⊎ ((r : Outcome) × (p ≡ returned r))

-- Thread `i` has called `Await` and returned or begun to wait.
abbrev pub called : System → ℕ → Bool → System
called s i timed =
    let (b, p, all) = await timed s.barrier in
    record { barrier = b; pc = update (notify_all all s.pc) i p }

-- One thread takes one step. `may_time` says whether `Await(time_ms)` is used at all.
pub data Step (n : ℕ) (may_time : Bool) (s : System) : System → Type 0 where
  -- A call begins; only the last of a generation and `Reset` change a counter.
  call :
      (i : ℕ) (timed : Bool)
      → i < n
      → IsIdle (s.pc i)
      → (timed ≡ true → may_time ≡ true)
      → s.barrier.barrier_cond < int_max
      → Step n may_time s (called s i timed)
  -- A spurious return of `pthread_cond_wait`.
  stir :
      (i : ℕ) (timed : Bool) (t : Ticket)
      → i < n
      → s.pc i ≡ asleep timed t
      → Step n may_time s (record s { pc = update s.pc i (woken timed t) })
  -- A wait that has ended gets the mutex and tests the `while` again.
  go_on :
      (i : ℕ) (timed : Bool) (t : Ticket)
      → i < n
      → s.pc i ≡ woken timed t
      → Step n may_time s (record s { pc = update s.pc i (await_loop timed s.barrier t) })
  -- The time of a timed wait runs out, and the call returns once it has the mutex.
  expire :
      (i : ℕ) (t : Ticket)
      → i < n
      → s.pc i ≡ asleep true t
      → Step n may_time s (record s { pc = update s.pc i (expired t) })
  give_up :
      (i : ℕ) (t : Ticket)
      → i < n
      → s.pc i ≡ expired t
      → Step n may_time s (record s { pc = update s.pc i (returned timeout) })
  restart :
      s.barrier.reset_index < int_max
      → Step n may_time s (record { barrier = reset s.barrier; pc = notify_all true s.pc })

abbrev pub start : Barrier → System
start b = record { barrier = b; pc = λ _. outside }

pub data Reach (n : ℕ) (may_time : Bool) (b : Barrier) : System → Type 0 where
  first : Reach n may_time b (start b)
  later : {s t : System} → Reach n may_time b s → Step n may_time s t → Reach n may_time b t
