-- ===== src/Scheduled/Final.antt =====
-- What holds once a pool is shut down, whatever threads have called it.
use empool.Base.{ℕ, ◌<◌, ◌≡◌, refl, Bool, true, false, Option, none, some, arith, subst, sym}
use empool.Heap.{PopHeap}
use empool.Closeable.{finished}
use empool.Timer.{Store}
use empool.Timer.Handler.{State}
use empool.Timer.Racing.{Request, asking, returned, add_step}
use empool.Scheduled.{shutdown, Pool}
use empool.Scheduled.Shutdown.{Closed}
use empool.Scheduled.System as S
use empool.Scheduled.System.{
  Pc, stopping, outside, checked, adding, answered, shut, System, IsIdle, handler, put, go_to, Turn,
  passes, fires, cancels, finishes, after_tests, Step, Reach, first, later, after_close,
  after_exchange, at_handler_number, closing,
}
use empool.Scheduled.Phases.{Done, Over, Phase, open_, shutting, over}
use empool.Scheduled.Shutter.{Phase-Shutter}
use empool.Scheduled.Stepping.{Reach-Phase}

stays_shut :
    {lib : PopHeap} {n : ℕ} {s t : System}
    → Step lib false s t
    → Phase n s
    → s.pool.state ≡ shutdown
    → t.pool.state ≡ shutdown
stays_shut (S.stops j now e) v over_now =
    absurd ((Phase-Shutter j (stopping now) e (λ a. a) v).not_over over_now)
stays_shut (S.ends j now k e last) v over_now = refl
stays_shut _ v over_now = over_now

refuses_now :
    (now : ℕ) (req : Request) (x : ℕ) (st : State)
    → Closed st.handler
    → add_step now req x st asking ≡ (st, returned false)
unfolding add_step
refuses_now now req x st c = ground (arith, c.close)

tests_refuse :
    (p : Pool) (req : Request) (task : Option ℕ)
    → p.is_request_shut_down ≡ true
    → after_tests p req task ≡ answered none
tests_refuse p req none f = refl
tests_refuse p req (some x) f = ground (arith, f)

all_Done :
    {n : ℕ} {s : System}
    → Phase n s
    → s.pool.state ≡ shutdown
    → (now : Bool) × (s.pool.is_request_shut_down ≡ true)
      × ((i : ℕ) → i < n → Done now (s.pool.handlers i))
      × ((j : ℕ) → Over now (s.pc j))
all_Done (open_ f r fresh q) e = absurd (ground (arith, r, e))
all_Done (shutting j f r g q) e = absurd (r e)
all_Done (over now f r done q) e = (now, f, done, q)

-- A pool that is shut down is so for good, when no exchange fails for no reason. In every state that
-- any threads come to that call a new pool, whatever comes between their accesses, if the state is
-- `SHUTDOWN`: the thread of every handler is asked to close; if `ShutDownNow` has done it, each is at
-- its end; a call that adds a task now gets the null pointer; so does one that was past that test
-- before, but has not asked its handler yet, and that call changes nothing; and the state is
-- `SHUTDOWN` after every further step.
pub shut_down_final :
    {lib : PopHeap} {n : ℕ} {tasks : Store} {s : System}
    → Reach lib false n tasks s
    → s.pool.state ≡ shutdown
    → ((i : ℕ) → i < n → Closed (s.pool.handlers i))
      × ((j : ℕ)
          → s.pc j ≡ shut true true
          → (i : ℕ) → i < n
          → (s.pool.handlers i).thread.state ≡ finished)
      × ((req : Request) (task : Option ℕ) → after_tests s.pool req task ≡ answered none)
      × ((now x i : ℕ) (req : Request)
          → i < n
          → add_step now req x (handler s i) asking ≡ (handler s i, returned false))
      × ((t : System) → Step lib false s t → t.pool.state ≡ shutdown)
shut_down_final {n = n} {s = s} r e =
    let v = (Reach-Phase r).1 in
    let (now, f, done, q) = all_Done v e in
    (
      λ i lt. (done i lt).closed,
      λ j p i lt. (done i lt).ended (sym (subst (Over now) p (q j))),
      λ req task. tests_refuse s.pool req task f,
      λ time x i req lt. refuses_now time req x (handler s i) (done i lt).closed,
      λ t st. stays_shut st v e,
    )
