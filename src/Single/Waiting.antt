-- ===== src/Single/Waiting.antt =====
-- The threads that wait in `ShutDownNow` of src/SingleThreadPool.cpp, and the thread of the pool,
-- which sets the state and notifies one of them. The calls are sections under `m_stateGuard`, with
-- the condition `m_stateCond`.
use empool.Base.{ℕ, ◌≡◌, ◌≢◌, Bool, true, false, not, [], ◌∷◌, arith, ◌==◌}
use empool.Lock.{Section, mutex_locker, condition_wait_locker, condition_notify_locker}
use empool.Lock.System.{
  Pc, locking, testing, asleep, System, test, Step, enters, locks, tests, moves, unlocks, stirs,
  expires, gives_up,
}
use empool.Single.{PoolState, is_shut_down}

-- `SetState`, the wait in `ShutDownNow`, and the notification in `NotifyWhenThreadStop`, with what
-- `CheckIsRequestShutDown` gives.
pub data WaitCall : Type 0 where
  set_state : PoolState → WaitCall
  await_shut_down : WaitCall
  notify_stop : (is_requested : Bool) → WaitCall

abbrev pub wait_code : WaitCall → Section PoolState
wait_code (set_state state) = mutex_locker ((λ _. state) ∷ [])
wait_code await_shut_down = condition_wait_locker false (λ state. not (is_shut_down state)) [] []
wait_code (notify_stop is_requested) = condition_notify_locker (λ _. is_requested) []

abbrev pub State : Type 0
State = System WaitCall PoolState

-- In `NotifyWhenThreadStop`, before the notification.
abbrev pub is_notifier : Pc WaitCall PoolState → Bool
is_notifier (locking (notify_stop r)) = true
is_notifier (testing (notify_stop r)) = true
is_notifier (asleep (notify_stop r)) = true
is_notifier p = false

-- Steps in which no further notification comes up, and the wait of thread `k` does not end for no
-- reason.
abbrev pub is_quiet : (k : ℕ) {s t : State} → Step wait_code s t → Bool
is_quiet k (enters i (notify_stop r) e) = false
is_quiet k (stirs i c e) = not (i == k)
is_quiet k st = true

pub data QuietSteps (k : ℕ) (s : State) : State → Type 0 where
  here : QuietSteps k s s
  then_ :
      {t u : State}
      → QuietSteps k s t
      → (st : Step wait_code t u) → is_quiet k st ≡ true
      → QuietSteps k s u

abbrev Sleeps : ℕ → State → Type 0
Sleeps k s = s.pc k ≡ asleep await_shut_down

Step-Sleeps :
    (k : ℕ) {s t : State} (st : Step wait_code s t)
    → is_quiet k st ≡ true
    → Sleeps k s
    → ((i : ℕ) → is_notifier (s.pc i) ≡ false)
    → Sleeps k t
Step-Sleeps k (enters i c e) q p n = ground arith
Step-Sleeps k (locks i c e free) q p n = ground arith
Step-Sleeps k (tests i j (set_state state) e) q p n = ground arith
Step-Sleeps k (tests i j await_shut_down e) q p n = ground arith
Step-Sleeps k (tests i j (notify_stop r) e) q p n = absurd (ground (arith, n i))
Step-Sleeps k (moves i f fs e) q p n = ground arith
Step-Sleeps k (unlocks i e) q p n = ground arith
Step-Sleeps k (stirs i c e) q p n = ground arith
Step-Sleeps k (expires i (set_state state) e timed) q p n = ground arith
Step-Sleeps k (expires i await_shut_down e timed) q p n = absurd (ground arith)
Step-Sleeps k (expires i (notify_stop r) e timed) q p n = ground arith
Step-Sleeps k (gives_up i c e free) q p n = ground arith

Step-quiet :
    (k : ℕ) {s t : State} (st : Step wait_code s t)
    → is_quiet k st ≡ true
    → ((i : ℕ) → is_notifier (s.pc i) ≡ false)
    → (i : ℕ) → is_notifier (t.pc i) ≡ false
Step-quiet k (enters i (notify_stop r) e) q n l = absurd (ground arith)
Step-quiet k (enters i (set_state state) e) q n l = ground (arith, n l)
Step-quiet k (enters i await_shut_down e) q n l = ground (arith, n l)
Step-quiet k (locks i (notify_stop r) e free) q n l = absurd (ground (arith, n i))
Step-quiet k (locks i (set_state state) e free) q n l = ground (arith, n l)
Step-quiet k (locks i await_shut_down e free) q n l = ground (arith, n l)
Step-quiet k (tests i j (set_state state) e) q n l = ground (arith, n l)
Step-quiet k (tests i j await_shut_down e) q n l = ground (arith, n l)
Step-quiet k (tests i j (notify_stop r) e) q n l = absurd (ground (arith, n i))
Step-quiet k (moves i f fs e) q n l = ground (arith, n l)
Step-quiet k (unlocks i e) q n l = ground (arith, n l)
Step-quiet k (stirs i (notify_stop r) e) q n l = absurd (ground (arith, n i))
Step-quiet k (stirs i (set_state state) e) q n l = ground (arith, n l)
Step-quiet k (stirs i await_shut_down e) q n l = ground (arith, n l)
Step-quiet k (expires i c e timed) q n l = ground (arith, n l)
Step-quiet k (gives_up i c e free) q n l = ground (arith, n l)

Steps-Sleeps :
    (k : ℕ) {s t : State}
    → QuietSteps k s t
    → Sleeps k s
    → ((i : ℕ) → is_notifier (s.pc i) ≡ false)
    → Sleeps k t × ((i : ℕ) → is_notifier (t.pc i) ≡ false)
Steps-Sleeps k here p n = (p, n)
Steps-Sleeps k (then_ r st q) p n =
    let (p', n') = Steps-Sleeps k r p n in (Step-Sleeps k st q p' n', Step-quiet k st q n')

-- The notification of the thread that stops wakes one of the threads that sleep in `ShutDownNow`,
-- and no other: let thread `i`, the only one in `NotifyWhenThreadStop`, be about to notify after a
-- `ShutDown`, and `j` and `k` be two threads that sleep. If `pthread_cond_signal` picks `j`, then
-- `j` is woken, and `k` sleeps for ever, whatever happens but a further notification or a wait that
-- ends for no reason.
pub second_waiter_sleeps :
    (s : State) (i j k : ℕ)
    → s.pc i ≡ testing (notify_stop true)
    → ((l : ℕ) → i ≢ l → is_notifier (s.pc l) ≡ false)
    → j ≢ k
    → s.pc j ≡ asleep await_shut_down
    → s.pc k ≡ asleep await_shut_down
    → ((test wait_code s i j (notify_stop true)).pc j ≡ locking await_shut_down)
      × ((t : State)
          → QuietSteps k (test wait_code s i j (notify_stop true)) t
          → t.pc k ≡ asleep await_shut_down)
second_waiter_sleeps s i j k e others ne pj pk =
    (ground arith, λ t r. (Steps-Sleeps k r (ground arith) (λ l. ground (arith, others l))).0)
