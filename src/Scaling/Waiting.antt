-- ===== src/Scaling/Waiting.antt =====
-- The threads that wait in `ShutDownNow` of src/ScalingThreadPool.cpp, and the last worker, which
-- sets the state and notifies all of them. The calls are sections under `m_mutex`, with the
-- condition `m_stateGuard`, each in one step.
use empool.Base.{ℕ, ◌≡◌, ◌≢◌, refl, Bool, true, false, not, [], ◌∷◌, arith}
use empool.Lock.{Section, mutex_locker, condition_wait_locker, condition_notify_all_locker}
use empool.Lock.Atomic.{
  Pc, outside, entering, asleep, expired, System, wake, perform, Step, enters, performs, stirs,
  expires, gives_up,
}
use empool.Scaling.{PoolState, is_shut_down}

-- `SetState`, the wait in `ShutDownNow`, and the notification at the end of
-- `NotifyWhenThreadsStop`, with what `CheckIsRequestShutDown` gives.
pub data WaitCall : Type 0 where
  set_state : PoolState → WaitCall
  await_shut_down : WaitCall
  notify_all_stop : (is_requested : Bool) → WaitCall

abbrev pub wait_code : WaitCall → Section PoolState
wait_code (set_state state) = mutex_locker ((λ _. state) ∷ [])
wait_code await_shut_down = condition_wait_locker false (λ state. not (is_shut_down state)) [] []
wait_code (notify_all_stop is_requested) = condition_notify_all_locker (λ _. is_requested) []

abbrev pub State : Type 0
State = System WaitCall PoolState

-- About to set a state other than `SHUTDOWN`.
abbrev pub is_resetting : Pc WaitCall → Bool
is_resetting (entering (set_state state)) = not (is_shut_down state)
is_resetting (asleep (set_state state)) = not (is_shut_down state)
is_resetting p = false

abbrev pub is_awaiting : Pc WaitCall → Bool
is_awaiting (asleep await_shut_down) = true
is_awaiting p = false

-- Steps in which nobody comes to set a state other than `SHUTDOWN`.
abbrev pub is_settled : {s t : State} → Step wait_code s t → Bool
is_settled (enters i (set_state state) e) = is_shut_down state
is_settled st = true

pub data SettledSteps (s : State) : State → Type 0 where
  here : SettledSteps s s
  then_ :
      {t u : State}
      → SettledSteps s t
      → (st : Step wait_code t u) → is_settled st ≡ true
      → SettledSteps s u

abbrev Settled : State → Type 0
Settled s =
    (is_shut_down s.shared ≡ true)
    × ((k : ℕ) → (is_resetting (s.pc k) ≡ false) × (is_awaiting (s.pc k) ≡ false))

all_awake :
    (p : Pc WaitCall)
    → is_resetting p ≡ false
    → (is_resetting (wake p) ≡ false) × (is_awaiting (wake p) ≡ false)
all_awake outside h = (refl, refl)
all_awake (entering c) h = (h, refl)
all_awake (asleep (set_state state)) h = (h, refl)
all_awake (asleep await_shut_down) h = (refl, refl)
all_awake (asleep (notify_all_stop r)) h = (refl, refl)
all_awake (expired c) h = (refl, refl)

Step-Settled :
    {s t : State} (st : Step wait_code s t) → is_settled st ≡ true → Settled s → Settled t
Step-Settled (enters i (set_state state) e) q (d, h) = (d, λ k. ground (arith, h k, q))
Step-Settled (enters i await_shut_down e) q (d, h) = (d, λ k. ground (arith, h k))
Step-Settled (enters i (notify_all_stop r) e) q (d, h) = (d, λ k. ground (arith, h k))
Step-Settled (performs i j (set_state state) e) q (d, h) =
    (ground (arith, h i), λ k. ground (arith, h k))
Step-Settled (performs i j await_shut_down e) q (d, h) =
    (ground (arith, d), λ k. ground (arith, d, h k))
Step-Settled {s} (performs i j (notify_all_stop true) e) q (d, h) =
    (d, λ k. ground (arith, all_awake (s.pc k) (h k).0))
Step-Settled (performs i j (notify_all_stop false) e) q (d, h) = (d, λ k. ground (arith, h k))
Step-Settled (stirs i (set_state state) e) q (d, h) = (d, λ k. ground (arith, h k, h i))
Step-Settled (stirs i await_shut_down e) q (d, h) = (d, λ k. ground (arith, h k))
Step-Settled (stirs i (notify_all_stop r) e) q (d, h) = (d, λ k. ground (arith, h k))
Step-Settled (expires i c e timed) q (d, h) = (d, λ k. ground (arith, h k))
Step-Settled (gives_up i (set_state state) e) q (d, h) = (d, λ k. ground (arith, h k))
Step-Settled (gives_up i await_shut_down e) q (d, h) = (d, λ k. ground (arith, h k))
Step-Settled (gives_up i (notify_all_stop r) e) q (d, h) = (d, λ k. ground (arith, h k))

Steps-Settled : {s t : State} → SettledSteps s t → Settled s → Settled t
Steps-Settled here v = v
Steps-Settled (then_ r st q) v = Step-Settled st q (Steps-Settled r v)

-- The notification of the last worker lets every waiting thread out: let the state be `SHUTDOWN`,
-- no thread be about to set another, and thread `i` notify after a `ShutDown`. From then on, as
-- long as nobody comes to set another state, no thread sleeps in `ShutDownNow`, nor does one that
-- calls it only then.
pub all_waiters_leave :
    (s : State) (i j : ℕ)
    → is_shut_down s.shared ≡ true
    → ((k : ℕ) → is_resetting (s.pc k) ≡ false)
    → s.pc i ≡ entering (notify_all_stop true)
    → (t : State) → SettledSteps (perform wait_code s i j (notify_all_stop true)) t
    → (k : ℕ) → t.pc k ≢ asleep await_shut_down
all_waiters_leave s i j d h e t r k asleep_ =
    ground
      (arith, asleep_, (Steps-Settled r (d, λ k. ground (arith, all_awake (s.pc k) (h k)))).1 k)
