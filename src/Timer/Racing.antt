-- ===== src/Timer/Racing.antt =====
-- `DoAddCronTimerTask` and `DoAddCycleTimerTask` of src/TimerTaskHandler.cpp broken up at their
-- accesses to what threads share: each locks for itself, and only the push is under the lock of the
-- queue.
use empool.Base.{ℕ, zero, suc, ◌+◌, Bool, true, false, List, [], ◌∷◌, ◌==◌, if◌then◌else◌}
use empool.Clock.{u64}
use empool.Timer.{deadline_of, set_deadline, set_interval}
use empool.Timer.Handler.{State, enqueue, do_add_cron_timer_task, do_add_cycle_timer_task}

-- The two calls, with their arguments but the task.
pub data Request : Type 0 where
  cron : (delay_in_ms : ℕ) → Request
  cycle : (interval_in_ms : ℕ) → (is_run_now : Bool) → Request

-- Where a call that adds task `x` stands: before `IsRequestClose`, before `GetDeadline`, before
-- `SetDeadline`, before `SetInterval`, before the push, or returned with its result.
pub data AddPc : Type 0 where
  asking reading dating pacing pushing : AddPc
  returned : Bool → AddPc

-- The deadline that a call computes from the time at its begin.
abbrev pub due : (now : ℕ) → Request → ℕ
due now (cron delay_in_ms) = u64 (now + delay_in_ms)
due now (cycle interval_in_ms is_run_now) = if is_run_now then now else u64 (now + interval_in_ms)

-- One step of a call.
unfoldable pub add_step : (now : ℕ) → Request → (x : ℕ) → State → AddPc → State × AddPc
add_step now req x s asking =
    (s, if s.handler.thread.is_request_close then returned false else reading)
add_step now req x s reading = (s, if deadline_of s.tasks x == 0 then dating else returned false)
add_step now (cron delay_in_ms) x s dating =
    (record s { tasks = set_deadline s.tasks x (due now (cron delay_in_ms)) }, pushing)
add_step now (cycle interval_in_ms is_run_now) x s dating = (
  record s { tasks = set_deadline s.tasks x (due now (cycle interval_in_ms is_run_now)) },
  pacing,
)
add_step now (cron delay_in_ms) x s pacing = (s, pushing)
add_step now (cycle interval_in_ms is_run_now) x s pacing =
    (record s { tasks = set_interval s.tasks x interval_in_ms }, pushing)
add_step now req x s pushing = (enqueue s s.tasks x, returned true)
add_step now req x s (returned b) = (s, returned b)

-- Two calls that add the same task; `true` in the schedule is a step of the first.
pub record Race : Type 0 where
  pub state : State
  pub first : AddPc
  pub second : AddPc

unfoldable pub race :
    (now₁ now₂ : ℕ) → (req₁ req₂ : Request) → (x : ℕ) → (schedule : List Bool) → Race → Race
race now₁ now₂ req₁ req₂ x [] r = r
race now₁ now₂ req₁ req₂ x (true ∷ schedule) r =
    let (s, p) = add_step now₁ req₁ x r.state r.first in
    race now₁ now₂ req₁ req₂ x schedule (record r { state = s; first = p })
race now₁ now₂ req₁ req₂ x (false ∷ schedule) r =
    let (s, p) = add_step now₂ req₂ x r.state r.second in
    race now₁ now₂ req₁ req₂ x schedule (record r { state = s; second = p })

-- A call that no other comes between.
unfoldable pub alone : ℕ → (now : ℕ) → Request → (x : ℕ) → State → AddPc → State × AddPc
alone zero now req x s p = (s, p)
alone (suc n) now req x s p = let (s', p') = add_step now req x s p in alone n now req x s' p'

abbrev pub do_add : (now : ℕ) → Request → State → ℕ → State × Bool
do_add now (cron delay_in_ms) s x = do_add_cron_timer_task now s x delay_in_ms
do_add now (cycle interval_in_ms is_run_now) s x =
    do_add_cycle_timer_task now s x interval_in_ms is_run_now
