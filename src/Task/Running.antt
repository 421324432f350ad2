-- ===== src/Task/Running.antt =====
-- The states that a task goes through, and `Run` as one call.
use empool.Base.{
  ℕ, zero, suc, ◌≡◌, refl, ◌⊎◌, inl, inr, ◌≢◌, Bool, true, false, List, [], ◌∷◌, arith,
  if◌then◌else◌, Bool-cases,
}
use empool.Task.{
  Task, TaskState, running, cancelled, Work, returns, checks, throws, RunPc, idle, working, ended,
  caught, stopping, escaped, run_step, run,
}
use empool.Task.System.{
  System, Step, advance, request, sleep, done, stir, Steps, here, then_, start,
}

-- A thread in `Run` that has not passed a check for a cancel.
abbrev pub IsHeld : RunPc → Type 0
IsHeld p = (p ≡ idle) ⊎ (p ≡ caught) ⊎ (p ≡ stopping) ⊎ (p ≡ escaped)

-- No work is begun from here on, and the state is the old one until it is `CANCELLED`.
record Held (old : TaskState) (s : System) : Type 0 where
  asked : s.task.is_request_cancel ≡ true
  held : IsHeld s.runner
  kept : (s.task.state ≡ old) ⊎ (s.task.state ≡ cancelled)

Step-Held : {old : TaskState} {s t : System} → Step s t → Held old s → Held old t
unfolding run_step
Step-Held (advance w) h = ground arith
Step-Held (request i p) h = record { asked = refl; held = h.held; kept = h.kept }
Step-Held (sleep i p e) h = record { asked = h.asked; held = h.held; kept = h.kept }
Step-Held (done i p e) h = record { asked = h.asked; held = h.held; kept = h.kept }
Step-Held (stir i p) h = record { asked = h.asked; held = h.held; kept = h.kept }

Steps-Held : {old : TaskState} {s t : System} → Held old s → Steps s t → Held old t
Steps-Held h here = h
Steps-Held h (then_ r st) = Step-Held st (Steps-Held h r)

-- Once a cancel is requested while no thread is in `Run`, the task's own work is never begun
-- again, whatever happens, and its state stays as it is until it is `CANCELLED`.
pub cancelled_never_runs :
    {s t : System}
    → s.task.is_request_cancel ≡ true
    → s.runner ≡ idle
    → Steps s t
    → (t.runner ≢ working) × ((t.task.state ≡ s.task.state) ⊎ (t.task.state ≡ cancelled))
cancelled_never_runs asked e r =
    let h = Steps-Held (record { asked = asked; held = inl e; kept = inl refl }) r in
    (λ w. ground (arith, h.held), h.kept)

-- The state of a task at work.
abbrev pub AtWork : RunPc → TaskState → Type 0
AtWork working x = x ≡ running
AtWork ended x = x ≡ running
AtWork escaped x = x ≡ running
AtWork _ x = Unit {0}

-- A cancelled task was asked to stop, and no thread is at its work.
record Life (s : System) : Type 0 where
  settled : s.task.state ≡ cancelled → (s.task.is_request_cancel ≡ true) × IsHeld s.runner
  at_work : AtWork s.runner s.task.state
  passed : s.runner ≡ caught → s.task.is_request_cancel ≡ true

Step-Life : {s t : System} → Step s t → Life s → Life t
unfolding run_step
Step-Life (advance w) h = ground arith
Step-Life (request i p) h = ground arith
Step-Life (sleep i p e) h = record { settled = h.settled; at_work = h.at_work; passed = h.passed }
Step-Life (done i p e) h = record { settled = h.settled; at_work = h.at_work; passed = h.passed }
Step-Life (stir i p) h = record { settled = h.settled; at_work = h.at_work; passed = h.passed }

Steps-Life : {s t : System} → Life s → Steps s t → Life t
Steps-Life h here = h
Steps-Life h (then_ r st) = Step-Life st (Steps-Life h r)

-- `CANCELLED` is final: a task that is cancelled in some state that a new task can come to is
-- cancelled in every later one, and its work is not begun again.
cancelled_is_final :
    {s t : System}
    → Steps start s
    → s.task.state ≡ cancelled
    → Steps s t
    → (t.task.state ≡ cancelled) × (t.runner ≢ working)
cancelled_is_final {s} {t} r e later =
    let life = Steps-Life (record { settled = λ h. cc; at_work = tt; passed = λ h. cc }) r in
    let (asked, held) = life.settled e in
    let h : Held cancelled t =
      Steps-Held (record { asked = asked; held = held; kept = inr e }) later in
    (ground (arith, h.kept), λ w. ground (arith, h.held))

-- The thread in `Run` takes a step for each item, and no other thread takes any.
abbrev pub drive : List Work → Task × RunPc → Task × RunPc
drive [] (t, p) = (t, p)
drive (w ∷ ws) (t, p) = drive ws (run_step w t p)

-- What `DoRun` does when it checks for a cancel `k` times and then ends by `w`.
abbrev pub work_of : ℕ → Work → List Work
work_of zero returns = returns ∷ returns ∷ returns ∷ []
work_of zero w = w ∷ []
work_of (suc k) w = checks ∷ work_of k w

-- The steps of one uninterrupted call of `Run`.
abbrev pub steps_of_run : Bool → ℕ → Work → List Work
steps_of_run true k w = returns ∷ returns ∷ returns ∷ []
steps_of_run false k w = returns ∷ returns ∷ work_of k w

abbrev pub outcome : Task × Bool → Task × RunPc
outcome (t, out) = (t, if out then escaped else idle)

drive_work :
    (k : ℕ) (w : Work) (t : Task)
    → w ≢ checks
    → t.is_request_cancel ≡ false
    → drive (work_of k w) (record t { state = running }, working) ≡ outcome (run w t)
unfolding run run_step
drive_work zero returns t h e = ground arith
drive_work zero checks t h e = absurd (h refl)
drive_work zero throws t h e = ground arith
drive_work (suc k) w t h e = ground (arith, drive_work k w t h e)

-- When no other thread comes between, the steps of `Run` are those of one call: a task with a
-- request is cancelled without any work, and otherwise it finishes, or stays `RUNNING` if an
-- exception gets out, however often its work checks for a cancel before it ends.
drive-run :
    (k : ℕ) (w : Work) (t : Task)
    → w ≢ checks
    → drive (steps_of_run t.is_request_cancel k w) (t, idle) ≡ outcome (run w t)
unfolding run run_step
drive-run k w t h = elim (Bool-cases t.is_request_cancel) [
  | inl asked ↦ ground arith
  | inr free ↦ ground (arith, drive_work k w t h free)
]
