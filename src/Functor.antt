-- ===== src/Functor.antt =====
-- Tasks that are made from functions: include/empool/FunctorTask.h, the functor tasks of
-- include/empool/TimerTask.h and include/empool/SingleThreadPool.h, the end tasks beside them, and
-- include/empool/FunctorFutureTask.h. A function of the user changes a state of any type, and may
-- throw; it has no way to call `CheckCancellation`.
pub mod Timed
mod Examples
use empool.Base.{
  ℕ, zero, suc, ◌≡◌, refl, Bool, true, false, Option, none, some, arith, if◌then◌else◌,
}
use empool.Task.{Task, running, finished, cancelled, Work, returns, throws, run}

-- The base class of a task: `TaskBase`, `PriorityTask` or `TimerTask`.
pub data BaseClass : Type 0 where
  task_base priority_task timer_task : BaseClass

-- A function: the state after it, and whether an exception gets out.
abbrev pub Func {ℓ} : Type ℓ → Type ℓ
Func S = S → S × Bool

-- `FunctorTask`, `PriorityFunctorTask`, `TimerFunctorTask`; `EndTask`, `EndPriorityTask`,
-- `EndTimerTask`.
pub data TaskObject {ℓ} (S : Type ℓ) : Type ℓ where
  functor_task : BaseClass → Func S → TaskObject S
  end_task : BaseClass → TaskObject S

-- `DoRun`.
abbrev pub do_run {ℓ} : {S : Type ℓ} → TaskObject S → Func S
do_run (functor_task base f) s = f s
do_run (end_task base) s = (s, false)

-- `MakeFunctorTask` and `MakeTimerFunctorTask`.
abbrev pub make_functor_task {ℓ} : {S : Type ℓ} → BaseClass → Func S → TaskObject S
make_functor_task base f = functor_task base f

-- What `DoRun` is for `Run`.
abbrev pub work_of {ℓ} : {S : Type ℓ} → S × Bool → Work
work_of (s, true) = throws
work_of (s, false) = returns

-- `Run` of an object, when no other thread comes between: the task, and the state, after it, and
-- whether an exception gets out.
unfoldable pub run_object {ℓ} : {S : Type ℓ} → TaskObject S → Task → S → Task × S × Bool
unfolding run
run_object o t s =
    let (s', threw) = do_run o s in
    let (t', escapes) = run (work_of (s', threw)) t in
    if t.is_request_cancel then (t', s, escapes) else (t', s', escapes)

-- `MakeFunctorFutureTask`, which calls itself, with fuel.
unfoldable pub make_functor_future_task {ℓ} :
    {S : Type ℓ} → (fuel : ℕ) → Func S → Option (TaskObject S)
make_functor_future_task zero f = none
make_functor_future_task (suc fuel) f = make_functor_future_task fuel f

-- However many calls are made, it does not return.
pub make_functor_future_task_lem {ℓ} :
    {S : Type ℓ} (fuel : ℕ) (f : Func S) → make_functor_future_task fuel f ≡ none
unfolding make_functor_future_task
make_functor_future_task_lem zero f = refl
make_functor_future_task_lem (suc fuel) f = make_functor_future_task_lem fuel f
