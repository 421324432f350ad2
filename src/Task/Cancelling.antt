-- ===== src/Task/Cancelling.antt =====
-- What a thread in `Cancel` can rely on.
use empool.Base.{ℕ, ◌≡◌, ◌⊎◌, inl, inr, true, false, arith, subst, Bool-cases}
use empool.Task.{is_stop_state, Work, stopping, run_step}
use empool.Task.System.{
  System, Step, advance, request, sleep, done, stir, Steps, here, then_, start, CancelPc, outside,
  requested, waiting, woken, returned,
}

-- Whoever is in `Cancel` has made a request; whoever sleeps there waits for a task that has not
-- stopped, or is about to be notified.
abbrev IsServed : System → CancelPc → Type 0
IsServed s outside = Unit {0}
IsServed s returned = Unit
IsServed s requested = s.task.is_request_cancel ≡ true
IsServed s woken = s.task.is_request_cancel ≡ true
IsServed s waiting =
    (s.task.is_request_cancel ≡ true) × (is_stop_state s.task.state ≡ true → s.runner ≡ stopping)

abbrev Inv : System → Type 0
Inv s = (i : ℕ) → IsServed s (s.canceller i)

Step-Inv : {s t : System} → Step s t → Inv s → Inv t
unfolding run_step
Step-Inv {s} (advance w) v j = ground (arith, v j)
Step-Inv (request i p) v j = ground (arith, v j)
Step-Inv (sleep i p e) v j = ground (arith, v j, v i)
Step-Inv (done i p e) v j = ground (arith, v j)
Step-Inv (stir i p) v j = ground (arith, v j, v i)

Steps-Inv : {s t : System} → Inv s → Steps s t → Inv t
Steps-Inv v here = v
Steps-Inv v (then_ r st) = Step-Inv st (Steps-Inv v r)

-- No wake-up is lost: in every state that a new task can come to, a thread that sleeps in `Cancel`
-- waits for a task that has not stopped, or the thread in `Run` is about to notify it: whatever
-- the task's own work is, the next step of `Run` wakes it.
pub no_lost_cancel :
    {s : System}
    → Steps start s
    → (i : ℕ) → s.canceller i ≡ waiting
    → (is_stop_state s.task.state ≡ false)
      ⊎ ((s.runner ≡ stopping) × ((w : Work) → (t : System) × Step s t × (t.canceller i ≡ woken)))
unfolding run_step
no_lost_cancel {s} r i e = elim (Bool-cases (is_stop_state s.task.state)) [
  | inl stopped ↦ inr (served stopped, λ w. (_, advance w, ground (arith, v, served stopped)))
  | inr not_yet ↦ inl not_yet
]
  where
    v : IsServed s waiting
    v = subst (IsServed s) e (Steps-Inv (λ j. tt) r i)

    served : is_stop_state s.task.state ≡ true → s.runner ≡ stopping
    served = v.1
