-- ===== src/Scaling/Served.antt =====
-- Which tasks the workers of a pool run, and in which order.
use empool.Base.{ℕ, ◌≡◌, Option, none, some, List, [], ◌∷◌, ◌++◌}
use empool.Scaling.{Item, end_task, task, do_add_task}
use empool.Scaling.Worker.{WorkerPc, fetching, executing, worker_step}
use empool.Scaling.System.{System, Step, adds, pushes_late, works}

-- The tasks in a queue, without the `EndTask`s.
abbrev pub tasks_of : List Item → List ℕ
tasks_of [] = []
tasks_of (end_task ∷ rest) = tasks_of rest
tasks_of (task x ∷ rest) = x ∷ tasks_of rest

-- What a call of `AddTask` has added.
abbrev pub accepted : Option ℕ → List ℕ
accepted none = []
accepted (some x) = x ∷ []

-- The task that a worker has begun that came to `p` from `PopTimeWait`.
abbrev pub begun_at : WorkerPc → WorkerPc → List ℕ
begun_at fetching (executing x) = x ∷ []
begun_at _ _ = []

-- What a step adds to the queue, and the task that a worker begins by it.
abbrev pub added_by : {s t : System} → Step s t → List ℕ
added_by {s} (adds x) = accepted (do_add_task s.pool x).1
added_by (pushes_late x) = x ∷ []
added_by _ = []

abbrev pub begun_by : {s t : System} → Step s t → List ℕ
begun_by {s} (works u i free) = begun_at (s.worker i) (worker_step u s.pool i (s.worker i)).1
begun_by _ = []

-- Steps from `s`, with the tasks that have been added, and those that have been begun.
pub data Served (s : System) : List ℕ → List ℕ → System → Type 0 where
  here : Served s [] [] s
  then_ :
      {added begun added' begun' : List ℕ} {t u : System}
      → Served s added begun t
      → (st : Step t u) → added' ≡ added ++ added_by st
      → begun' ≡ begun ++ begun_by st
      → Served s added' begun' u
