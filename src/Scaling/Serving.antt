-- ===== src/Scaling/Serving.antt =====
-- A pool serves its tasks first come, first served.
use mathlib.Core.List.{append-nil, append_assoc}
use empool.Base.{
  ℕ, zero, suc, ◌≡◌, refl, sym, ap, ◌∙◌, subst, Bool, Option, none, some, List, [], ◌∷◌, ◌++◌,
  arith, if_elim, leb, length, ◌≢◌, ◌<◌, update_elim,
}
use empool.Queue.{push}
use empool.Heap.{count}
use empool.Scaling.Census.{count-append}
use empool.Scaling.{
  Item, end_task, task, Pool, do_add_task, sub_vector, sub_worker_threads, sub_worker_thread, has,
  new_pool, push_ends, ShutPc, outside, stopping, shut_step,
}
use empool.Scaling.Worker.{WorkerPc, fetching, executing, comparing, Input, take, worker_step}
use empool.Scaling.System.{
  System, start, Step, adds, pushes_late, works, monitor_checks, monitor_wakes, monitor_creates,
  monitor_inserts, monitor_erases, monitor_acts, shuts,
}
use empool.Scaling.Served.{tasks_of, accepted, begun_at, added_by, begun_by, Served, here, then_}

tasks_of-append :
    (queue rest : List Item) → tasks_of (queue ++ rest) ≡ tasks_of queue ++ tasks_of rest
tasks_of-append [] rest = refl
tasks_of-append (end_task ∷ queue) rest = tasks_of-append queue rest
tasks_of-append (task x ∷ queue) rest = ap (λ l. x ∷ l) (tasks_of-append queue rest)

tasks_of-push_ends : (n : ℕ) (queue : List Item) → tasks_of (push_ends n queue) ≡ tasks_of queue
unfolding push_ends push
tasks_of-push_ends zero queue = refl
tasks_of-push_ends (suc n) queue =
    tasks_of-push_ends n (queue ++ end_task ∷ [])
    ∙ tasks_of-append queue (end_task ∷ [])
    ∙ append-nil (tasks_of queue)

-- A worker begins the task at the front, or none.
front_begun :
    (p : Pool) (queue : List Item)
    → p.queue ≡ queue
    → tasks_of queue ≡ begun_at fetching (take p queue).1 ++ tasks_of (take p queue).0.queue
unfolding take
front_begun p [] e = ap tasks_of (sym e)
front_begun p (end_task ∷ rest) e = refl
front_begun p (task x ∷ rest) e = refl

worker_step-tasks_of :
    (u : Input) (p : Pool) (i : ℕ) (pc : WorkerPc)
    → tasks_of p.queue
      ≡ begun_at pc (worker_step u p i pc).1 ++ tasks_of (worker_step u p i pc).0.queue
unfolding worker_step
worker_step-tasks_of u p i pc =
    elim pc
      as (λ c.
        tasks_of p.queue
        ≡ begun_at c (worker_step u p i c).1 ++ tasks_of (worker_step u p i c).0.queue) [
          | fetching ↦
              if_elim
                (λ (r : Pool × WorkerPc).
                  tasks_of p.queue ≡ begun_at fetching r.1 ++ tasks_of r.0.queue)
                u.expires (λ _. refl) (λ _. front_begun p p.queue refl)
          | comparing n ↦
              if_elim (λ (q : Pool). tasks_of p.queue ≡ tasks_of q.queue) (leb (length p.threads) n)
                (λ _. refl) (λ _. refl)
          | _ ↦ refl
        ]

subs-queue : (p : Pool) (ids : List ℕ) → (sub_worker_threads p ids).queue ≡ p.queue
unfolding sub_worker_threads
subs-queue p [] = refl
subs-queue p (id ∷ ids) =
    subs-queue (sub_worker_thread p id).0 ids
    ∙ if_elim (λ (r : Pool × Bool). r.0.queue ≡ p.queue) (has p.threads id) (λ _. refl) (λ _. refl)

sub_vector-queue : (p : Pool) → (sub_vector p).queue ≡ p.queue
unfolding sub_vector
sub_vector-queue p = ground (arith, subs-queue p p.sub_worker_thread_id)

shut_step-tasks_of :
    (fails : ℕ → Bool) (p : Pool) (pc : ShutPc)
    → tasks_of (shut_step fails p pc).0.queue ≡ tasks_of p.queue
unfolding shut_step
shut_step-tasks_of fails p pc =
    elim pc as (λ c. tasks_of (shut_step fails p c).0.queue ≡ tasks_of p.queue) [
      | stopping ↦ tasks_of-push_ends (length p.threads) p.queue
      | outside ↦ refl
      | _ ↦ refl
    ]

do_add_task-tasks_of :
    (p : Pool) (x : Option ℕ)
    → tasks_of p.queue ++ accepted (do_add_task p x).1 ≡ tasks_of (do_add_task p x).0.queue
unfolding do_add_task push
do_add_task-tasks_of p none = append-nil (tasks_of p.queue)
do_add_task-tasks_of p (some x) =
    if_elim (λ (r : Pool × Option ℕ). tasks_of p.queue ++ accepted r.1 ≡ tasks_of r.0.queue)
      p.is_request_shut_down (λ _. append-nil (tasks_of p.queue))
      (λ _. sym (tasks_of-append p.queue (task x ∷ [])))

Step-tasks_of :
    {s t : System} (st : Step s t)
    → tasks_of s.pool.queue ++ added_by st ≡ begun_by st ++ tasks_of t.pool.queue
unfolding push
Step-tasks_of {s} (adds x) = do_add_task-tasks_of s.pool x
Step-tasks_of {s} (pushes_late x) = sym (tasks_of-append s.pool.queue (task x ∷ []))
Step-tasks_of {s} (works u i free) =
    append-nil (tasks_of s.pool.queue) ∙ worker_step-tasks_of u s.pool i (s.worker i)
Step-tasks_of {s} (monitor_checks e) = append-nil (tasks_of s.pool.queue)
Step-tasks_of {s} (monitor_wakes expires ok e) = append-nil (tasks_of s.pool.queue)
Step-tasks_of {s} (monitor_creates id e more a pos) = append-nil (tasks_of s.pool.queue)
Step-tasks_of {s} (monitor_inserts id e) = append-nil (tasks_of s.pool.queue)
Step-tasks_of {s} (monitor_erases e gone) =
    append-nil (tasks_of s.pool.queue) ∙ ap tasks_of (sym (sub_vector-queue s.pool))
Step-tasks_of {s} (monitor_acts e enough gone) =
    append-nil (tasks_of s.pool.queue) ∙ ap tasks_of (sym (sub_vector-queue s.pool))
Step-tasks_of {s} (shuts fails j free) =
    append-nil (tasks_of s.pool.queue) ∙ sym (shut_step-tasks_of fails s.pool (s.shut j))

taken_begun :
    (p : Pool) (queue : List Item) (x : ℕ)
    → (take p queue).1 ≡ executing x
    → begun_at fetching (take p queue).1 ≡ x ∷ []
unfolding take
taken_begun p [] x e = absurd (ground (arith, e))
taken_begun p (end_task ∷ rest) x e = absurd (ground (arith, e))
taken_begun p (task y ∷ rest) x e = ground (arith, e)

-- Whatever a worker runs has been begun.
runs_begun :
    (u : Input) (p : Pool) (i x : ℕ) (pc : WorkerPc)
    → (worker_step u p i pc).1 ≡ executing x
    → begun_at pc (worker_step u p i pc).1 ≡ x ∷ []
unfolding worker_step
runs_begun u p i x fetching e =
    if_elim (λ (r : Pool × WorkerPc). r.1 ≡ executing x → begun_at fetching r.1 ≡ x ∷ []) u.expires
      (λ _ e. absurd (ground (arith, e))) (λ _. taken_begun p p.queue x) e
runs_begun u p i x pc e = absurd (ground (arith, e))

-- What holds after the steps: the order, and that workers run what has been begun.
record Order (added begun : List ℕ) (t : System) : Type 0 where
  in_order : added ≡ begun ++ tasks_of t.pool.queue
  runs : (i x : ℕ) → t.worker i ≡ executing x → 0 < count x begun

count-append-left : (x : ℕ) (xs ys : List ℕ) → 0 < count x xs → 0 < count x (xs ++ ys)
count-append-left x xs ys h = omega (arith, count-append xs ys x)

Step-runs :
    {s t : System} (begun : List ℕ) (st : Step s t)
    → ((i x : ℕ) → s.worker i ≡ executing x → 0 < count x begun)
    → (i x : ℕ) → t.worker i ≡ executing x
    → 0 < count x (begun ++ begun_by st)
Step-runs begun (adds y) h i x e = count-append-left x begun [] (h i x e)
Step-runs begun (pushes_late y) h i x e = count-append-left x begun [] (h i x e)
Step-runs {s} begun (works u j free) h i x e =
    update_elim (λ i c. c ≡ executing x → 0 < count x (begun ++ begun_by {s = s} (works u j free)))
      s.worker j _
      (λ e.
        let b = runs_begun u s.pool j x (s.worker j) e in
        omega (
          arith,
          count-append begun (begun_at (s.worker j) (worker_step u s.pool j (s.worker j)).1) x,
          ap (count x) b,
          one x,
        ))
      (λ i e. count-append-left x begun _ (h i x e)) i e
  where
    one : (x : ℕ) → count x (x ∷ []) ≡ 1
    one x = ground arith
Step-runs begun (monitor_checks c) h i x e = count-append-left x begun [] (h i x e)
Step-runs begun (monitor_wakes expires ok c) h i x e = count-append-left x begun [] (h i x e)
Step-runs {s} begun (monitor_creates id c more a pos) h i x e =
    count-append-left x begun [] (h i x (ground (arith, e)))
Step-runs begun (monitor_inserts id c) h i x e = count-append-left x begun [] (h i x e)
Step-runs begun (monitor_erases c gone) h i x e = count-append-left x begun [] (h i x e)
Step-runs begun (monitor_acts c enough gone) h i x e = count-append-left x begun [] (h i x e)
Step-runs begun (shuts fails j free) h i x e = count-append-left x begun [] (h i x e)

-- A pool with an empty queue, none of whose workers runs a task.
pub record Unused (s : System) : Type 0 where
  pub no_tasks : s.pool.queue ≡ []
  pub no_runs : (i x : ℕ) → s.worker i ≢ executing x

Served-Order :
    {s t : System} {added begun : List ℕ} → Unused s → Served s added begun t → Order added begun t
Served-Order v here = record {
  in_order = ap tasks_of (sym v.no_tasks);
  runs = λ i x e. absurd (v.no_runs i x e);
}
Served-Order {added = added} {begun} v
      (then_ {added = before} {begun = bs} {t = t} {u = u} r st ea eb) =
    let o = Served-Order v r in
    record {
      in_order =
          ea
          ∙ ap (λ l. l ++ added_by st) o.in_order
          ∙ append_assoc bs (tasks_of t.pool.queue) (added_by st)
          ∙ ap (λ l. bs ++ l) (Step-tasks_of st)
          ∙ sym (append_assoc bs (begun_by st) (tasks_of u.pool.queue))
          ∙ ap (λ l. l ++ tasks_of u.pool.queue) (sym eb);
      runs = λ i x e. subst (λ l. 0 < count x l) (sym eb) (Step-runs bs st o.runs i x e);
    }

-- A worker of a new pool has no task.
start-Unused :
    (min_thread_size max_thread_size : ℕ) (ids : List ℕ)
    → Unused (start min_thread_size max_thread_size ids)
unfolding new_pool
start-Unused min_thread_size max_thread_size ids = record {
  no_tasks = refl;
  no_runs = λ i x e. ground (arith, e);
}

-- A pool serves its tasks first come, first served, each once, whatever its workers, its monitor, the
-- threads that add tasks and those that shut it down do: the tasks that have been added to a
-- new pool are those that the workers have begun, in this order, followed by those that
-- are in the queue; and what a worker runs is a task that has been begun.
pub begun_in_order :
    (min_thread_size max_thread_size : ℕ) (ids : List ℕ) {added begun : List ℕ} {s : System}
    → Served (start min_thread_size max_thread_size ids) added begun s
    → (added ≡ begun ++ tasks_of s.pool.queue)
      × ((i x : ℕ) → s.worker i ≡ executing x → 0 < count x begun)
begun_in_order min_thread_size max_thread_size ids r =
    let o = Served-Order (start-Unused min_thread_size max_thread_size ids) r in
    (o.in_order, o.runs)
