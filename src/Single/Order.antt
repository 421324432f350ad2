-- ===== src/Single/Order.antt =====
-- Which task the thread takes next.
use empool.Base.{
  ℕ, ◌+◌, ◌≤◌, ◌<◌, ◌≡◌, refl, Bool, true, false, Option, some, ◌∷◌, arith, if_elim, one_if, ◌==◌,
  ap, subst, ℕ_discrete,
}
use empool.Heap.{PopHeap, PriorityQueue, empty, heap, count, contents, top, push, pop}
use empool.Heap.Least.{by_key, IsLeast, push-IsLeast, count-pop, pop-IsLeast}
use empool.Closeable.{compare_exchange, working}
use empool.Single.{
  Store, Pool, RunMode, is_lifo, priority_of, compare_func_lesser, push_task, do_add_task, get_task,
  shut_down, Pc, at, fetching, executing, step,
}
use empool.Single.System.{System, Step, adds, advances, shuts, Steps, here, then_, start}

-- The queue of the modes FIFO and PRIORITY has a task of the least priority value at its root.
abbrev pub Ordered : Store → Pool → Type 0
Ordered tasks p = IsLeast (priority_of tasks) p.task_queue_greater

pub push_task-Ordered :
    (tasks : Store) (p : Pool) (x : ℕ) → Ordered tasks p → Ordered tasks (push_task tasks p x)
unfolding push_task
push_task-Ordered tasks p x h =
    if_elim (Ordered tasks) (is_lifo p.run_mode) (λ _. h)
      (λ _. push-IsLeast (priority_of tasks) p.task_queue_greater x h)

pub get_task-Ordered :
    (lib : PopHeap) (tasks : Store) (p : Pool)
    → Ordered tasks p
    → Ordered tasks (get_task lib tasks p).0
unfolding get_task
get_task-Ordered lib tasks p h =
    if_elim (λ (r : Pool × Option ℕ). Ordered tasks r.0) (is_lifo p.run_mode) (λ _. h)
      (λ _. pop-IsLeast lib (priority_of tasks) p.task_queue_greater)

step-Ordered :
    (lib : PopHeap) (escapes : Bool) (tasks : Store) (p : Pool) (pc : Pc)
    → Ordered tasks p
    → Ordered tasks (step lib escapes tasks p pc).0
unfolding step
step-Ordered lib escapes tasks p (at pc) h =
    elim pc as (λ c. Ordered tasks (step lib escapes tasks p (at c)).0) [ working ↦ h | _ ↦ h ]
step-Ordered lib escapes tasks p fetching h = get_task-Ordered lib tasks p h
step-Ordered lib escapes tasks p (executing x) h = h

Step-Ordered :
    {lib : PopHeap} {tasks : Store} {s t : System}
    → Step lib tasks s t
    → Ordered tasks s.pool
    → Ordered tasks t.pool
unfolding do_add_task shut_down
Step-Ordered {tasks = tasks} {s} (adds x) h =
    if_elim (λ (r : Pool × Option ℕ). Ordered tasks r.0) s.pool.is_request_shut_down (λ _. h)
      (λ _. push_task-Ordered tasks s.pool x h)
Step-Ordered {lib} {tasks} {s} (advances escapes) h = step-Ordered lib escapes tasks s.pool s.pc h
Step-Ordered {tasks = tasks} {s} (shuts fails fails_close end) h =
    if_elim (Ordered tasks) (compare_exchange fails s.pool.is_request_shut_down).1
      (λ _. push_task-Ordered tasks _ end h) (λ _. h)

pub Steps-Ordered :
    {lib : PopHeap} {tasks : Store} {s t : System}
    → Ordered tasks s.pool
    → Steps lib tasks s t
    → Ordered tasks t.pool
Steps-Ordered h here = h
Steps-Ordered h (then_ r st) = Step-Ordered st (Steps-Ordered h r)

-- The root is taken out of a queue.
pub pop-top :
    (lib : PopHeap) (key : ℕ → ℕ) (q : PriorityQueue) (x : ℕ)
    → IsLeast key q
    → top q ≡ some x
    → ((y : ℕ)
        → count y (contents q) ≡ one_if (y == x) + count y (contents (pop lib (by_key key) q)))
      × ((y : ℕ) → 0 < count y (contents q) → key x ≤ key y)
pop-top lib key empty x h e = absurd (ground arith)
pop-top lib key (heap t rest) x h e =
    subst
      (λ z.
        ((y : ℕ)
          → count y (t ∷ rest)
            ≡ one_if (y == z) + count y (contents (pop lib (by_key key) (heap t rest))))
        × ((y : ℕ) → 0 < count y (t ∷ rest) → key z ≤ key y))
      the_root
      (
        λ y. ground (arith, count-pop lib (by_key key) t rest y),
        λ y c. elim (ℕ_discrete t y) [
          | yes same ↦ ground (arith, ap key same)
          | no other ↦ h y (ground arith)
        ],
      )
  where
    the_root : t ≡ x
    the_root = ground (arith, e)

-- What `GetTask` does in a queue whose root is its least.
pub get-Ordered :
    (lib : PopHeap) (tasks : Store) (p : Pool) (x : ℕ)
    → Ordered tasks p
    → is_lifo p.run_mode ≡ false
    → (get_task lib tasks p).1 ≡ some x
    → ((y : ℕ)
        → count y (contents p.task_queue_greater)
          ≡ one_if (y == x) + count y (contents (get_task lib tasks p).0.task_queue_greater))
      × ((y : ℕ)
          → 0 < count y (contents p.task_queue_greater)
          → priority_of tasks x ≤ priority_of tasks y)
unfolding get_task
get-Ordered lib tasks p x h mode e =
    let (counts, least) =
      pop-top lib (priority_of tasks) p.task_queue_greater x h (ground (arith, e)) in
    (λ y. ground (arith, counts y), least)

-- In the modes FIFO and PRIORITY, after any steps of the pool, `GetTask` takes out of the queue the
-- task that it returns, and nothing else, and no task in the queue has a lower priority value.
pub get_least :
    (lib : PopHeap) (tasks : Store) (mode : RunMode) {s : System} (x : ℕ)
    → is_lifo s.pool.run_mode ≡ false
    → Steps lib tasks (start mode) s
    → (get_task lib tasks s.pool).1 ≡ some x
    → ((y : ℕ)
        → count y (contents s.pool.task_queue_greater)
          ≡ one_if (y == x) + count y (contents (get_task lib tasks s.pool).0.task_queue_greater))
      × ((y : ℕ)
          → 0 < count y (contents s.pool.task_queue_greater)
          → priority_of tasks x ≤ priority_of tasks y)
get_least lib tasks mode {s} x not_lifo r e =
    get-Ordered lib tasks s.pool x (Steps-Ordered tt r) not_lifo e

push_lesser-top :
    (tasks : Store) (q : PriorityQueue) (x : ℕ)
    → ((y : ℕ) → 0 < count y (contents q) → priority_of tasks y ≤ priority_of tasks x)
    → top (push (compare_func_lesser tasks) q x) ≡ some x
unfolding push
push_lesser-top tasks empty x late = refl
push_lesser-top tasks (heap t rest) x late = ground (arith, late t (ground arith))

-- In the mode LIFO, a task that is added at a time not before that of any task in the queue is the
-- next that `GetTask` returns.
lifo_next :
    (lib : PopHeap) (tasks : Store) (p : Pool) (x : ℕ)
    → is_lifo p.run_mode ≡ true
    → p.is_request_shut_down ≡ false
    → ((y : ℕ)
        → 0 < count y (contents p.task_queue_lesser)
        → priority_of tasks y ≤ priority_of tasks x)
    → (get_task lib tasks (do_add_task tasks p x).0).1 ≡ some x
unfolding get_task do_add_task push_task
lifo_next lib tasks p x mode open_ late =
    ground (arith, push_lesser-top tasks p.task_queue_lesser x late)
