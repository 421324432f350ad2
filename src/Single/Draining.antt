-- ===== src/Single/Draining.antt =====
-- The order in which the thread takes the tasks of a queue, in the modes FIFO and PRIORITY.
use empool.Base.{
  ℕ, zero, suc, ◌+◌, ◌≤◌, ◌<◌, ◌≡◌, refl, false, Option, none, some, List, [], ◌∷◌, arith, one_if,
  ◌==◌, ap, sym, subst, ℕ_discrete, length,
}
use empool.Heap.{PopHeap, PriorityQueue, empty, heap, count, contents, pop}
use empool.Heap.Least.{by_key, count-push, length-push}
use empool.Single.{Store, Pool, RunMode, is_lifo, priority_of, push_task, get_task}
use empool.Single.System.{System, Steps, start}
use empool.Single.Order.{Steps-Ordered, get_least, Ordered, get_task-Ordered, get-Ordered}

-- What calls of `GetTask` return, `n` or fewer if one waits.
abbrev pub taken : Option ℕ → List ℕ → List ℕ
taken none rest = []
taken (some x) rest = x ∷ rest

unfoldable pub drain : PopHeap → Store → ℕ → Pool → List ℕ
drain lib tasks zero p = []
drain lib tasks (suc n) p =
    taken (get_task lib tasks p).1 (drain lib tasks n (get_task lib tasks p).0)

-- Each task has a lower value than those after it, or none has a higher one.
abbrev pub Increasing : Store → List ℕ → Type 0
Increasing tasks [] = Unit {0}
Increasing tasks (x ∷ xs) =
    ((y : ℕ) → 0 < count y xs → priority_of tasks x < priority_of tasks y) × Increasing tasks xs

abbrev pub Sorted : Store → List ℕ → Type 0
Sorted tasks [] = Unit {0}
Sorted tasks (x ∷ xs) =
    ((y : ℕ) → 0 < count y xs → priority_of tasks x ≤ priority_of tasks y) × Sorted tasks xs

get_task-mode :
    (lib : PopHeap) (tasks : Store) (p : Pool) → (get_task lib tasks p).0.run_mode ≡ p.run_mode
unfolding get_task
get_task-mode lib tasks p = ground arith

-- A queue that is not empty gives a task, and has one task less.
get_task-length :
    (lib : PopHeap) (tasks : Store) (p : Pool) (n : ℕ)
    → is_lifo p.run_mode ≡ false
    → length (contents p.task_queue_greater) ≡ suc n
    → ((x : ℕ) × ((get_task lib tasks p).1 ≡ some x))
      × (length (contents (get_task lib tasks p).0.task_queue_greater) ≡ n)
unfolding get_task pop
get_task-length lib tasks p n mode e = at p.task_queue_greater refl
  where
    at :
        (q : PriorityQueue)
        → q ≡ p.task_queue_greater
        → ((x : ℕ) × ((get_task lib tasks p).1 ≡ some x))
          × (length (contents (get_task lib tasks p).0.task_queue_greater) ≡ n)
    at empty s = absurd (ground (arith, s))
    at (heap t []) s = ((t, ground (arith, s)), ground (arith, s))
    at (heap t (a ∷ cs)) s = (
      (t, ground (arith, s)),
      ground (arith, s, lib.select-length (by_key (priority_of tasks)) a cs),
    )

count-none : (xs : List ℕ) (y : ℕ) → length xs ≡ 0 → count y xs ≡ 0
count-none [] y e = refl
count-none (x ∷ xs) y e = absurd (omega arith)

pub drain_from :
    (lib : PopHeap) (tasks : Store) (n : ℕ) (p : Pool)
    → is_lifo p.run_mode ≡ false
    → Ordered tasks p
    → length (contents p.task_queue_greater) ≡ n
    → Sorted tasks (drain lib tasks n p)
      × ((y : ℕ) → count y (drain lib tasks n p) ≡ count y (contents p.task_queue_greater))
unfolding drain
drain_from lib tasks zero p mode h e =
    (tt, λ y. sym (count-none (contents p.task_queue_greater) y e))
drain_from lib tasks (suc n) p mode h e =
    let ((x, got), left) = get_task-length lib tasks p n mode e in
    let (counts, least) = get-Ordered lib tasks p x h mode got in
    let (sorted, same) =
      drain_from lib tasks n (get_task lib tasks p).0 (ground (arith, get_task-mode lib tasks p))
        (get_task-Ordered lib tasks p h) left in
    subst
      (λ o.
        let ys = taken o (drain lib tasks n (get_task lib tasks p).0) in
        Sorted tasks ys × ((y : ℕ) → count y ys ≡ count y (contents p.task_queue_greater)))
      (sym got)
      (
        (λ y c. least y (omega (arith, counts y, same y)), sorted),
        λ y. omega (arith, counts y, same y),
      )

-- What a call of `PushTask` adds.
pub push_task-adds :
    (tasks : Store) (p : Pool) (x : ℕ)
    → is_lifo p.run_mode ≡ false
    → ((push_task tasks p x).run_mode ≡ p.run_mode)
      × (length (contents (push_task tasks p x).task_queue_greater)
          ≡ suc (length (contents p.task_queue_greater)))
      × ((y : ℕ)
          → count y (contents (push_task tasks p x).task_queue_greater)
            ≡ one_if (y == x) + count y (contents p.task_queue_greater))
unfolding push_task
push_task-adds tasks p x mode = (
  ground arith,
  ground (arith, length-push (by_key (priority_of tasks)) p.task_queue_greater x),
  λ y. ground (arith, count-push (by_key (priority_of tasks)) p.task_queue_greater x y),
)

-- In the modes FIFO and PRIORITY, when priority values do not change, in every state that a new pool
-- comes to, whatever tasks are added and whoever shuts it down between the steps of its thread: a
-- task that `GetTask` returns is taken out of the queue, nothing else is, and no task in the queue has
-- a lower priority value; and as long as nothing is added from then on, calls of `GetTask` return
-- what is in the queue in order of the priority values, each task as often as it is there.
pub takes_in_order :
    (lib : PopHeap) (tasks : Store) (mode : RunMode) {s : System}
    → is_lifo s.pool.run_mode ≡ false
    → Steps lib tasks (start mode) s
    → ((x : ℕ)
        → (get_task lib tasks s.pool).1 ≡ some x
        → ((y : ℕ)
            → count y (contents s.pool.task_queue_greater)
              ≡ one_if (y == x)
                + count y (contents (get_task lib tasks s.pool).0.task_queue_greater))
          × ((y : ℕ)
              → 0 < count y (contents s.pool.task_queue_greater)
              → priority_of tasks x ≤ priority_of tasks y))
      × (let ys = drain lib tasks (length (contents s.pool.task_queue_greater)) s.pool in
          Sorted tasks ys × ((y : ℕ) → count y ys ≡ count y (contents s.pool.task_queue_greater)))
takes_in_order lib tasks mode {s} not_lifo r = (
  λ x e. get_least lib tasks mode x not_lifo r e,
  drain_from lib tasks (length (contents s.pool.task_queue_greater)) s.pool not_lifo
      (Steps-Ordered tt r) refl,
)

-- A sorted list of the tasks of an increasing one is that list.
pub Sorted-unique :
    (tasks : Store) (xs ys : List ℕ)
    → Increasing tasks xs
    → Sorted tasks ys
    → ((y : ℕ) → count y ys ≡ count y xs)
    → ys ≡ xs
Sorted-unique tasks [] [] i s c = refl
Sorted-unique tasks [] (y ∷ ys) i s c = absurd (ground (arith, c y))
Sorted-unique tasks (x ∷ xs) [] i s c = absurd (ground (arith, c x))
Sorted-unique tasks (x ∷ xs) (y ∷ ys) (less, i) (least, s) c = elim (ℕ_discrete x y) [
  | yes same ↦ ground (
    arith,
    Sorted-unique tasks xs ys i s (λ z. ground (arith, c z, ap (λ k. one_if (z == k)) same)),
    same,
  )
  | no other ↦ absurd (ground (arith, less y (ground (arith, c y)), least x (ground (arith, c x))))
]
