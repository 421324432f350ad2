-- ===== src/Single/Adding.antt =====
-- `AddTask` without a priority, which takes the time for it: the mode FIFO.
use empool.Base.{
  ℕ, ◌+◌, ◌≤◌, ◌<◌, ◌≡◌, refl, false, Option, some, List, [], ◌∷◌, arith, ap, ◌∙◌, sym, subst,
  ℕ_discrete, length, update,
}
use empool.Heap.{PopHeap, count, contents}
use empool.Heap.Least.{IsLeast-congr}
use empool.Single.{
  Store, Pool, RunMode, is_lifo, priority_of, make_priority_functor_task, zero_priority, push_task,
  do_add_task, add_task, new_pool,
}
use empool.Single.Order.{Ordered, push_task-Ordered}
use empool.Single.Draining.{drain, drain_from, push_task-adds, Increasing, Sorted-unique}

-- Tasks, each with the time at which it is added, in seconds.
abbrev pub Timed : Type 0
Timed = List (ℕ × ℕ)

abbrev pub ids : Timed → List ℕ
ids [] = []
ids ((x, time) ∷ rest) = x ∷ ids rest

unfoldable pub add_all : Store → Pool → Timed → Store × Pool
add_all tasks p [] = (tasks, p)
add_all tasks p ((x, time) ∷ rest) =
    let (tasks', p', result) = add_task tasks p x time in add_all tasks' p' rest

-- Each is added in an earlier second than those after it.
abbrev pub Later : ℕ → Timed → Type 0
Later time [] = Unit {0}
Later time ((x, t) ∷ rest) = (time < t) × Later time rest

abbrev pub InOrder : Timed → Type 0
InOrder [] = Unit {0}
InOrder ((x, time) ∷ rest) = Later time rest × InOrder rest

-- A pool that takes tasks, in which those of the list do not wait yet.
record Ready (tasks : Store) (p : Pool) (xs : List ℕ) : Type 0 where
  mode : is_lifo p.run_mode ≡ false
  open_ : p.is_request_shut_down ≡ false
  ordered : Ordered tasks p
  absent : (y : ℕ) → 0 < count y xs → count y (contents p.task_queue_greater) ≡ 0
  once : (y : ℕ) → count y xs ≤ 1

abbrev with_task : Store → ℕ → ℕ → Store
with_task tasks x time = update tasks x (make_priority_functor_task (zero_priority + time))

add_task-Ready :
    (tasks : Store) (p : Pool) (x time : ℕ) (xs : List ℕ)
    → Ready tasks p (x ∷ xs)
    → Ready (with_task tasks x time) (push_task (with_task tasks x time) p x) xs
unfolding push_task
add_task-Ready tasks p x time xs r =
    let (m, l, c) = push_task-adds (with_task tasks x time) p x r.mode in
    record {
      mode = ground (arith, m, r.mode);
      open_ = ground (arith, r.open_);
      ordered = push_task-Ordered (with_task tasks x time) p x (
          IsLeast-congr (priority_of tasks) (priority_of (with_task tasks x time))
            p.task_queue_greater
            (λ y h. elim (ℕ_discrete x y) [
              | yes same ↦ absurd (
                  ground (
                    arith,
                    r.absent x (ground arith),
                    ap (λ k. count k (contents p.task_queue_greater)) same,
                    h,
                  ))
              | no other ↦ ground arith
            ])
            r.ordered);
      absent = λ y h. ground (arith, c y, r.absent y, r.once y);
      once = λ y. omega (arith, r.once y);
    }

-- The times are the priority values.
abbrev Valued : Store → Timed → Type 0
Valued tasks [] = Unit {0}
Valued tasks ((x, time) ∷ rest) = (priority_of tasks x ≡ zero_priority + time) × Valued tasks rest

-- What the queue and the store are after all calls.
record Added (tasks : Store) (p : Pool) (xs : Timed) (tasks' : Store) (p' : Pool) : Type 0 where
  mode' : is_lifo p'.run_mode ≡ false
  ordered' : Ordered tasks' p'
  number :
      length (contents p'.task_queue_greater) ≡ length xs + length (contents p.task_queue_greater)
  counts :
      (y : ℕ)
      → count y (contents p'.task_queue_greater)
        ≡ count y (ids xs) + count y (contents p.task_queue_greater)
  values : Valued tasks' xs
  others : (y : ℕ) → count y (ids xs) ≡ 0 → priority_of tasks' y ≡ priority_of tasks y

do_add_task-open :
    (tasks : Store) (p : Pool) (x : ℕ)
    → p.is_request_shut_down ≡ false
    → do_add_task tasks p x ≡ (push_task tasks p x, some x)
unfolding do_add_task
do_add_task-open tasks p x h = ground arith

after_one :
    (tasks : Store) (p : Pool) (x time : ℕ) (rest : Timed) (tasks' : Store) (p' : Pool)
    → Ready tasks p (x ∷ ids rest)
    → Added (with_task tasks x time) (push_task (with_task tasks x time) p x) rest tasks' p'
    → Added tasks p ((x, time) ∷ rest) tasks' p'
after_one tasks p x time rest tasks' p' r a =
    let (m, l, c) = push_task-adds (with_task tasks x time) p x r.mode in
    record {
      mode' = a.mode';
      ordered' = a.ordered';
      number = omega (arith, a.number, l);
      counts = λ y. omega (arith, a.counts y, c y);
      values = (a.others x (ground (arith, r.once x)) ∙ ground arith, a.values);
      others = λ y h. a.others y (omega arith) ∙ ground arith;
    }

add_all-Added :
    (tasks : Store) (p : Pool) (xs : Timed)
    → Ready tasks p (ids xs)
    → Added tasks p xs (add_all tasks p xs).0 (add_all tasks p xs).1
unfolding add_all
add_all-Added tasks p [] r = record {
  mode' = r.mode;
  ordered' = r.ordered;
  number = omega arith;
  counts = λ y. omega arith;
  values = tt;
  others = λ y h. refl;
}
add_all-Added tasks p ((x, time) ∷ rest) r =
    subst
      (λ (s : Pool × Option ℕ).
        Added tasks p ((x, time) ∷ rest) (add_all (with_task tasks x time) s.0 rest).0
          (add_all (with_task tasks x time) s.0 rest).1)
      (sym (do_add_task-open (with_task tasks x time) p x r.open_))
      (after_one tasks p x time rest _ _ r (
        add_all-Added (with_task tasks x time) (push_task (with_task tasks x time) p x) rest
          (add_task-Ready tasks p x time (ids rest) r)))

Later-values :
    (tasks : Store) (time : ℕ) (xs : Timed)
    → Later time xs
    → Valued tasks xs
    → (y : ℕ) → 0 < count y (ids xs)
    → zero_priority + time < priority_of tasks y
Later-values tasks time [] l v y h = absurd (omega arith)
Later-values tasks time ((x, t) ∷ rest) (lt, l) (e, v) y h = elim (ℕ_discrete x y) [
  | yes same ↦ subst (λ k. zero_priority + time < priority_of tasks k) same (omega (arith, e, lt))
  | no other ↦ Later-values tasks time rest l v y (ground arith)
]

values-Increasing :
    (tasks : Store) (xs : Timed) → InOrder xs → Valued tasks xs → Increasing tasks (ids xs)
values-Increasing tasks [] o v = tt
values-Increasing tasks ((x, time) ∷ rest) (l, o) (e, v) = (
  λ y h. omega (arith, e, Later-values tasks time rest l v y h),
  values-Increasing tasks rest o v,
)

-- In the mode FIFO, different tasks that are added to a new pool without a priority, each in a later
-- second than the one before, are taken in the order in which they were added.
fifo-taken :
    (lib : PopHeap) (tasks : Store) (mode : RunMode) (xs : Timed)
    → is_lifo mode ≡ false
    → ((y : ℕ) → count y (ids xs) ≤ 1)
    → InOrder xs
    → let (tasks', p') = add_all tasks (new_pool mode) xs in
      drain lib tasks' (length xs) p' ≡ ids xs
fifo-taken lib tasks mode xs not_lifo once in_order =
    let a =
      add_all-Added tasks (new_pool mode) xs (record {
        mode = not_lifo;
        open_ = refl;
        ordered = tt;
        absent = λ y h. refl;
        once = once;
      }) in
    let (tasks', p') = add_all tasks (new_pool mode) xs in
    let (sorted, same) =
      drain_from lib tasks' (length xs) p' a.mode' a.ordered' (omega (arith, a.number)) in
    Sorted-unique tasks' (ids xs) (drain lib tasks' (length xs) p')
      (values-Increasing tasks' xs in_order a.values) sorted
      (λ y. omega (arith, same y, a.counts y))
