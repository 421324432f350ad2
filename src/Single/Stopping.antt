-- ===== src/Single/Stopping.antt =====
-- From `ShutDown` to the end of the thread.
use empool.Base.{
  ℕ, zero, suc, ◌+◌, ◌≤◌, ◌≡◌, refl, Bool, true, false, some, arith, subst, Bool-cases, inl, inr,
}
use empool.Heap.{PopHeap, PriorityQueue, empty, heap, is_empty, top, push}
use empool.Closeable.{
  request_close, born, checking, working, leaving, finishing, notifying, ended, lost, thread_step,
}
use empool.Single.{
  Store, Pool, stop, is_lifo, is_idle, is_shut_down, push_task, get_task, shut_down, Pc, at,
  fetching, executing, step, compare_func_lesser, compare_func_greater,
}

-- `n` steps of the thread, none of whose tasks throws, with the number of tasks that it begins.
abbrev pub begins : Pc → Pc → ℕ
begins fetching (executing x) = 1
begins _ _ = 0

unfoldable pub drive : PopHeap → Store → ℕ → Pool → Pc → Pool × ℕ
unfolding step
drive lib tasks zero p pc = (p, 0)
drive lib tasks (suc n) p pc =
    let (p', pc') = step lib false tasks p pc in
    let (p'', k) = drive lib tasks n p' pc' in (p'', begins pc pc' + k)

-- Not out of `ThreadFunction` by an exception, nor past its finish action.
abbrev pub is_on : Pc → Bool
is_on (at finishing) = false
is_on (at notifying) = false
is_on (at ended) = false
is_on (at lost) = false
is_on _ = true

-- After at most `n` steps the pool is shut down, and at most `k` tasks have begun.
abbrev pub ShutIn : PopHeap → Store → ℕ → ℕ → Pool → Pc → Type 0
ShutIn lib tasks n k p pc =
    (m : ℕ) × (m ≤ n)
    × (is_shut_down (drive lib tasks m p pc).0.state ≡ true)
    × ((drive lib tasks m p pc).1 ≤ k)

-- One more step before them.
step-ShutIn :
    (lib : PopHeap) (tasks : Store) (n k j : ℕ) (p : Pool) (pc : Pc) (p' : Pool) (pc' : Pc)
    → step lib false tasks p pc ≡ (p', pc')
    → begins pc pc' ≤ j
    → ShutIn lib tasks n k p' pc'
    → ShutIn lib tasks (suc n) (j + k) p pc
unfolding drive
step-ShutIn lib tasks n k j p pc p' pc' e b (m, le, shut, few) =
    subst
      (λ (r : Pool × Pc).
        ShutIn lib tasks n k r.0 r.1 → begins pc r.1 ≤ j → ShutIn lib tasks (suc n) (j + k) p pc)
      e (λ (m, le, shut, few) b. (suc m, omega arith, shut, omega (arith, b, few)))
      (m, le, shut, few) b

-- `GetTask` gives a task unless the queue is empty, and leaves the thread alone.
gets :
    (lib : PopHeap) (tasks : Store) (p : Pool)
    → is_idle p ≡ false
    → ((x : ℕ) × ((get_task lib tasks p).1 ≡ some x)) × ((get_task lib tasks p).0.thread ≡ p.thread)
unfolding get_task
gets lib tasks p e = (got, ground arith)
  where
    root : (q : PriorityQueue) → is_empty q ≡ false → (x : ℕ) × (top q ≡ some x)
    root empty h = absurd (ground arith)
    root (heap t rest) h = (t, refl)

    got : (x : ℕ) × ((get_task lib tasks p).1 ≡ some x)
    got = elim (Bool-cases (is_lifo p.run_mode)) [
      | inl l ↦ let (x, h) = root p.task_queue_lesser (ground arith) in (x, ground (arith, h))
      | inr l ↦ let (x, h) = root p.task_queue_greater (ground arith) in (x, ground (arith, h))
    ]

module _ (lib : PopHeap) (tasks : Store) where
  weaken :
      (n k : ℕ) (p : Pool) (pc : Pc)
      → n ≤ 4
      → k ≤ 1
      → ShutIn lib tasks n k p pc
      → ShutIn lib tasks 4 1 p pc
  weaken n k p pc ln lk (m, le, shut, few) = (m, omega arith, shut, omega arith)

  leaving-ShutIn : (p : Pool) → ShutIn lib tasks 1 0 p (at leaving)
  unfolding drive step
  leaving-ShutIn p = (1, omega arith, refl, omega arith)

  working-ShutIn :
      (p : Pool) → p.thread.is_request_close ≡ true → ShutIn lib tasks 2 0 p (at working)
  unfolding step
  working-ShutIn p r =
      step-ShutIn lib tasks 1 0 0 p (at working) p (at leaving) (ground arith) (omega arith)
        (leaving-ShutIn p)

  executing-ShutIn :
      (p : Pool) (x : ℕ) → p.thread.is_request_close ≡ true → ShutIn lib tasks 3 0 p (executing x)
  unfolding step
  executing-ShutIn p x r =
      step-ShutIn lib tasks 2 0 0 p (executing x) p (at working) refl (omega arith)
        (working-ShutIn p r)

  checking-ShutIn :
      (p : Pool) → p.thread.is_request_close ≡ true → ShutIn lib tasks 2 0 p (at checking)
  unfolding step thread_step
  checking-ShutIn p r =
      step-ShutIn lib tasks 1 0 0 p (at checking) p (at leaving) (ground arith) (omega arith)
        (leaving-ShutIn p)

  born-ShutIn : (p : Pool) → p.thread.is_request_close ≡ true → ShutIn lib tasks 3 0 p (at born)
  unfolding step thread_step
  born-ShutIn p r =
      step-ShutIn lib tasks 2 0 0 p (at born) _ (at checking) refl (omega arith)
        (checking-ShutIn _ r)

  fetching-ShutIn :
      (p : Pool)
      → p.thread.is_request_close ≡ true
      → is_idle p ≡ false
      → ShutIn lib tasks 4 1 p fetching
  unfolding step
  fetching-ShutIn p r e =
      let ((x, got), same) = gets lib tasks p e in
      elim (Bool-cases (tasks x).is_end) [
        | inl end ↦ weaken 2 0 p fetching (omega arith) (omega arith) (
            step-ShutIn lib tasks 1 0 0 p fetching (get_task lib tasks p).0 (at leaving)
              (ground (arith, got)) (omega arith) (leaving-ShutIn _))
        | inr task ↦
            step-ShutIn lib tasks 3 0 1 p fetching (get_task lib tasks p).0 (executing x)
              (ground (arith, got)) (omega arith) (executing-ShutIn _ x (ground (arith, same)))
      ]

  on-ShutIn :
      (p : Pool) (pc : Pc)
      → is_on pc ≡ true
      → p.thread.is_request_close ≡ true
      → is_idle p ≡ false
      → ShutIn lib tasks 4 1 p pc
  on-ShutIn p fetching on r e = fetching-ShutIn p r e
  on-ShutIn p (executing x) on r e =
      weaken 3 0 p (executing x) (omega arith) (omega arith) (executing-ShutIn p x r)
  on-ShutIn p (at born) on r e =
      weaken 3 0 p (at born) (omega arith) (omega arith) (born-ShutIn p r)
  on-ShutIn p (at checking) on r e =
      weaken 2 0 p (at checking) (omega arith) (omega arith) (checking-ShutIn p r)
  on-ShutIn p (at working) on r e =
      weaken 2 0 p (at working) (omega arith) (omega arith) (working-ShutIn p r)
  on-ShutIn p (at leaving) on r e =
      weaken 1 0 p (at leaving) (omega arith) (omega arith) (leaving-ShutIn p)
  on-ShutIn p (at finishing) on r e = absurd (ground arith)
  on-ShutIn p (at notifying) on r e = absurd (ground arith)
  on-ShutIn p (at ended) on r e = absurd (ground arith)
  on-ShutIn p (at lost) on r e = absurd (ground arith)

push_task-busy :
    (tasks : Store) (p : Pool) (x : ℕ)
    → (is_idle (push_task tasks p x) ≡ false) × ((push_task tasks p x).thread ≡ p.thread)
unfolding push_task push
push_task-busy tasks p x = (
  ground (
    arith,
    pushed (compare_func_lesser tasks) p.task_queue_lesser,
    pushed (compare_func_greater tasks) p.task_queue_greater,
  ),
  ground arith,
)
  where
    pushed : (comp : ℕ → ℕ → Bool) (q : PriorityQueue) → is_empty (push comp q x) ≡ false
    pushed comp empty = refl
    pushed comp (heap t rest) = ground arith

-- When no exchange fails for no reason, and no task throws, the thread needs at most four more steps
-- of its own after the first `ShutDown` until the state is `SHUTDOWN`, and begins at most one more
-- task: the others in the queue are given up.
pub shut_down_reached :
    (lib : PopHeap) (tasks : Store) (p : Pool) (pc : Pc) (end : ℕ)
    → is_on pc ≡ true
    → p.is_request_shut_down ≡ false
    → p.thread.is_request_close ≡ false
    → ShutIn lib tasks 4 1 (shut_down false false tasks p end) pc
unfolding shut_down request_close
shut_down_reached lib tasks p pc end on first open_ =
    on-ShutIn lib tasks (shut_down false false tasks p end) pc on
      (ground (arith, (push_task-busy tasks asked end).1))
      (ground (arith, (push_task-busy tasks asked end).0))
  where
    asked : Pool
    asked = record p {
      is_request_shut_down = true;
      state = stop;
      thread = record (p.thread) { is_request_close = true };
    }
