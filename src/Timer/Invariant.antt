-- ===== src/Timer/Invariant.antt =====
-- What holds of a handler's queue between two steps.
use empool.Base.{ℕ, ◌+◌, ◌^◌, ◌≤◌, ◌<◌, ◌≡◌, ap, Bool, false, List, ◌∷◌, arith, if_elim}
use empool.Heap.{PopHeap, PriorityQueue, empty, heap, count, contents}
use empool.Heap.Least.{
  by_key, IsLeast, IsLeast-congr, count-push, push-IsLeast, count-pop, pop-IsLeast,
}
use empool.Clock.{u64}
use empool.Closeable.{Closeable, compare_exchange}
use empool.Timer.{Store, deadline_of, set_deadline, push_task, pop_min, pop_min_and_push}
use empool.Timer.Handler.{
  State, accepts, new_handler, do_add_cron_timer_task, do_add_cycle_timer_task, push_end,
  close_thread, pass, pass_min, Pass, Fired, fire, drops, fires_asked, fires_again, fires_once,
  sleeps, pass_min-Result,
}
use empool.Timer.Steps.{
  Step, adds_cron, adds_cycle, passes, fires, cancels, pushes_end, closes, Steps, here, then_,
}

-- The task at the root is due first; no task is in the queue twice; every task there has a
-- deadline, but for an `EndTimerTask`.
pub record QueueInv (tasks : Store) (q : PriorityQueue) : Type 0 where
  pub least : IsLeast (deadline_of tasks) q
  pub once : (x : ℕ) → count x (contents q) ≤ 1
  pub dated :
      (x : ℕ) → 0 < count x (contents q) → (tasks x).is_end ≡ false → 0 < deadline_of tasks x

abbrev pub Inv : State → Type 0
Inv s = QueueInv s.tasks s.handler.queue

-- Tasks change, but not the deadlines and kinds of those in the queue.
pub QueueInv-congr :
    {tasks tasks' : Store} {q : PriorityQueue}
    → ((x : ℕ)
        → 0 < count x (contents q)
        → (deadline_of tasks' x ≡ deadline_of tasks x) × ((tasks' x).is_end ≡ (tasks x).is_end))
    → QueueInv tasks q
    → QueueInv tasks' q
QueueInv-congr {q = q} e v = record {
  least = IsLeast-congr _ _ q (λ x p. (e x p).0) v.least;
  once = v.once;
  dated = λ x p f. ground (arith, e x p, v.dated x p);
}

-- A task that is not in the queue is pushed, with a deadline or as the end.
pub push_task-Inv :
    (tasks : Store) (q : PriorityQueue) (x : ℕ)
    → QueueInv tasks q
    → count x (contents q) ≡ 0
    → ((tasks x).is_end ≡ false → 0 < deadline_of tasks x)
    → QueueInv tasks (push_task tasks q x)
unfolding push_task
push_task-Inv tasks q x v absent has = record {
  least = push-IsLeast (deadline_of tasks) q x v.least;
  once = λ y. ground (arith, count-push (by_key (deadline_of tasks)) q x y, v.once y);
  dated = λ y p f. ground (arith, count-push (by_key (deadline_of tasks)) q x y, v.dated y);
}

pub pop_min-Inv :
    (lib : PopHeap) (tasks : Store) (t : ℕ) (rest : List ℕ)
    → ((x : ℕ) → count x rest ≤ 1)
    → ((x : ℕ) → 0 < count x rest → (tasks x).is_end ≡ false → 0 < deadline_of tasks x)
    → QueueInv tasks (pop_min lib tasks (heap t rest))
unfolding pop_min
pop_min-Inv lib tasks t rest once dated = record {
  least = pop-IsLeast lib (deadline_of tasks) (heap t rest);
  once = λ x. ground (arith, count-pop lib (by_key (deadline_of tasks)) t rest x, once x);
  dated = λ x p f. ground (arith, count-pop lib (by_key (deadline_of tasks)) t rest x, dated x);
}

-- The root's deadline has changed, and it is taken out and put in again.
pub pop_min_and_push-Inv :
    (lib : PopHeap) (tasks : Store) (t : ℕ) (rest : List ℕ)
    → ((x : ℕ) → count x (t ∷ rest) ≤ 1)
    → ((x : ℕ) → 0 < count x rest → (tasks x).is_end ≡ false → 0 < deadline_of tasks x)
    → ((tasks t).is_end ≡ false → 0 < deadline_of tasks t)
    → QueueInv tasks (pop_min_and_push lib tasks (heap t rest))
unfolding pop_min_and_push
pop_min_and_push-Inv lib tasks t rest once dated has =
    push_task-Inv tasks (pop_min lib tasks (heap t rest)) t
      (pop_min-Inv lib tasks t rest (λ x. omega (arith, once x)) dated) absent has
  where
    absent : count t (contents (pop_min lib tasks (heap t rest))) ≡ 0
    absent = ground (arith, count-pop lib (by_key (deadline_of tasks)) t rest t, once t)

-- One pass keeps the invariant.
module _ (lib : PopHeap) (now : ℕ) (tasks : Store) (flag : Bool) (thread : Closeable) where
  abbrev at : PriorityQueue → State
  at q = record {
    tasks = tasks;
    handler = record { is_request_shut_down = flag; queue = q; thread = thread };
  }

  pass_min-Inv :
      (t : ℕ) (rest : List ℕ)
      → 0 < now
      → now + (tasks t).interval < 2 ^ 64
      → Inv (at (heap t rest))
      → Inv (pass_min lib now (at (heap t rest)) t).0
  pass_min-Inv t rest pos fits v = elim (pass_min-Result lib now (at (heap t rest)) t) [
    | drops c e ↦ rw e popped
    | fires_asked c a e ↦ rw e popped
    | fires_again c a d i e ↦ rw e again
    | fires_once c a d i e ↦ rw e popped
    | sleeps c a d e ↦ rw e v
  ]
    where
      popped : QueueInv tasks (pop_min lib tasks (heap t rest))
      popped =
          pop_min-Inv lib tasks t rest (λ x. omega (arith, v.once x))
            (λ x p. v.dated x (omega arith))

      again : QueueInv (set_deadline tasks t (u64 (now + (tasks t).interval))) (
          pop_min_and_push lib
            (set_deadline tasks t (u64 (now + (tasks t).interval)))
            (heap t rest))
      again =
          pop_min_and_push-Inv lib _ t rest v.once (λ x p f. ground (arith, v.dated x))
            (λ f. ground arith)

  pass-Inv :
      (q : PriorityQueue)
      → 0 < now
      → ((x : ℕ) → now + (tasks x).interval < 2 ^ 64)
      → Inv (at q)
      → Inv (pass lib now (at q)).0
  unfolding pass
  pass-Inv empty pos fits v =
      if_elim (λ (r : State × Pass). Inv r.0) thread.is_request_close (λ _. v) (λ _. v)
  pass-Inv (heap t rest) pos fits v =
      if_elim (λ (r : State × Pass). Inv r.0) thread.is_request_close (λ _. v)
        (λ _. pass_min-Inv t rest pos (fits t) v)

-- A task that `accepts` takes is not in the queue.
accepted_absent :
    (s : State) (x : ℕ)
    → Inv s
    → (s.tasks x).is_end ≡ false
    → deadline_of s.tasks x ≡ 0
    → count x (contents s.handler.queue) ≡ 0
accepted_absent s x v f e = ground (arith, v.dated x)

-- A task that is not in the queue gets its times and is pushed; no other is touched.
push_changed-Inv :
    (s : State) (tasks : Store) (x : ℕ)
    → Inv s
    → count x (contents s.handler.queue) ≡ 0
    → ((y : ℕ)
        → ¬ (x ≡ y)
        → (deadline_of tasks y ≡ deadline_of s.tasks y) × ((tasks y).is_end ≡ (s.tasks y).is_end))
    → ((tasks x).is_end ≡ false → 0 < deadline_of tasks x)
    → QueueInv tasks (push_task tasks s.handler.queue x)
push_changed-Inv s tasks x v absent same has =
    push_task-Inv tasks s.handler.queue x
      (QueueInv-congr
        (λ y p.
          same y (λ e. absurd (omega (arith, ap (λ z. count z (contents s.handler.queue)) e))))
        v)
      absent has

-- Every step keeps the invariant.
pub Step-Inv : {lib : PopHeap} {s t : State} → Step lib s t → Inv s → Inv t
unfolding do_add_cron_timer_task do_add_cycle_timer_task push_end close_thread fire
Step-Inv {s = s} (adds_cron now x delay pos fits user) v =
    if_elim (λ (r : State × Bool). Inv r.0) (accepts s x)
      (λ ok.
        push_changed-Inv s _ x v (accepted_absent s x v user (ground arith)) (λ y ne. ground arith)
          (λ f. ground arith))
      (λ _. v)
Step-Inv {s = s} (adds_cycle now x interval now_too pos fits user) v =
    if_elim (λ (r : State × Bool). Inv r.0) (accepts s x)
      (λ ok.
        push_changed-Inv s _ x v (accepted_absent s x v user (ground arith)) (λ y ne. ground arith)
          (λ f. ground arith))
      (λ _. v)
Step-Inv {lib} {s} (passes now pos fits) v =
    pass-Inv lib now s.tasks s.handler.is_request_shut_down s.handler.thread s.handler.queue pos
      fits v
Step-Inv {s = s} (fires w x) v =
    if_elim (λ (r : State × Fired). Inv r.0) (s.tasks x).is_end (λ _. v)
      (λ _. QueueInv-congr (λ y p. ground arith) v)
Step-Inv (cancels x) v = QueueInv-congr (λ y p. ground arith) v
Step-Inv {s = s} (pushes_end fails end absent) v =
    if_elim (λ (r : State × Bool). Inv r.0)
      (compare_exchange fails s.handler.is_request_shut_down).1
      (λ won. push_changed-Inv s _ end v absent (λ y ne. ground arith) (λ f. ground arith)) (λ _. v)
Step-Inv (closes now fails) v = v

-- The queue of a handler is in order after any steps (calls that add, each in one step, passes,
-- cancels, shutting down): the task that is due first is at its root, no task is in it twice, and
-- each has a deadline, unless it is an `EndTimerTask`.
pub Steps-Inv :
    {lib : PopHeap} {tasks : Store} {t : State}
    → Steps lib (record { tasks = tasks; handler = new_handler }) t
    → Inv t
Steps-Inv here = record {
  least = tt;
  once = λ x. omega arith;
  dated = λ x p f. absurd (omega arith);
}
Steps-Inv (then_ r st) = Step-Inv st (Steps-Inv r)
