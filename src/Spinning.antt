-- ===== src/Spinning.antt =====
-- src/NoBlockingTaskQueue.cpp: a queue whose readers spin, over a `boost::lockfree::queue`. Tasks
-- are addresses, and 0 is the null pointer.
pub mod Popping
mod Examples
use empool.Base.{ℕ, zero, suc, ◌≡◌, Bool, true, false, Option, none, some, List, [], ◌∷◌, ◌++◌}

-- What Boost documents of `boost::lockfree::queue`: `push` appends the object, and returns true, if
-- a node can be had, and `pop` takes the first object, or returns false if there is none. The
-- number is the one that the constructor reserves nodes for.
pub record LockfreeQueue : Type 1 where
  pub Queue : Type 0
  pub contents : Queue → List ℕ
  pub reserve : ℕ → Queue
  pub push : Queue → ℕ → Queue × Bool
  pub pop : Queue → Queue × Option ℕ
  pub reserve-contents : (n : ℕ) → contents (reserve n) ≡ []
  pub push-contents :
      (q : Queue) (x : ℕ) → (push q x).1 ≡ true → contents (push q x).0 ≡ contents q ++ x ∷ []
  pub push_failed-contents :
      (q : Queue) (x : ℕ) → (push q x).1 ≡ false → contents (push q x).0 ≡ contents q
  pub pop-nil : (q : Queue) → contents q ≡ [] → ((pop q).1 ≡ none) × (contents (pop q).0 ≡ [])
  pub pop-cons :
      (q : Queue) (x : ℕ) (rest : List ℕ)
      → contents q ≡ x ∷ rest
      → ((pop q).1 ≡ some x) × (contents (pop q).0 ≡ rest)

-- How `Pop` ends: with a task, or by its assertion on a null pointer.
pub data Popped : Type 0 where
  task : ℕ → Popped
  assertion_failed : Popped

abbrev pub checked : ℕ → Popped
checked zero = assertion_failed
checked (suc x) = task (suc x)

module _ (lib : LockfreeQueue) where
  open lib use {Queue, contents, reserve, push, pop}

  -- The constructor.
  abbrev pub new_queue : Queue
  new_queue = reserve 1024

  -- `Push`, which does not look at what `push` returns.
  abbrev pub push_task : Queue → ℕ → Queue
  push_task q x = (push q x).0

  -- What other threads push.
  unfoldable pub push_tasks : Queue → List ℕ → Queue
  push_tasks q [] = q
  push_tasks q (x ∷ xs) = push_tasks (push_task q x) xs

  abbrev pub or_again : Queue → Option ℕ → Queue × Option Popped → Queue × Option Popped
  or_again q (some x) rest = (q, some (checked x))
  or_again q none rest = rest

  -- `Pop`, with fuel for its loop; before attempt `k` other threads push `others k`.
  unfoldable pub pop_task :
      (fuel : ℕ) → (others : ℕ → List ℕ) → (k : ℕ) → Queue → Queue × Option Popped
  unfolding push_tasks
  pop_task zero others k q = (q, none)
  pop_task (suc fuel) others k q =
      let (q', x) = pop (push_tasks q (others k)) in
      let rest = pop_task fuel others (suc k) q' in or_again q' x rest
