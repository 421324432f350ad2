-- ===== src/Queue.antt =====
-- include/empool/BlockingQueue.h, and src/BlockingTaskQueue.cpp, which hands each call on to it: a
-- queue whose readers wait while it is empty. Each call holds the lock except while it waits.
pub mod System
pub mod Order
pub mod Waiters
pub mod Sections
pub mod Matching
pub mod Refinement
mod Examples
use empool.Base.{ℕ, Bool, true, false, List, [], ◌∷◌, ◌++◌, length}

-- `Pop`, `PopTimeWait` and `Front`, in the two versions of each.
pub data Call : Type 0 where
  pop pop_time_wait front : Call

-- Where a reader stands: `got` it has returned with an element, `failed` it has returned false.
pub data ReadPc {ℓ} (A : Type ℓ) : Type ℓ where
  outside failed : ReadPc A
  waiting woken : Call → ReadPc A
  expired : ReadPc A
  got : Call → A → ReadPc A

module _ {ℓ} {A : Type ℓ} where
  -- `std::queue::empty`.
  abbrev pub is_empty : List A → Bool
  is_empty [] = true
  is_empty (_ ∷ _) = false

  -- `Push`: the queue after it, and whether it notifies all, which it does before it pushes.
  unfoldable pub push : List A → A → List A × Bool
  push queue elem = (queue ++ elem ∷ [], is_empty queue)

  -- What a call does once it holds the lock: it waits while the queue is empty, and otherwise
  -- takes the element at the front, which `Front` leaves there.
  unfoldable pub read : Call → List A → List A × ReadPc A
  read c [] = ([], waiting c)
  read front (elem ∷ rest) = (elem ∷ rest, got front elem)
  read c (elem ∷ rest) = (rest, got c elem)

  -- `Size`.
  unfoldable pub size : List A → ℕ
  size queue = length queue
