-- ===== src/Queue/Sections.antt =====
-- The calls of include/empool/BlockingQueue.h as sections under `m_mutex`, statement by statement,
-- with the condition `m_mutexCond`.
use empool.Base.{Bool, true, false, List, [], ◌∷◌, ◌++◌}
use empool.Lock.{Section, mutex_locker, condition_wait_locker, condition_notify_all_locker}
use empool.Queue.{Call, pop, pop_time_wait, front, is_empty}

-- `Push`, the reading calls, and `Size` and `IsEmpty`, which change nothing.
pub data Operation {ℓ} (A : Type ℓ) : Type ℓ where
  push_call : A → Operation A
  read_call : Call → Operation A
  size_call : Operation A

-- `m_queue`; `pushed` and `popped` record, oldest first, what has entered and left it.
pub record Content {ℓ} (A : Type ℓ) : Type ℓ where
  pub queue : List A
  pub pushed : List A
  pub popped : List A

abbrev pub new_content {ℓ} : {A : Type ℓ} → Content A
new_content = record { queue = []; pushed = []; popped = [] }

abbrev pub is_timed : Call → Bool
is_timed pop_time_wait = true
is_timed _ = false

module _ {ℓ} {A : Type ℓ} where
  -- `std::queue::push`, `front` and `pop`.
  abbrev pub push_statement : A → Content A → Content A
  push_statement a s = record s { queue = s.queue ++ a ∷ []; pushed = s.pushed ++ a ∷ [] }

  abbrev pub first : List A → List A
  first [] = []
  first (a ∷ rest) = a ∷ []

  abbrev pub front_statement : Content A → Content A
  front_statement s = record s { popped = s.popped ++ first s.queue }

  abbrev pub without_first : List A → List A
  without_first [] = []
  without_first (a ∷ rest) = rest

  abbrev pub pop_statement : Content A → Content A
  pop_statement s = record s { queue = without_first s.queue }

  -- The statements of a reading call after its wait.
  abbrev pub read_body : Call → List (Content A → Content A)
  read_body front = []
  read_body pop = front_statement ∷ pop_statement ∷ []
  read_body pop_time_wait = front_statement ∷ pop_statement ∷ []

  abbrev pub is_content_empty : Content A → Bool
  is_content_empty s = is_empty s.queue

  abbrev pub code : Operation A → Section (Content A)
  code (push_call a) = condition_notify_all_locker is_content_empty (push_statement a ∷ [])
  code (read_call c) = condition_wait_locker (is_timed c) is_content_empty (read_body c) []
  code size_call = mutex_locker []
