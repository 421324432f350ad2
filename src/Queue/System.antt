-- ===== src/Queue/System.antt =====
-- Any number of threads that push to one queue and read from it.
use empool.Base.{ℕ, ◌≡◌, ◌⊎◌, Bool, List, [], ◌∷◌, ◌++◌, update, if◌then◌else◌}
use empool.Queue.{
  Call, pop, pop_time_wait, front, ReadPc, outside, failed, waiting, woken, expired, got, push,
  read,
}

-- `pushed` and `popped` record, oldest first, what has entered and left the queue.
pub record System {ℓ} (A : Type ℓ) : Type ℓ where
  pub queue : List A
  pub reader : ℕ → ReadPc A
  pub pushed : List A
  pub popped : List A

module _ {ℓ} {A : Type ℓ} where
  abbrev pub wake : ReadPc A → ReadPc A
  wake (waiting c) = woken c
  wake p = p

  abbrev pub notify_all : Bool → (ℕ → ReadPc A) → ℕ → ReadPc A
  notify_all b r i = if b then wake (r i) else r i

  -- Not inside a call.
  abbrev pub IsIdle : ReadPc A → Type ℓ
  IsIdle p = (p ≡ outside) ⊎ (p ≡ failed) ⊎ ((c : Call) × (a : A) × (p ≡ got c a))

  -- What a read takes out of the queue.
  abbrev pub taken : ReadPc A → List A
  taken (got front a) = []
  taken (got pop a) = a ∷ []
  taken (got pop_time_wait a) = a ∷ []
  taken _ = []

  -- Thread `i` holds the lock in call `c`, and returns or waits.
  abbrev pub reads : System A → ℕ → Call → System A
  reads s i c = record {
    queue = (read c s.queue).0;
    reader = update s.reader i (read c s.queue).1;
    pushed = s.pushed;
    popped = s.popped ++ taken (read c s.queue).1;
  }

pub data Step {ℓ} {A : Type ℓ} (s : System A) : System A → Type ℓ where
  pushes :
      (a : A)
      → Step s (record {
        queue = (push s.queue a).0;
        reader = notify_all (push s.queue a).1 s.reader;
        pushed = s.pushed ++ a ∷ [];
        popped = s.popped;
      })
  enter : (i : ℕ) (c : Call) → IsIdle (s.reader i) → Step s (reads s i c)
  -- A wait that was notified, or ends for no reason, tests the queue again.
  go_on : (i : ℕ) (c : Call) → s.reader i ≡ woken c → Step s (reads s i c)
  stir :
      (i : ℕ) (c : Call)
      → s.reader i ≡ waiting c
      → Step s (record s { reader = update s.reader i (woken c) })
  -- The time of `PopTimeWait` runs out, and it returns false once it has the lock.
  expire :
      (i : ℕ)
      → s.reader i ≡ waiting pop_time_wait
      → Step s (record s { reader = update s.reader i expired })
  give_up : (i : ℕ) → s.reader i ≡ expired → Step s (record s { reader = update s.reader i failed })

pub data Steps {ℓ} {A : Type ℓ} (s : System A) : System A → Type ℓ where
  here : Steps s s
  then_ : {t u : System A} → Steps s t → Step t u → Steps s u

abbrev pub start {ℓ} : {A : Type ℓ} → System A
start = record { queue = []; reader = λ _. outside; pushed = []; popped = [] }
