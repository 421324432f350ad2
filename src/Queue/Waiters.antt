-- ===== src/Queue/Waiters.antt =====
-- What a reader that waits can rely on.
use empool.Base.{ℕ, ◌≡◌, ◌≢◌, Bool, [], ◌∷◌, arith, true, false, if◌then◌else◌}
use empool.Queue.{Call, pop, pop_time_wait, front, got, waiting, woken, push, read}
use empool.Queue.System.{
  System, Step, pushes, enter, go_on, stir, expire, give_up, Steps, here, then_, start, notify_all,
}

abbrev pub is_front : Call → Bool
is_front front = true
is_front _ = false

module _ {ℓ} {A : Type ℓ} where
  abbrev Inv : System A → Type ℓ
  Inv s = (i : ℕ) (c : Call) → s.reader i ≡ waiting c → s.queue ≡ []

  Step-Inv : {s t : System A} → Step s t → Inv s → Inv t
  unfolding push read
  Step-Inv (pushes a) v i c e = ground (arith, v i c)
  Step-Inv (enter k d idle) v i c e = ground (arith, v i c)
  Step-Inv (go_on k d p) v i c e = ground (arith, v i c)
  Step-Inv (stir k d p) v i c e = ground (arith, v i c)
  Step-Inv (expire k p) v i c e = ground (arith, v i c)
  Step-Inv (give_up k p) v i c e = ground (arith, v i c)

  Steps-Inv : {s : System A} → Steps start s → Inv s
  Steps-Inv here i c e = absurd (ground arith)
  Steps-Inv (then_ r st) i c e = Step-Inv st (Steps-Inv r) i c e

  -- No wake-up is lost: in every state that a new queue can come to, a reader that sleeps sleeps
  -- before an empty queue, whatever its call; and a push into such a state leaves no reader
  -- asleep.
  pub no_lost_push :
      {s : System A}
      → Steps start s
      → ((i : ℕ) (c : Call) → s.reader i ≡ waiting c → s.queue ≡ [])
        × ((i : ℕ) (c : Call) (a : A) → notify_all (push s.queue a).1 s.reader i ≢ waiting c)
  unfolding push
  no_lost_push r = (Steps-Inv r, λ i c a e. ground (arith, Steps-Inv r i c))

  -- A reader that sleeps when an element is pushed, and is the next to get the lock, returns with
  -- that element, which `Front` alone leaves in the queue.
  push_reaches_reader :
      {s : System A}
      → Steps start s
      → (i : ℕ) (c : Call) (a : A) → s.reader i ≡ waiting c
      → (notify_all (push s.queue a).1 s.reader i ≡ woken c)
        × ((read c (push s.queue a).0).1 ≡ got c a)
        × ((read c (push s.queue a).0).0 ≡ (if is_front c then a ∷ [] else []))
  unfolding push read
  push_reaches_reader r i pop a e = ground (arith, Steps-Inv r i pop)
  push_reaches_reader r i pop_time_wait a e = ground (arith, Steps-Inv r i pop_time_wait)
  push_reaches_reader r i front a e = ground (arith, Steps-Inv r i front)
