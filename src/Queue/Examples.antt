-- ===== src/Queue/Examples.antt =====
-- The theorems on the queue at concrete runs.
use empool.Base.{
  ℕ_discrete, Option, none, some, ℕ, ◌+◌, ◌≡◌, refl, inl, [], ◌∷◌, ◌++◌, update, length,
}
use empool.Lock.System as Fine
use empool.Lock.Refinement.{abs}
use empool.Queue.Sections.{Operation, push_call, read_call, Content, new_content, code}
use empool.Queue.Matching.{as_queue}
use empool.Queue.Refinement.{sections_refine}
use empool.Queue.{ReadPc, Call, pop, pop_time_wait, waiting, got, push, read, size}
use empool.Queue.System.{System, pushes, enter, Steps, here, then_, start}
use empool.Queue.Order.{fifo}

-- Reader 1 waits in `PopTimeWait`.
abbrev one_waits : System ℕ
one_waits = record {
  queue = [];
  reader = update (start {A = ℕ}).reader 1 (waiting pop_time_wait);
  pushed = [];
  popped = [];
}

one_waits-Steps : Steps start one_waits
unfolding read
one_waits-Steps = then_ here (enter 1 pop_time_wait (inl refl))

-- Two elements are pushed, and one is popped.
abbrev one_left : System ℕ
one_left = record {
  queue = 9 ∷ [];
  reader = update (start {A = ℕ}).reader 1 (got pop 8);
  pushed = 8 ∷ 9 ∷ [];
  popped = 8 ∷ [];
}

one_left-Steps : Steps start one_left
unfolding push read
one_left-Steps = then_ (then_ (then_ here (pushes 8)) (pushes 9)) (enter 1 pop (inl refl))

fifo_example :
    (one_left.pushed ≡ one_left.popped ++ one_left.queue)
    × (length one_left.popped + size one_left.queue ≡ length one_left.pushed)
fifo_example = fifo one_left-Steps

abbrev FineState : Type 0
FineState = Fine.System (Operation ℕ) (Content ℕ)

-- Thread `i` moves to `p`, and leaves this owner; the queue is empty still.
abbrev next : FineState → ℕ → Fine.Pc (Operation ℕ) (Content ℕ) → Option ℕ → FineState
next s i p owner = record { shared = new_content; owner = owner; pc = update s.pc i p }

abbrev asleep_1 : FineState
asleep_1 =
    next
      (next (next (Fine.start new_content) 1 (Fine.locking (read_call pop)) none) 1
        (Fine.testing (read_call pop)) (some 1))
      1 (Fine.asleep (read_call pop)) none

asleep_1-Steps : Fine.Steps code (Fine.start new_content) asleep_1
unfolding ℕ_discrete
asleep_1-Steps =
    Fine.then_
      (Fine.then_ (Fine.then_ Fine.here (Fine.enters 1 (read_call pop) refl))
        (Fine.locks 1 (read_call pop) refl refl))
      (Fine.tests 1 1 (read_call pop) refl)

-- Reader 1 sleeps in `Pop`, and thread 0 is about to push.
abbrev about_to_push : FineState
about_to_push = next asleep_1 0 (Fine.locking (push_call 7)) none

about_to_push-Steps : Fine.Steps code (Fine.start new_content) about_to_push
unfolding ℕ_discrete
about_to_push-Steps = Fine.then_ asleep_1-Steps (Fine.enters 0 (push_call 7) refl)

sections_refine_example :
    (reader : ℕ → ReadPc ℕ) × Steps start (as_queue (abs about_to_push).shared reader)
    × ((i : ℕ) (c : Call)
        → about_to_push.pc i ≡ Fine.asleep (read_call c)
        → (reader i ≡ waiting c) × ((abs about_to_push).shared.queue ≡ []))
sections_refine_example = sections_refine about_to_push-Steps
