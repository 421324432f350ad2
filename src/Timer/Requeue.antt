-- ===== src/Timer/Requeue.antt =====
-- What becomes of a task that fires: a cron task leaves the queue, a cycle task comes back to it.
use empool.Base.{
  ℕ, ◌+◌, ◌^◌, ◌<◌, ◌≡◌, refl, ap, subst, ◌⊎◌, inl, inr, true, false, List, arith, one_if, ◌==◌,
}
use empool.Heap.{PopHeap, PriorityQueue, empty, heap, count, contents}
use empool.Heap.Least.{by_key, count-push, count-pop}
use empool.Timer.{Store, deadline_of, push_task, pop_min, pop_min_and_push}
use empool.Timer.Handler.{
  State, pass, fires, drops, fires_asked, fires_again, fires_once, sleeps, popped, renewed, again,
}
use empool.Timer.Invariant.{Inv}
use empool.Timer.Firing.{stops, idles, goes, pass-Cases}

pub count-pop_min :
    (lib : PopHeap) (tasks : Store) (q : PriorityQueue) {r : ℕ} {rest : List ℕ}
    → q ≡ heap r rest
    → (y : ℕ) → count y (contents (pop_min lib tasks q)) + one_if (y == r) ≡ count y (contents q)
unfolding pop_min
count-pop_min lib tasks q {r} {rest} e y =
    rw e (omega (arith, count-pop lib (by_key (deadline_of tasks)) r rest y))

pub count-pop_min_and_push :
    (lib : PopHeap) (tasks : Store) (q : PriorityQueue) (y : ℕ)
    → count y (contents (pop_min_and_push lib tasks q)) ≡ count y (contents q)
unfolding pop_min_and_push push_task pop_min
count-pop_min_and_push lib tasks empty y = refl
count-pop_min_and_push lib tasks (heap r rest) y = omega (
  arith,
  count-push (by_key (deadline_of tasks)) (pop_min lib tasks (heap r rest)) r y,
  count-pop lib (by_key (deadline_of tasks)) r rest y,
)

-- A cycle task comes back.
abbrev pub Stays : (now : ℕ) → State → ℕ → State → Type 0
Stays now s x t =
    (0 < (s.tasks x).interval)
    × ((s.tasks x).task.is_request_cancel ≡ false)
    × (count x (contents t.handler.queue) ≡ 1)
    × (deadline_of t.tasks x ≡ now + (s.tasks x).interval)
    × ((y : ℕ) → ¬ (x ≡ y) → t.tasks y ≡ s.tasks y)
    × ((y : ℕ) → count y (contents t.handler.queue) ≡ count y (contents s.handler.queue))

-- Any other task is gone.
abbrev pub Leaves : State → ℕ → State → Type 0
Leaves s x t =
    (((s.tasks x).interval ≡ 0) ⊎ ((s.tasks x).task.is_request_cancel ≡ true))
    × (count x (contents t.handler.queue) ≡ 0)
    × (t.tasks ≡ s.tasks)
    × ((y : ℕ)
        → count y (contents t.handler.queue) + one_if (y == x) ≡ count y (contents s.handler.queue))

module _ (lib : PopHeap) (now : ℕ) where
  root_once :
      (s : State) {r : ℕ} {rest : List ℕ}
      → Inv s
      → s.handler.queue ≡ heap r rest
      → count r (contents s.handler.queue) ≡ 1
  root_once s {r} {rest} v q = ground (arith, v.once r, ap (λ z. count r (contents z)) q)

  stays :
      (s : State) {r : ℕ} {rest : List ℕ}
      → Inv s
      → now + (s.tasks r).interval < 2 ^ 64
      → s.handler.queue ≡ heap r rest
      → 0 < (s.tasks r).interval
      → (s.tasks r).task.is_request_cancel ≡ false
      → Stays now s r (again lib now s r)
  stays s {r} v fits q i a =
      (i, a, omega (arith, same r, root_once s v q), ground arith, λ y ne. ground arith, same)
    where
      same :
          (y : ℕ)
          → count y (contents (again lib now s r).handler.queue)
            ≡ count y (contents s.handler.queue)
      same = count-pop_min_and_push lib (renewed lib now s r) s.handler.queue

  leaves :
      (s : State) {r : ℕ} {rest : List ℕ}
      → Inv s
      → s.handler.queue ≡ heap r rest
      → ((s.tasks r).interval ≡ 0) ⊎ ((s.tasks r).task.is_request_cancel ≡ true)
      → Leaves s r (popped lib now s r)
  leaves s {r} v q why = (why, ground (arith, gone r, root_once s v q), refl, gone)
    where
      gone :
          (y : ℕ)
          → count y (contents (popped lib now s r).handler.queue) + one_if (y == r)
            ≡ count y (contents s.handler.queue)
      gone = count-pop_min lib s.tasks s.handler.queue q

  -- The same task and state under other names.
  renamed :
      (s : State) {t u : State} {r x : ℕ}
      → pass lib now s ≡ (u, fires r)
      → pass lib now s ≡ (t, fires x)
      → Stays now s r u ⊎ Leaves s r u
      → Stays now s x t ⊎ Leaves s x t
  renamed s {t} {u} {r} {x} p e h =
      let same_task : r ≡ x = cc in
      let same_state : u ≡ t = cc in
      subst (λ z. Stays now s x z ⊎ Leaves s x z) same_state
        (subst (λ z. Stays now s z u ⊎ Leaves s z u) same_task h)

  -- A cycle task that is not to be cancelled stays in the queue, once, when it fires, and is due
  -- again an interval after this pass. Any other task that fires leaves the queue, with its times
  -- as they were. No other task is moved or changed.
  pub fired_task :
      (s : State) {t : State} {x : ℕ}
      → Inv s
      → ((y : ℕ) → now + (s.tasks y).interval < 2 ^ 64)
      → pass lib now s ≡ (t, fires x)
      → Stays now s x t ⊎ Leaves s x t
  fired_task s v fits e = elim (pass-Cases lib now s) [
    | stops c p ↦ cc
    | idles c q p ↦ cc
    | goes r rest c q res ↦ elim res [
      | drops k p ↦ cc
      | fires_asked k a p ↦ renamed s p e (inr (leaves s v q (inr a)))
      | fires_again k a d i p ↦ renamed s p e (inl (stays s v (fits r) q i a))
      | fires_once k a d i p ↦ renamed s p e (inr (leaves s v q (inl i)))
      | sleeps k a d p ↦ cc
    ]
  ]
