-- ===== src/Timer/Firing.antt =====
-- What the thread of a handler does in one pass through its loop.
use empool.Base.{
  ℕ, ◌+◌, ◌-◌, ◌≤◌, ◌<◌, ◌≡◌, refl, ◌⊎◌, inl, inr, true, false, List, ◌∷◌, some, arith, Bool-cases,
  subst, sym, ap,
}
use empool.Heap.{PopHeap, PriorityQueue, empty, heap, count, contents, top}
use empool.Heap.Least.{IsLeast}
use empool.Task.{is_cancelled}
use empool.Timer.{deadline_of}
use empool.Timer.Handler.{
  State, pass, pass_min, waits, closed, dropped, fires, timed_wait, Result, drops, fires_asked,
  fires_again, fires_once, sleeps, pass_min-Result,
}
use empool.Timer.Invariant.{Inv}

pub root_least :
    (key : ℕ → ℕ) (q : PriorityQueue) {r : ℕ} {rest : List ℕ}
    → q ≡ heap r rest
    → IsLeast key q
    → (y : ℕ) → 0 < count y (contents q)
    → key r ≤ key y
root_least key q {r} {rest} e h y p =
    at_root (subst (IsLeast key) e h) (subst (λ q. 0 < count y (contents q)) e p)
  where
    at_root : ((x : ℕ) → 0 < count x rest → key r ≤ key x) → 0 < count y (r ∷ rest) → key r ≤ key y
    at_root h p = ground (arith, h y)

module _ (lib : PopHeap) (now : ℕ) where
  abbrev pub Fireable : State → ℕ → Type 0
  Fireable s x =
      (top s.handler.queue ≡ some x)
      × (is_cancelled (s.tasks x).task.state ≡ false)
      × (((s.tasks x).task.is_request_cancel ≡ true) ⊎ (deadline_of s.tasks x ≤ now))
      × ((y : ℕ)
          → 0 < count y (contents s.handler.queue)
          → deadline_of s.tasks x ≤ deadline_of s.tasks y)

  -- A pass ends by the exception, waits for a task, or goes by the task at the root.
  pub data Cases (s : State) : Type 0 where
    stops : s.handler.thread.is_request_close ≡ true → pass lib now s ≡ (s, closed) → Cases s
    idles :
        s.handler.thread.is_request_close ≡ false
        → s.handler.queue ≡ empty
        → pass lib now s ≡ (s, waits)
        → Cases s
    goes :
        (t : ℕ) (rest : List ℕ)
        → s.handler.thread.is_request_close ≡ false
        → s.handler.queue ≡ heap t rest
        → Result lib now s t (pass lib now s)
        → Cases s

  pass-Cases_at : (s : State) (q : PriorityQueue) → s.handler.queue ≡ q → Cases s
  unfolding pass
  pass-Cases_at s empty e = elim (Bool-cases s.handler.thread.is_request_close) [
    | inl c ↦ stops c (ground arith)
    | inr c ↦ idles c e (ground arith)
  ]
  pass-Cases_at s (heap t rest) e = elim (Bool-cases s.handler.thread.is_request_close) [
    | inl c ↦ stops c (ground arith)
    | inr c ↦
        goes t rest c e (subst (Result lib now s t) (sym (by_root c)) (pass_min-Result lib now s t))
  ]
    where
      by_root : s.handler.thread.is_request_close ≡ false → pass lib now s ≡ pass_min lib now s t
      by_root c = ground arith

  pub pass-Cases : (s : State) → Cases s
  pass-Cases s = pass-Cases_at s s.handler.queue refl

  -- A task fires only if it is due or a cancel of it is requested, and it is not cancelled; it is
  -- the one at the root of the queue, and no task in the queue is due before it.
  fires_due :
      (s : State) {t : State} {x : ℕ}
      → Inv s
      → pass lib now s ≡ (t, fires x)
      → (top s.handler.queue ≡ some x)
        × (is_cancelled (s.tasks x).task.state ≡ false)
        × (((s.tasks x).task.is_request_cancel ≡ true) ⊎ (deadline_of s.tasks x ≤ now))
        × ((y : ℕ)
            → 0 < count y (contents s.handler.queue)
            → deadline_of s.tasks x ≤ deadline_of s.tasks y)
  fires_due s v e = elim (pass-Cases s) [
    | stops c p ↦ cc
    | idles c q p ↦ cc
    | goes r rest c q res ↦ elim res [
      | drops k p ↦ cc
      | fires_asked k a p ↦
          subst (Fireable s) (cc) (ap top q, k, inl a, root_least _ s.handler.queue q v.least)
      | fires_again k a d i p ↦
          subst (Fireable s) (cc) (ap top q, k, inr d, root_least _ s.handler.queue q v.least)
      | fires_once k a d i p ↦
          subst (Fireable s) (cc) (ap top q, k, inr d, root_least _ s.handler.queue q v.least)
      | sleeps k a d p ↦ cc
    ]
  ]

  -- A wait with a time limit changes nothing, and its time is just what is left up to the first
  -- deadline of the queue, all of which are still to come.
  sleeps_until_due :
      (s : State) {t : State} {w : ℕ}
      → Inv s
      → pass lib now s ≡ (t, timed_wait w)
      → (t ≡ s)
        × (0 < w)
        × ((x : ℕ) × (top s.handler.queue ≡ some x) × (now + w ≡ deadline_of s.tasks x))
        × ((y : ℕ) → 0 < count y (contents s.handler.queue) → now + w ≤ deadline_of s.tasks y)
  sleeps_until_due s {t} {w} v e = elim (pass-Cases s) [
    | stops c p ↦ cc
    | idles c q p ↦ cc
    | goes r rest c q res ↦ elim res [
      | drops k p ↦ cc
      | fires_asked k a p ↦ cc
      | fires_again k a d i p ↦ cc
      | fires_once k a d i p ↦ cc
      | sleeps k a d p ↦
          let left : deadline_of s.tasks r - now ≡ w = cc in
          (
            cc,
            omega (arith, left),
            (r, ap top q, omega (arith, left)),
            λ y h. omega (arith, left, root_least _ s.handler.queue q v.least y h),
          )
    ]
  ]

  fires_or_drops :
      (s : State) (y : ℕ)
      → Inv s
      → s.handler.thread.is_request_close ≡ false
      → 0 < count y (contents s.handler.queue)
      → deadline_of s.tasks y ≤ now
      → ((pass lib now s).1 ≡ dropped) ⊎ ((x : ℕ) × ((pass lib now s).1 ≡ fires x))
  fires_or_drops s y v open_ has due = elim (pass-Cases s) [
    | stops c p ↦ cc
    | idles c q p ↦ absurd (omega (arith, ap (λ z. count y (contents z)) q))
    | goes r rest c q res ↦ elim res [
      | drops k p ↦ inl (ap (λ z. z.1) p)
      | fires_asked k a p ↦ inr (r, ap (λ z. z.1) p)
      | fires_again k a d i p ↦ inr (r, ap (λ z. z.1) p)
      | fires_once k a d i p ↦ inr (r, ap (λ z. z.1) p)
      | sleeps k a d p ↦ absurd (omega (arith, root_least _ s.handler.queue q v.least y has))
    ]
  ]

  -- A due task is not kept waiting: unless the thread is to close, a pass with a task in the queue
  -- whose deadline has come drops a cancelled one, or fires a task: the one at the root of the
  -- queue, which no task in the queue is due before, and which is not cancelled, and is due unless
  -- a cancel of it is requested.
  pub due_makes_progress :
      (s : State) (y : ℕ)
      → Inv s
      → s.handler.thread.is_request_close ≡ false
      → 0 < count y (contents s.handler.queue)
      → deadline_of s.tasks y ≤ now
      → ((pass lib now s).1 ≡ dropped) ⊎ ((x : ℕ) × ((pass lib now s).1 ≡ fires x) × Fireable s x)
  due_makes_progress s y v open_ has due = elim (fires_or_drops s y v open_ has due) [
    | inl d ↦ inl d
    | inr (x, e) ↦ inr (x, e, fires_due s v (ap (λ k. ((pass lib now s).0, k)) e))
  ]
