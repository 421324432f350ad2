-- ===== src/Timer/Oversleeping.antt =====
-- The thread of a handler does not sleep past a deadline, nor past a shutting down.
use empool.Base.{◌*◌, ◌+◌, ℕ, ◌≤◌, ◌<◌, ◌≡◌, subst, ap, ◌⊎◌, inl, inr, true, false, arith}
use empool.Heap.{PopHeap, empty, count, contents}
use empool.Task.{Work}
use empool.Timer.{Store, deadline_of}
use empool.Timer.Handler.{State, closed, fires, pass, ends, fire}
use empool.Timer.Firing.{stops, idles, goes, pass-Cases}
use empool.Timer.Sleeper.{awake, asleep, over, asleep_until, busy, System, Reach, first, later}
use empool.Timer.Alert.{Queued, Sleeps, Ending, Alert}
use empool.Timer.Waking.{Result-Passed, ending_queue}
use empool.Timer.Kept.{Step-Alert}

module _ (lib : PopHeap) where
  Reach-Alert : {tasks : Store} {s : System} → Reach lib tasks s → Alert s
  Reach-Alert first = record {
    inv = record { least = tt; once = λ x. omega arith; dated = λ x p f. absurd (omega arith) };
    ends_new = λ x q e. absurd (omega arith);
    rests = tt;
    shut = λ f. absurd (ground arith);
  }
  Reach-Alert (later r st) = Step-Alert lib st (Reach-Alert r)

  -- A thread that is not to end: the handler is not shut down, or its `EndTimerTask` is not pushed
  -- yet.
  not_shut :
      (s : System)
      → Alert s
      → (s.rest ≡ over → ⊥)
      → ((x : ℕ) → s.rest ≡ busy x → ⊥)
      → ((x : ℕ) → Queued s.state x → (s.state.tasks x).is_end ≡ true → ⊥)
      → s.state.handler.is_request_shut_down ≡ true
      → s.shutting ≡ true
  not_shut s v no_over no_busy no_end f = elim (v.shut f) [
    | inr w ↦ w
    | inl (inl o) ↦ absurd (no_over o)
    | inl (inr (inl (x, b, k))) ↦ absurd (no_busy x b)
    | inl (inr (inr (x, q, k))) ↦ absurd (no_end x q k)
  ]

  abbrev Leaves : ℕ → State → Type 0
  Leaves now s =
      ((pass lib now s).1 ≡ closed)
      ⊎ ((x : ℕ) × ((pass lib now s).1 ≡ fires x)
          × ((w : Work) → (fire w (pass lib now s).0 x).1 ≡ ends))

  shut_pass :
      (now : ℕ) (s : System) → Alert s → Ending s → s.rest ≡ awake → 0 < now → Leaves now s.state
  unfolding fire
  shut_pass now s v f e pos = elim (pass-Cases lib now s.state) [
    | stops c p ↦ inl (ap (λ p. p.1) p)
    | idles c none_ p ↦
        ending_queue lib s e f
          (λ x q k. absurd (omega (arith, ap (λ z. count x (contents z)) none_)))
    | goes r rest c root res ↦
        let d = Result-Passed lib now 0 s.state root v.inv pos v.ends_new res in
        ending_queue lib s e f
          (λ x q k. let l = d.leaves x q k in inr (r, l.0, λ w. ground (arith, l.1)))
  ]

  -- The thread of a handler never sleeps past a deadline, but for the time between its two readings
  -- of the clock, nor past a shutting down. In every state that a new handler can come to, whatever
  -- calls add different tasks, access by access, cancel tasks and shut it down: if the thread
  -- sleeps in `Wait`, no task is in the queue; if it sleeps in `TimedWait`, it does so, in
  -- microseconds, until no later than the deadline of any task in the queue and as much time as
  -- `TimeWait` has read the clock after the pass; in both cases the handler is not shut down, or the
  -- call that shuts it down has not pushed its `EndTimerTask` yet. Once
  -- it is shut down and that task is pushed, and the thread is before a pass, the thread ends in
  -- this pass or with the task that it fires then.
  pub never_oversleeps :
      {tasks : Store} {s : System}
      → Reach lib tasks s
      → (s.rest ≡ asleep
          → (s.state.handler.queue ≡ empty)
            × (s.state.handler.is_request_shut_down ≡ true → s.shutting ≡ true))
        × ((time late : ℕ)
            → s.rest ≡ asleep_until time late
            → ((x : ℕ)
                → 0 < count x (contents s.state.handler.queue)
                → time ≤ 1000 * deadline_of s.state.tasks x + late)
              × (s.state.handler.is_request_shut_down ≡ true → s.shutting ≡ true))
        × (s.state.handler.is_request_shut_down ≡ true
            → s.shutting ≡ false
            → s.rest ≡ awake
            → (now : ℕ) → 0 < now
            → ((pass lib now s.state).1 ≡ closed)
              ⊎ ((x : ℕ) × ((pass lib now s.state).1 ≡ fires x)
                  × ((w : Work) → (fire w (pass lib now s.state).0 x).1 ≡ ends)))
  never_oversleeps {s = s} r =
      let v = Reach-Alert r in
      (
        λ e.
            let none_ = subst (Sleeps s.state.tasks s.state.handler.queue) e v.rests in
            (
              none_,
              not_shut s v (ground (arith, e)) (λ x b. ground (arith, e, b))
                  (λ x q k. omega (arith, ap (λ z. count x (contents z)) none_)),
            ),
        λ time late e.
            let until = subst (Sleeps s.state.tasks s.state.handler.queue) e v.rests in
            (
              until.1,
              not_shut s v (λ o. ground (arith, e, o)) (λ x b. ground (arith, e, b))
                  (λ x q k.
                    omega (arith, until.0, until.1 x q, ap (λ t. t.deadline) (v.ends_new x q k))),
            ),
        λ f w e now pos. elim (v.shut f) [
          | inl k ↦ shut_pass now s v k e pos
          | inr w' ↦ absurd (ground (arith, w, w'))
        ],
      )
