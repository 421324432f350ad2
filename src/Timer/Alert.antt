-- ===== src/Timer/Alert.antt =====
-- What holds of the thread of a handler, its queue and its flags between two steps.
use empool.Base.{
  ℕ, ◌*◌, ◌+◌, ◌≤◌, ◌<◌, ◌≡◌, sym, ◌∙◌, ap, ◌⊎◌, inl, inr, Bool, true, false, arith, one_if, ◌==◌,
}
use empool.Heap.{PriorityQueue, empty, count, contents}
use empool.Heap.Least.{by_key, count-push}
use empool.Timer.{Store, new_timer_task, deadline_of, push_task}
use empool.Timer.Handler.{State, Handler}
use empool.Timer.Invariant.{Inv, QueueInv-congr, push_task-Inv}
use empool.Timer.Sleeper.{Rest, awake, asleep, over, asleep_until, busy, System, wake}

abbrev pub Queued : State → ℕ → Type 0
Queued s x = 0 < count x (contents s.handler.queue)

-- What a thread that sleeps relies on.
abbrev pub Sleeps : Store → PriorityQueue → Rest → Type 0
Sleeps tasks queue asleep = queue ≡ empty
Sleeps tasks queue (asleep_until time late) =
    (late < time)
    × ((x : ℕ) → 0 < count x (contents queue) → time ≤ 1000 * deadline_of tasks x + late)
Sleeps tasks queue _ = Unit

-- The thread is out of its loop, or about to leave it, or has an `EndTimerTask` in its queue.
abbrev pub Ending : System → Type 0
Ending s =
    (s.rest ≡ over)
    ⊎ ((x : ℕ) × (s.rest ≡ busy x) × ((s.state.tasks x).is_end ≡ true))
    ⊎ ((x : ℕ) × Queued s.state x × ((s.state.tasks x).is_end ≡ true))

pub record Alert (s : System) : Type 0 where
  pub inv : Inv s.state
  pub ends_new :
      (x : ℕ)
      → Queued s.state x
      → (s.state.tasks x).is_end ≡ true
      → s.state.tasks x ≡ new_timer_task true
  pub rests : Sleeps s.state.tasks s.state.handler.queue s.rest
  pub shut : s.state.handler.is_request_shut_down ≡ true → Ending s ⊎ (s.shutting ≡ true)

pub wake-Sleeps : (tasks : Store) (queue : PriorityQueue) (r : Rest) → Sleeps tasks queue (wake r)
wake-Sleeps tasks queue awake = tt
wake-Sleeps tasks queue asleep = tt
wake-Sleeps tasks queue over = tt
wake-Sleeps tasks queue (asleep_until time late) = tt
wake-Sleeps tasks queue (busy x) = tt

pub still_Ending :
    (s t : System)
    → (s.rest ≡ over → t.rest ≡ over)
    → ((x : ℕ) → s.rest ≡ busy x → t.rest ≡ busy x)
    → ((x : ℕ) → (s.state.tasks x).is_end ≡ true → (t.state.tasks x).is_end ≡ true)
    → ((x : ℕ) → Queued s.state x → Queued t.state x)
    → Ending s
    → Ending t
still_Ending s t o b kinds queued (inl e) = inl (o e)
still_Ending s t o b kinds queued (inr (inl (x, e, k))) = inr (inl (x, b x e, kinds x k))
still_Ending s t o b kinds queued (inr (inr (x, q, k))) = inr (inr (x, queued x q, kinds x k))

abbrev pub at : Store → Handler → Rest → Bool → System
at tasks h r b = record { state = record { tasks = tasks; handler = h }; rest = r; shutting = b }

-- Tasks change, but the deadlines in the queue, the kinds, and the ends in the queue do not.
module _ (tasks tasks' : Store) (h : Handler) where
  retasked-Sleeps :
      (r : Rest)
      → ((x : ℕ) → 0 < count x (contents h.queue) → deadline_of tasks' x ≡ deadline_of tasks x)
      → Sleeps tasks h.queue r
      → Sleeps tasks' h.queue r
  retasked-Sleeps awake e v = tt
  retasked-Sleeps asleep e v = v
  retasked-Sleeps over e v = tt
  retasked-Sleeps (busy x) e v = tt
  retasked-Sleeps (asleep_until time late) e v = (v.0, λ x q. omega (arith, v.1 x q, e x q))

  pub retasked :
      (r : Rest) (b : Bool)
      → ((x : ℕ)
          → 0 < count x (contents h.queue)
          → (deadline_of tasks' x ≡ deadline_of tasks x)
            × ((tasks' x).is_end ≡ (tasks x).is_end)
            × ((tasks x).is_end ≡ true → tasks' x ≡ tasks x))
      → ((x : ℕ) → (tasks x).is_end ≡ true → (tasks' x).is_end ≡ true)
      → Alert (at tasks h r b)
      → Alert (at tasks' h r b)
  retasked r b same kinds v = record {
    inv = QueueInv-congr (λ x q. ((same x q).0, (same x q).1)) v.inv;
    ends_new = λ x q e. let e' = sym (same x q).1 ∙ e in (same x q).2 e' ∙ v.ends_new x q e';
    rests = retasked-Sleeps r (λ x q. (same x q).0) v.rests;
    shut = λ f. elim (v.shut f) [
      | inl e ↦
          inl
            (still_Ending (at tasks h r b) (at tasks' h r b) (λ e. e) (λ x e. e) kinds (λ x q. q) e)
      | inr w ↦ inr w
    ];
  }

-- The end of `PushTask`.
abbrev pub after_push : System → ℕ → Bool → System
after_push s x b = record {
  state = record {
    tasks = s.state.tasks;
    handler = record (s.state.handler) { queue = push_task s.state.tasks s.state.handler.queue x };
  };
  rest = wake s.rest;
  shutting = b;
}

-- A task is pushed that is not in the queue, and the thread is notified.
pub pushed :
    (s : System) (x : ℕ) (b : Bool)
    → count x (contents s.state.handler.queue) ≡ 0
    → ((s.state.tasks x).is_end ≡ false → 0 < deadline_of s.state.tasks x)
    → ((s.state.tasks x).is_end ≡ true → s.state.tasks x ≡ new_timer_task true)
    → (b ≡ s.shutting ⊎ ((s.state.tasks x).is_end ≡ true))
    → Alert s
    → Alert (after_push s x b)
unfolding push_task
pushed s x b absent dated new shuts v = record {
  inv = push_task-Inv s.state.tasks s.state.handler.queue x v.inv absent dated;
  ends_new = λ y q e. ground (arith, more y, v.ends_new y, ap s.state.tasks, new);
  rests = wake-Sleeps s.state.tasks (after_push s x b).state.handler.queue s.rest;
  shut = λ f. elim shuts [
    | inl e ↦ elim (v.shut f) [
      | inl k ↦ inl (
          still_Ending s (after_push s x b) (ap wake) (λ y. ap wake) (λ y e. e)
            (λ y q. omega (arith, more y)) k)
      | inr w ↦ inr (e ∙ w)
    ]
    | inr e ↦ inl (inr (inr (x, ground (arith, more x), e)))
  ];
}
  where
    more :
        (y : ℕ)
        → count y (contents (push_task s.state.tasks s.state.handler.queue x))
          ≡ one_if (y == x) + count y (contents s.state.handler.queue)
    more = count-push (by_key (deadline_of s.state.tasks)) s.state.handler.queue x
