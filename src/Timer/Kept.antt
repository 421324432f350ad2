-- ===== src/Timer/Kept.antt =====
-- Every step of a handler, its thread and its callers keeps `Alert`.
use empool.Base.{Bool-cases, ℕ, ◌<◌, ◌≡◌, refl, ap, inl, inr, Bool, false, arith, if_elim}
use empool.Heap.{PopHeap, count, contents}
use empool.Task.{Work, run}
use empool.Timer.{deadline_of, push_task}
use empool.Timer.Handler.{State, close_thread, Fired, fire}
use empool.Timer.Racing.{
  Request, cron, cycle, AddPc, asking, reading, dating, pacing, pushing, returned, add_step,
}
use empool.Timer.Sleeper.{
  after_fire, Rest, awake, over, busy, System, wake, wake_if, is_pushing, Step, adds, passes, runs,
  stirs, expires, cancels, exchanges, exchange, with_end, push_end_task, pushes_end, asks_close,
}
use empool.Timer.Alert.{Queued, Sleeps, Alert, wake-Sleeps, still_Ending, at, retasked, pushed}
use empool.Timer.Waking.{passes-Alert}

module _ (lib : PopHeap) where
  adds-Alert :
      (now : ℕ) (req : Request) (x : ℕ) (p : AddPc) (s : System)
      → (s.state.tasks x).is_end ≡ false
      → count x (contents s.state.handler.queue) ≡ 0
      → (p ≡ pushing → 0 < deadline_of s.state.tasks x)
      → Alert s
      → Alert (record {
        state = (add_step now req x s.state p).0;
        rest = wake_if (is_pushing p) s.rest;
        shutting = s.shutting;
      })
  unfolding add_step push_task
  adds-Alert now req x asking s user absent dated v = v
  adds-Alert now req x reading s user absent dated v = v
  adds-Alert now (cron d) x dating s user absent dated v =
      retasked s.state.tasks _ s.state.handler s.rest s.shutting
        (λ y q. (ground arith, ground arith, λ e. ground arith)) (λ y e. ground arith) v
  adds-Alert now (cycle i b) x dating s user absent dated v =
      retasked s.state.tasks _ s.state.handler s.rest s.shutting
        (λ y q. (ground arith, ground arith, λ e. ground arith)) (λ y e. ground arith) v
  adds-Alert now (cron d) x pacing s user absent dated v = v
  adds-Alert now (cycle i b) x pacing s user absent dated v =
      retasked s.state.tasks _ s.state.handler s.rest s.shutting
        (λ y q. (ground arith, ground arith, λ e. ground arith)) (λ y e. ground arith) v
  adds-Alert now req x pushing s user absent dated v =
      pushed s x s.shutting absent (λ e. dated refl) (λ e. absurd (ground arith)) (inl refl) v
  adds-Alert now req x (returned b) s user absent dated v = v

  -- The thread goes on after a task that is not the end, or after a wait.
  gone_on :
      (s : System) (r : Rest)
      → Sleeps s.state.tasks s.state.handler.queue r
      → ((s.rest ≡ over) → ⊥)
      → ((x : ℕ) → s.rest ≡ busy x → (s.state.tasks x).is_end ≡ false)
      → Alert s
      → Alert (record s { rest = r })
  gone_on s r rests not_over user v = record {
    inv = v.inv;
    ends_new = v.ends_new;
    rests = rests;
    shut = λ f. elim (v.shut f) [
      | inr w ↦ inr w
      | inl (inl o) ↦ absurd (not_over o)
      | inl (inr (inl (x, b, k))) ↦ absurd (ground (arith, user x b, k))
      | inl (inr (inr q)) ↦ inl (inr (inr q))
    ];
  }

  runs-Alert :
      (w : Work) (x : ℕ) (s : System)
      → s.rest ≡ busy x
      → Alert s
      → Alert (record s { state = (fire w s.state x).0; rest = after_fire (fire w s.state x).1 })
  unfolding fire
  runs-Alert w x s b v =
      if_elim (λ (r : State × Fired). Alert (record s { state = r.0; rest = after_fire r.1 }))
        (s.state.tasks x).is_end
        (λ k. record { inv = v.inv; ends_new = v.ends_new; rests = tt; shut = λ f. inl (inl refl) })
        (λ k.
          retasked s.state.tasks _ s.state.handler _ s.shutting
            (λ y q. (ground arith, ground arith, λ e. ground (arith, k))) (λ y e. ground arith)
            (if_elim (λ (r : Fired). Alert (record s { rest = after_fire r }))
              (run w (s.state.tasks x).task).1 (λ _. on k over tt) (λ _. on k awake tt)))
    where
      on :
          (s.state.tasks x).is_end ≡ false
          → (r : Rest) → Sleeps s.state.tasks s.state.handler.queue r
          → Alert (record s { rest = r })
      on k r rests =
          gone_on s r rests (λ o. ground (arith, b, o)) (λ y e. ground (arith, b, e, k)) v

  exchanges-Alert : (fails : Bool) (s : System) → Alert s → Alert (exchange fails s)
  exchanges-Alert fails s v = record {
    inv = v.inv;
    ends_new = v.ends_new;
    rests = v.rests;
    shut = λ f. elim (Bool-cases s.state.handler.is_request_shut_down) [
      | inl e ↦ elim (v.shut e) [
        | inl k ↦
            inl (still_Ending s (exchange fails s) (λ e. e) (λ x e. e) (λ x e. e) (λ x q. q) k)
        | inr w ↦ inr (ground (arith, e, w))
      ]
      | inr e ↦ inr (ground (arith, e, f))
    ];
  }

  pushes_end-Alert :
      (end : ℕ) (s : System)
      → count end (contents s.state.handler.queue) ≡ 0
      → Alert s
      → Alert (push_end_task s end)
  pushes_end-Alert end s absent v =
      pushed (at (with_end s.state.tasks end) s.state.handler s.rest s.shutting) end false absent
        (λ e. absurd (ground arith)) (λ e. ground arith) (inr (ground arith))
        (retasked s.state.tasks (with_end s.state.tasks end) s.state.handler s.rest s.shutting
          (λ y q.
            let other : ¬ (end ≡ y) = differs y q in
            (ground arith, ground arith, λ e. ground arith))
          (λ y e. ground arith) v)
    where
      differs : (y : ℕ) → Queued s.state y → ¬ (end ≡ y)
      differs y q e = omega (arith, ap (λ z. count z (contents s.state.handler.queue)) e)

  wake-Alert : (s : System) → Alert s → Alert (record s { rest = wake s.rest })
  wake-Alert s v = record {
    inv = v.inv;
    ends_new = v.ends_new;
    rests = wake-Sleeps s.state.tasks s.state.handler.queue s.rest;
    shut = λ f. elim (v.shut f) [
      | inl k ↦ inl (
          still_Ending s (record s { rest = wake s.rest }) (ap wake) (λ y. ap wake) (λ y e. e)
            (λ y q. q) k)
      | inr w ↦ inr w
    ];
  }

  pub Step-Alert : {s t : System} → Step lib s t → Alert s → Alert t
  unfolding close_thread
  Step-Alert {s} (adds now req x p user absent dated) v =
      adds-Alert now req x p s user absent dated v
  Step-Alert {s} (passes now late e pos fits) v = passes-Alert lib now late s e pos fits v
  Step-Alert {s} (runs w x b) v = runs-Alert w x s b v
  Step-Alert {s} stirs v = wake-Alert s v
  Step-Alert {s} (expires time late e) v =
      gone_on s awake tt (λ o. ground (arith, e, o)) (λ x b. absurd (ground (arith, e, b))) v
  Step-Alert {s} (cancels x user) v =
      retasked s.state.tasks _ s.state.handler s.rest s.shutting
        (λ y q. (ground arith, ground arith, λ e. ground arith)) (λ y e. ground arith) v
  Step-Alert {s} (exchanges fails) v = exchanges-Alert fails s v
  Step-Alert {s} (pushes_end end w absent) v = pushes_end-Alert end s absent v
  Step-Alert {s} (asks_close now fails h w) v = record {
    inv = v.inv;
    ends_new = v.ends_new;
    rests = v.rests;
    shut = v.shut;
  }
