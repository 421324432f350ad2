-- ===== src/Timer/Waking.antt =====
-- What a pass leaves of that, and when the pass ends the thread.
use empool.Base.{
  ℕ, ◌+◌, ◌^◌, ◌<◌, ◌≡◌, refl, sym, subst, ◌∙◌, ap, inl, inr, true, List, arith, update_cases,
  Bool-cases,
}
use empool.Heap.{PopHeap, heap, count, contents}
use empool.Timer.{new_timer_task, deadline_of}
use empool.Timer.Handler.{
  State, Pass, fires, pass, popped, renewed, again, Result, drops, fires_asked, fires_again,
  fires_once, sleeps,
}
use empool.Timer.Requeue.{count-pop_min, count-pop_min_and_push}
use empool.Timer.Firing.{root_least, stops, idles, goes, pass-Cases}
use empool.Timer.Steps as Plain
use empool.Timer.Invariant.{Inv, Step-Inv}
use empool.Timer.Sleeper.{after_pass, awake, System}
use empool.Timer.Alert.{Queued, Sleeps, Ending, Alert}

-- A pass over a queue with the task `r` at its root.
module _ (lib : PopHeap) (now late : ℕ) (s : State) {r : ℕ} {rest : List ℕ}
    (root : s.handler.queue ≡ heap r rest) where
  root-Queued : Queued s r
  root-Queued = rw root (ground arith)

  -- With an `EndTimerTask` in the queue the task at the root is one.
  root_is_end :
      (v : Inv s)
      → ((x : ℕ) → Queued s x → (s.tasks x).is_end ≡ true → s.tasks x ≡ new_timer_task true)
      → (e : ℕ) → Queued s e
      → (s.tasks e).is_end ≡ true
      → s.tasks r ≡ new_timer_task true
  root_is_end v new e q k = elim (Bool-cases (s.tasks r).is_end) [
    | inl end ↦ new r root-Queued end
    | inr user ↦ absurd (
        omega (
          arith,
          v.dated r root-Queued user,
          root_least (deadline_of s.tasks) s.handler.queue root v.least e q,
          ap (λ t. t.deadline) (new e q k),
        ))
  ]

  -- What a pass leaves, but for the order of the queue.
  pub record Passed (p : State × Pass) : Type 0 where
    pub kept :
        (x : ℕ) → Queued p.0 x → (p.0.tasks x).is_end ≡ true → p.0.tasks x ≡ new_timer_task true
    pub rested : Sleeps p.0.tasks p.0.handler.queue (after_pass now late p.1)
    pub leaves :
        (e : ℕ)
        → Queued s e
        → (s.tasks e).is_end ≡ true
        → (p.1 ≡ fires r) × ((p.0.tasks r).is_end ≡ true)
    pub same_flag : p.0.handler.is_request_shut_down ≡ s.handler.is_request_shut_down

  pub Result-Passed :
      Inv s
      → 0 < now
      → ((x : ℕ) → Queued s x → (s.tasks x).is_end ≡ true → s.tasks x ≡ new_timer_task true)
      → {p : State × Pass} → Result lib now s r p
      → Passed p
  Result-Passed v pos new res = elim res [
    | drops c e ↦ rw e record {
      kept = λ x q k. new x (fewer x q) k;
      rested = tt;
      leaves = λ x q k. absurd (ground (arith, c, ap (λ t. t.task) (root_is_end v new x q k)));
      same_flag = refl;
    }
    | fires_asked c a e ↦ rw e record {
      kept = λ x q k. new x (fewer x q) k;
      rested = tt;
      leaves = λ x q k. (refl, ap (λ t. t.is_end) (root_is_end v new x q k));
      same_flag = refl;
    }
    | fires_once c a d i e ↦ rw e record {
      kept = λ x q k. new x (fewer x q) k;
      rested = tt;
      leaves = λ x q k. (refl, ap (λ t. t.is_end) (root_is_end v new x q k));
      same_flag = refl;
    }
    | fires_again c a d i e ↦ rw e record {
      kept = λ x q k. renewed_kept i x (same x q) k;
      rested = tt;
      leaves = λ x q k. absurd (omega (arith, i, ap (λ t. t.interval) (root_is_end v new x q k)));
      same_flag = refl;
    }
    | sleeps c a d e ↦ rw e record {
      kept = new;
      rested = (
        omega arith,
        λ x q. omega (arith, root_least (deadline_of s.tasks) s.handler.queue root v.least x q),
      );
      leaves = λ x q k. absurd (omega (arith, d, ap (λ t. t.deadline) (root_is_end v new x q k)));
      same_flag = refl;
    }
  ]
    where
      fewer : (x : ℕ) → Queued (popped lib now s r) x → Queued s x
      fewer x q = omega (arith, count-pop_min lib s.tasks s.handler.queue root x)

      same : (x : ℕ) → Queued (again lib now s r) x → Queued s x
      same x q = omega (arith, count-pop_min_and_push lib (renewed lib now s r) s.handler.queue x)

      renewed_kept :
          0 < (s.tasks r).interval
          → (x : ℕ) → Queued s x
          → (renewed lib now s r x).is_end ≡ true
          → renewed lib now s r x ≡ new_timer_task true
      renewed_kept i =
          update_cases (λ x t. Queued s x → t.is_end ≡ true → t ≡ new_timer_task true) s.tasks r _
            (λ q k. absurd (omega (arith, ap (λ t. t.interval) (new r root-Queued k))))
            (λ x ne. new x)

-- What each step leaves.
module _ (lib : PopHeap) where
  abbrev pub passed_system : (now late : ℕ) → System → System
  passed_system now late s = record {
    state = (pass lib now s.state).0;
    rest = after_pass now late (pass lib now s.state).1;
    shutting = s.shutting;
  }

  -- Before a pass the thread is awake, so that only its queue shows that it is to end.
  pub ending_queue :
      {A : Type 0} (s : System)
      → s.rest ≡ awake
      → Ending s
      → ((x : ℕ) → Queued s.state x → (s.state.tasks x).is_end ≡ true → A)
      → A
  ending_queue s e (inl o) f = absurd (ground (arith, e, o))
  ending_queue s e (inr (inl (x, b, k))) f = absurd (ground (arith, e, b))
  ending_queue s e (inr (inr (x, q, k))) f = f x q k

  pub passes-Alert :
      (now late : ℕ) (s : System)
      → s.rest ≡ awake
      → 0 < now
      → ((x : ℕ) → now + (s.state.tasks x).interval < 2 ^ 64)
      → Alert s
      → Alert (passed_system now late s)
  passes-Alert now late s e pos fits v = elim (pass-Cases lib now s.state) [
    | stops c p ↦
        result p
          (λ i. record { inv = i; ends_new = v.ends_new; rests = tt; shut = λ f. inl (inl refl) })
    | idles c none_ p ↦ result p (λ i. record {
      inv = i;
      ends_new = v.ends_new;
      rests = none_;
      shut = λ f. elim (v.shut f) [
        | inl k ↦
            ending_queue s e k
              (λ x q k. absurd (omega (arith, ap (λ z. count x (contents z)) none_)))
        | inr w ↦ inr w
      ];
    })
    | goes r rest c root res ↦
        let d = Result-Passed lib now late s.state root v.inv pos v.ends_new res in
        result refl (λ i. record {
          inv = i;
          ends_new = d.kept;
          rests = d.rested;
          shut = λ f. elim (v.shut (sym d.same_flag ∙ f)) [
            | inl k ↦ ending_queue s e k (λ x q k.
                let l = d.leaves x q k in inl (inr (inl (r, ap (after_pass now late) l.0, l.1))))
            | inr w ↦ inr w
          ];
        })
  ]
    where
      result :
          {p : State × Pass}
          → pass lib now s.state ≡ p
          → (Inv p.0
              → Alert
                  (record { state = p.0; rest = after_pass now late p.1; shutting = s.shutting }))
          → Alert (passed_system now late s)
      result e f =
          subst
            (λ p.
              Alert (record { state = p.0; rest = after_pass now late p.1; shutting = s.shutting }))
            (sym e) (f (subst (λ p. Inv p.0) e (Step-Inv (Plain.passes now pos fits) v.inv)))
