-- ===== src/Scaling/Lasting.antt =====
-- A fixed pool, src/FixedThreadPool.cpp, keeps its threads for its whole life.
use empool.Base.{
  Option, none, some, if_elim, [], ℕ, ◌≡◌, refl, sym, subst, ap, ◌∙◌, Bool, true, false, not, List,
  arith, length, update_elim,
}
use empool.Heap.{count}
use empool.Scaling.{Pool, do_add_task, has, new_pool, new_fixed_pool}
use empool.Scaling.Worker.{WorkerPc, absent, worker_step}
use empool.Scaling.System.{
  waiting, acting, System, Step, adds, pushes_late, works, monitor_checks, monitor_wakes,
  monitor_creates, monitor_inserts, monitor_erases, monitor_acts, shuts, Steps, here, then_, start,
  step_worker,
}
use empool.Scaling.Fixed.{has_created, goes_on}
use empool.Scaling.Lifelong.{
  Life, is_closed, may_stand, is_absent, pushed-Life, worker_step-Leaves, acts-Life, emptied-Life,
}
use empool.Scaling.Always.{insert_all-count}
use empool.Scaling.Callers.{Callers, shut_step-Goes}

pub record Lasting (threads : List ℕ) (s : System) : Type 0 where
  pub life : Life threads s.pool
  pub stands : (i : ℕ) → may_stand (is_closed s.pool.state) (s.worker i) ≡ true
  pub present : (i : ℕ) → is_absent (s.worker i) ≡ not (has threads i)
  pub none_new : has_created s.monitor ≡ false
  pub callers : Callers (is_closed s.pool.state) s.pool.is_request_shut_down s.shut

still_stands :
    (before after : Bool) (pc : WorkerPc)
    → (before ≡ true → after ≡ true)
    → may_stand before pc ≡ true
    → may_stand after pc ≡ true
still_stands true after pc h e = subst (λ b. may_stand b pc ≡ true) (sym (h refl)) e
still_stands false true pc h e =
    elim pc as (λ c. may_stand false c ≡ true → may_stand true c ≡ true) [
      | absent ↦ λ _. refl
      | _ ↦ λ e. ground (arith, e)
    ]
      e
still_stands false false pc h e = e

-- The pool changes, but not whether it is closed.
put :
    {threads : List ℕ} {s : System} (p : Pool)
    → Life threads p
    → is_closed p.state ≡ is_closed s.pool.state
    → p.is_request_shut_down ≡ s.pool.is_request_shut_down
    → Lasting threads s
    → Lasting threads (record s { pool = p })
put {s = s} p c k f v = record {
  life = c;
  stands = λ i. subst (λ b. may_stand b (s.worker i) ≡ true) (sym k) (v.stands i);
  present = v.present;
  none_new = v.none_new;
  callers =
      subst (λ b. Callers b p.is_request_shut_down s.shut) (sym k)
        (subst (λ b. Callers (is_closed s.pool.state) b s.shut) (sym f) v.callers);
}

pub Step-Lasting :
    (threads : List ℕ) {s t : System}
    → count 0 threads ≡ 0
    → Step s t
    → Lasting threads s
    → Lasting threads t
unfolding do_add_task
Step-Lasting threads {s} z (adds none) v = v
Step-Lasting threads {s} z (adds (some x)) v =
    if_elim (λ (r : Pool × Option ℕ). Lasting threads (record s { pool = r.0 }))
      s.pool.is_request_shut_down (λ _. v)
      (λ _. put _ (pushed-Life threads s.pool x v.life) refl refl v)
Step-Lasting threads {s} z (pushes_late x) v =
    put _ (pushed-Life threads s.pool x v.life) refl refl v
Step-Lasting threads {s} z (works u i free) v =
    let r = worker_step-Leaves threads u s.pool i (s.worker i) (v.stands i) v.life in
    let w = put _ r.life r.closed_same r.flag_same v in
    record {
      life = r.life;
      stands =
          update_elim (λ k pc. may_stand (is_closed (step_worker u s i).pool.state) pc ≡ true)
            s.worker i _
            (subst (λ b. may_stand b (worker_step u s.pool i (s.worker i)).1 ≡ true)
              (sym r.closed_same) r.stands)
            w.stands;
      present =
          update_elim (λ k pc. is_absent pc ≡ not (has threads k)) s.worker i _
            (r.absent_same ∙ v.present i) v.present;
      none_new = v.none_new;
      callers = w.callers;
    }
Step-Lasting threads {s} z (monitor_checks e) v = record {
  life = v.life;
  stands = v.stands;
  present = v.present;
  none_new = goes_on s.pool.monitor_thread.is_request_close waiting refl;
  callers = v.callers;
}
Step-Lasting threads {s} z (monitor_wakes expires ok e) v = record {
  life = v.life;
  stands = v.stands;
  present = v.present;
  none_new = goes_on s.pool.monitor_thread.is_request_close acting refl;
  callers = v.callers;
}
Step-Lasting threads {s} z (monitor_creates id e more a pos) v =
    absurd (ground (arith, (acts-Life threads s.pool z v.life).0, more))
Step-Lasting threads z (monitor_inserts id e) v = absurd (ground (arith, v.none_new, e))
Step-Lasting threads z (monitor_erases e gone) v = absurd (ground (arith, v.none_new, e))
Step-Lasting threads {s} z (monitor_acts e enough gone) v =
    rw (acts-Life threads s.pool z v.life).1 (record {
      life = emptied-Life threads s.pool v.life;
      stands = v.stands;
      present = v.present;
      none_new = refl;
      callers = v.callers;
    })
Step-Lasting threads {s} z (shuts fails j free) v =
    let g = shut_step-Goes threads fails s.pool s.shut j (s.shut j) refl v.life v.callers in
    record {
      life = g.life;
      stands = λ i.
          still_stands (is_closed s.pool.state) _ (s.worker i)
            (λ k. ap is_closed (g.still_closed k) ∙ k) (v.stands i);
      present = v.present;
      none_new = v.none_new;
      callers = g.callers;
    }

pub Steps-Lasting :
    (threads : List ℕ) {s t : System}
    → count 0 threads ≡ 0
    → Lasting threads s
    → Steps s t
    → Lasting threads t
Steps-Lasting threads z v here = v
Steps-Lasting threads z v (then_ r st) = Step-Lasting threads z st (Steps-Lasting threads z v r)

pub start-Lasting :
    (n : ℕ) (ids : List ℕ)
    → length (new_fixed_pool n ids).threads ≡ n
    → Lasting (new_fixed_pool n ids).threads (start n n ids)
unfolding new_pool
start-Lasting n ids e = record {
  life = record {
    same = refl;
    core = sym e;
    max = sym e;
    vector = λ i lt. refl;
    no_end = λ o. refl;
    unasked = λ o i. refl;
    flagged = λ k. absurd (cc k);
  };
  stands = λ i. ground arith;
  present = λ i. ground (arith, insert_all-count [] ids i (omega arith));
  none_new = refl;
  callers = record {
    out = λ f j. refl;
    before = λ j d. absurd (cc d);
    only = λ j k d. absurd (cc d);
    past = λ o j. refl;
  };
}
