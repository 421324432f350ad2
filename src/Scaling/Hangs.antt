-- ===== src/Scaling/Hangs.antt =====
-- Two orders of events after which the pool never gets on.
use empool.Base.{
  ℕ, ◌<◌, ◌≡◌, refl, ◌∙◌, Bool, true, false, none, some, List, arith, Bool-cases, ap, ℕ_discrete,
  inl, inr,
}
use empool.Heap.{count}
use empool.Scaling.{Pool, is_shut_down, has, do_add_task, shut_step, ShutPc, setting}
use empool.Scaling.Census.{census, census_full}
use empool.Scaling.Worker.{WorkerPc, waking, reported, is_counted, Input, worker_step}
use empool.Scaling.System.{
  System, ended, step_worker, Step, adds, pushes_late, works, monitor_checks, monitor_wakes,
  monitor_creates, monitor_inserts, monitor_erases, holds_guard, monitor_acts, shuts, Steps, here,
  then_, start,
}
use empool.Scaling.Always.{created, SysInv, Steps-Inv, reachable-Inv}
use empool.Scaling.Unchanged.{SameMap, worker_step-SameMap, shut_step-SameMap, do_add_task-SameMap}
use empool.Scaling.Stopping.{worker_step-shutdown}

-- The monitor holds the guard, and waits for the thread of worker `y` to end, which waits for the
-- guard.
pub record Deadlock (y : ℕ) (s : System) : Type 0 where
  pub monitor_holds : holds_guard s.monitor ≡ true
  pub worker_waits : s.worker y ≡ waking
  pub listed : 0 < count y s.pool.sub_worker_thread_id
  pub in_map : has s.pool.threads y ≡ true

keeps :
    (y : ℕ) (s : System) (p : Pool)
    → SameMap s.pool p
    → Deadlock y s
    → Deadlock y (record s { pool = p })
keeps y s p m d = record {
  monitor_holds = d.monitor_holds;
  worker_waits = d.worker_waits;
  listed = omega (arith, d.listed, m.none_lost y);
  in_map = ground (arith, d.in_map, m.threads_same);
}

Step-Deadlock : (y : ℕ) {s t : System} → Step s t → Deadlock y s → Deadlock y t
unfolding do_add_task shut_step
Step-Deadlock y {s} (adds none) d = d
Step-Deadlock y {s} (adds (some x)) d = keeps y s _ (do_add_task-SameMap s.pool (some x)) d
Step-Deadlock y {s} (pushes_late x) d =
    keeps y s _ (record { threads_same = refl; max_same = refl; none_lost = λ y. omega arith }) d
Step-Deadlock y {s} (works u i free) d =
    let m = worker_step-SameMap u s.pool i (s.worker i) in
    record {
      monitor_holds = d.monitor_holds;
      worker_waits = elim (ℕ_discrete i y) [
        | yes same ↦ absurd (ground (arith, d.monitor_holds, d.worker_waits, ap s.worker same))
        | no other ↦ ground (arith, d.worker_waits)
      ];
      listed = omega (arith, d.listed, m.none_lost y);
      in_map = ground (arith, d.in_map, m.threads_same);
    }
Step-Deadlock y (monitor_checks e) d = absurd (ground (arith, d.monitor_holds))
Step-Deadlock y (monitor_wakes expires ok e) d = absurd (ground (arith, d.monitor_holds))
Step-Deadlock y {s} (monitor_creates id e more a pos) d = record {
  monitor_holds = refl;
  worker_waits = elim (ℕ_discrete id y) [
    | yes same ↦ absurd (ground (arith, a, d.worker_waits, ap s.worker same))
    | no other ↦ ground (arith, d.worker_waits)
  ];
  listed = d.listed;
  in_map = d.in_map;
}
Step-Deadlock y {s} (monitor_inserts id e) d = record {
  monitor_holds = refl;
  worker_waits = d.worker_waits;
  listed = d.listed;
  in_map = ground (arith, d.in_map);
}
Step-Deadlock y {s} (monitor_erases e gone) d =
    absurd (ground (arith, gone y d.listed d.in_map, d.worker_waits))
Step-Deadlock y {s} (monitor_acts e enough gone) d =
    absurd (ground (arith, gone y d.listed d.in_map, d.worker_waits))
Step-Deadlock y {s} (shuts fails j free) d =
    let m = shut_step-SameMap fails s.pool (s.shut j) in
    record {
      monitor_holds = d.monitor_holds;
      worker_waits = d.worker_waits;
      listed = omega (arith, d.listed, m.none_lost y);
      in_map = ground (arith, d.in_map, m.threads_same);
    }

-- A worker that is not asked to end may report its id and be erased before it takes the guard for
-- its notification: then the monitor, which holds the guard, joins the worker's thread, which waits
-- for the guard. From then on, whatever happens, neither gets on.
pub Deadlock-for_ever : (y : ℕ) {s t : System} → Deadlock y s → Steps s t → Deadlock y t
Deadlock-for_ever y d here = d
Deadlock-for_ever y d (then_ r st) = Step-Deadlock y st (Deadlock-for_ever y d r)

-- Worker `y` has ended before `ShutDown`, and the monitor before it erased it.
pub record Stuck (y : ℕ) (s : System) : Type 0 where
  pub monitor_gone : s.monitor ≡ ended
  pub worker_gone : s.worker y ≡ reported
  pub in_map : has s.pool.threads y ≡ true
  pub not_shut_down : is_shut_down s.pool.state ≡ false

stays_reported :
    (u : Input) (p : Pool) (i : ℕ) (c : WorkerPc)
    → c ≡ reported
    → (worker_step u p i c).1 ≡ reported
unfolding worker_step
stays_reported u p i c e = ap (λ d. (worker_step u p i d).1) e

shut_step-state :
    (fails : ℕ → Bool) (p : Pool) (pc : ShutPc)
    → is_shut_down p.state ≡ false
    → is_shut_down (shut_step fails p pc).0.state ≡ false
unfolding shut_step
shut_step-state fails p pc h =
    elim pc as (λ c. is_shut_down (shut_step fails p c).0.state ≡ false) [ setting ↦ refl | _ ↦ h ]

Step-Stuck : (y : ℕ) {s t : System} → Step s t → SysInv s → Stuck y s → Stuck y t
unfolding do_add_task shut_step
Step-Stuck y {s} (adds none) v d = d
Step-Stuck y {s} (adds (some x)) v d = record {
  monitor_gone = d.monitor_gone;
  worker_gone = d.worker_gone;
  in_map = ground (arith, d.in_map);
  not_shut_down = ground (arith, d.not_shut_down);
}
Step-Stuck y {s} (pushes_late x) v d = record {
  monitor_gone = d.monitor_gone;
  worker_gone = d.worker_gone;
  in_map = d.in_map;
  not_shut_down = d.not_shut_down;
}
Step-Stuck y {s} (works u i free) v d =
    let m = worker_step-SameMap u s.pool i (s.worker i) in
    record {
      monitor_gone = d.monitor_gone;
      worker_gone = elim (ℕ_discrete i y) [
        | yes same ↦
            ground (
              arith,
              same,
              stays_reported u s.pool i (s.worker i) (ap s.worker same ∙ d.worker_gone),
            )
        | no other ↦ ground (arith, d.worker_gone)
      ];
      in_map = ground (arith, d.in_map, m.threads_same);
      not_shut_down = elim (Bool-cases (is_shut_down (step_worker u s i).pool.state)) [
        | inl e ↦ absurd (
            ground (
              arith,
              ap is_counted d.worker_gone,
              census_full (λ j. is_counted (s.worker j)) s.pool.threads
                  (omega (
                    arith,
                    worker_step-shutdown u s.pool i (s.worker i) d.not_shut_down e,
                    v.bound i,
                    v.stopped,
                    ap (λ m. census (λ j. is_counted (s.worker j)) (created m s.pool.threads))
                        d.monitor_gone,
                  ))
                  y (ground (arith, d.in_map)),
            ))
        | inr e ↦ e
      ];
    }
Step-Stuck y (monitor_checks e) v d = absurd (ground (arith, d.monitor_gone))
Step-Stuck y (monitor_wakes expires ok e) v d = absurd (ground (arith, d.monitor_gone))
Step-Stuck y (monitor_creates id e more a pos) v d = absurd (ground (arith, d.monitor_gone, e))
Step-Stuck y (monitor_inserts id e) v d = absurd (ground (arith, d.monitor_gone, e))
Step-Stuck y (monitor_erases e gone) v d = absurd (ground (arith, d.monitor_gone, e))
Step-Stuck y (monitor_acts e enough gone) v d = absurd (ground (arith, d.monitor_gone, e))
Step-Stuck y {s} (shuts fails j free) v d =
    let m = shut_step-SameMap fails s.pool (s.shut j) in
    record {
      monitor_gone = d.monitor_gone;
      worker_gone = d.worker_gone;
      in_map = ground (arith, d.in_map, m.threads_same);
      not_shut_down = shut_step-state fails s.pool (s.shut j) d.not_shut_down;
    }

Steps-Stuck : (y : ℕ) {s t : System} → Steps s t → SysInv s → Stuck y s → Stuck y t
Steps-Stuck y here v d = d
Steps-Stuck y (then_ r st) v d = Step-Stuck y st (Steps-Inv v r) (Steps-Stuck y r v d)

-- A worker that has ended before `ShutDown` is in the map still when the monitor, which would have
-- erased it, has ended. From then on the pool is never shut down, so that a `ShutDownNow`, and the
-- destructor, which calls it, do not return.
pub Stuck-for_ever :
    (min_size max_size : ℕ) (ids : List ℕ) (y : ℕ) {s t : System}
    → count 0 ids ≡ 0
    → Steps (start min_size max_size ids) s
    → Stuck y s
    → Steps s t
    → is_shut_down t.pool.state ≡ false
Stuck-for_ever min_size max_size ids y zero_ r d q =
    (Steps-Stuck y q (reachable-Inv min_size max_size ids zero_ r) d).not_shut_down
