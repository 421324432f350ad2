-- ===== src/Scaling/Always.antt =====
-- What is true of the pool in every state that it can reach.
use empool.Base.{
  sym, ◌∙◌, ℕ, zero, suc, ◌+◌, ◌≤◌, ◌≡◌, refl, Bool, false, Option, none, some, List, [], ◌∷◌,
  arith, ltb, ◌==◌, one_if, if_elim, update, ap, ℕ_discrete, subst, fun_ext, if◌then◌else◌,
}
use empool.Heap.{count}
use empool.Scaling.{
  Pool, insert, insert_all, has, new_pool, do_add_task, shut_step, ShutPc, outside, setting,
  stopping, asking, adding, returned,
}
use empool.Scaling.Census.{census-none, count-append}
use empool.Scaling.Worker.{WorkerPc, absent, checking, is_counted, is_live, Input, worker_step}
use empool.Scaling.System.{
  step_worker, MonitorPc, waiting, acting, ended, inserting, System, Step, adds, pushes_late, works,
  monitor_checks, monitor_wakes, monitor_creates, monitor_inserts, monitor_erases, monitor_acts,
  shuts, Steps, here, then_, start,
}
use empool.Scaling.Invariant.{Inv, compared}
use empool.Scaling.Preserved.{worker_step-Inv}
use empool.Scaling.Unchanged.{SameMap, worker_step-SameMap, shut_step-SameMap, do_add_task-SameMap}
use empool.Scaling.Monitor.{Inv-congr, create-Inv, insert-Inv, sub_vector-Inv}

-- `ShutDown` adds the id 0 to the vector, which is that of no worker.
add_zero-Inv :
    (threads : List ℕ) (p : Pool) (worker : ℕ → WorkerPc)
    → Inv threads p worker
    → Inv threads (shut_step (λ _. false) p adding).0 worker
unfolding shut_step
add_zero-Inv threads p worker v = record {
  once = v.once;
  live = v.live;
  no_zero = v.no_zero;
  uncreated = v.uncreated;
  listed = λ i z h. v.listed i z (ground (arith, count-append p.sub_worker_thread_id (0 ∷ []) i));
  stopped = v.stopped;
  bound = v.bound;
}

shut_step-Inv :
    (threads : List ℕ) (fails : ℕ → Bool) (p : Pool) (worker : ℕ → WorkerPc) (pc : ShutPc)
    → Inv threads p worker
    → Inv threads (shut_step fails p pc).0 worker
unfolding shut_step add_zero-Inv
shut_step-Inv threads fails p worker outside v = Inv-congr refl refl v
shut_step-Inv threads fails p worker setting v = Inv-congr refl refl v
shut_step-Inv threads fails p worker stopping v = Inv-congr refl refl v
shut_step-Inv threads fails p worker asking v = Inv-congr refl refl v
shut_step-Inv threads fails p worker adding v = add_zero-Inv threads p worker v
shut_step-Inv threads fails p worker returned v = v

do_add_task-Inv :
    (threads : List ℕ) (p : Pool) (worker : ℕ → WorkerPc) (x : Option ℕ)
    → Inv threads p worker
    → Inv threads (do_add_task p x).0 worker
unfolding do_add_task
do_add_task-Inv threads p worker none v = v
do_add_task-Inv threads p worker (some x) v =
    if_elim (λ (r : Pool × Option ℕ). Inv threads r.0 worker) p.is_request_shut_down (λ _. v)
      (λ _. Inv-congr refl refl v)

-- The ids of the map, and that of the thread that the monitor has created and not inserted yet.
abbrev pub created : MonitorPc → List ℕ → List ℕ
created (inserting id) threads = id ∷ threads
created _ threads = threads

abbrev pub SysInv : System → Type 0
SysInv s = Inv (created s.monitor s.pool.threads) s.pool s.worker

-- The id 0 is no worker's, so a step of it changes nothing.
idle-Inv :
    (threads : List ℕ) (u : Input) (p : Pool) (worker : ℕ → WorkerPc)
    → Inv threads p worker
    → Inv threads
        (worker_step u p 0 (worker 0)).0
        (update worker 0 (worker_step u p 0 (worker 0)).1)
unfolding worker_step
idle-Inv threads u p worker v =
    rw v.no_zero (subst (Inv threads p) (fun_ext (λ j. ground (arith, v.no_zero))) v)

-- The monitor goes on without a thread to insert.
moves_on :
    (m n : MonitorPc) (b : Bool) (p : Pool) (worker : ℕ → WorkerPc)
    → created m p.threads ≡ p.threads
    → created n p.threads ≡ p.threads
    → Inv (created m p.threads) p worker
    → Inv (created (if b then ended else n) p.threads) p worker
moves_on m n b p worker e f v =
    subst (λ l. Inv l p worker)
      (e ∙ if_elim (λ k. p.threads ≡ created k p.threads) b (λ _. refl) (λ _. sym f)) v

-- A step that leaves the map and the monitor as they are.
kept :
    (s : System) (p : Pool) (worker : ℕ → WorkerPc)
    → SameMap s.pool p
    → Inv (created s.monitor s.pool.threads) p worker
    → Inv (created s.monitor p.threads) p worker
kept s p worker m v = subst (λ l. Inv (created s.monitor l) p worker) (sym m.threads_same) v

pub Step-Inv : {s t : System} → Step s t → SysInv s → SysInv t
Step-Inv {s} (adds x) v =
    kept s (do_add_task s.pool x).0 s.worker (do_add_task-SameMap s.pool x)
      (do_add_task-Inv _ s.pool s.worker x v)
Step-Inv {s} (pushes_late x) v = Inv-congr refl refl v
Step-Inv {s} (works u zero free) v =
    kept s (worker_step u s.pool 0 (s.worker 0)).0 (step_worker u s 0).worker
      (worker_step-SameMap u s.pool 0 (s.worker 0)) (idle-Inv _ u s.pool s.worker v)
Step-Inv {s} (works u (suc i) free) v =
    kept s (worker_step u s.pool (suc i) (s.worker (suc i))).0 (step_worker u s (suc i)).worker
      (worker_step-SameMap u s.pool (suc i) (s.worker (suc i)))
      (worker_step-Inv _ s.pool s.worker v u (suc i) (omega arith) (s.worker (suc i)) refl)
Step-Inv {s} (monitor_checks e) v =
    moves_on s.monitor waiting _ s.pool s.worker (ap (λ m. created m s.pool.threads) e) refl v
Step-Inv {s} (monitor_wakes expires ok e) v =
    moves_on s.monitor acting _ s.pool s.worker (ap (λ m. created m s.pool.threads) e) refl v
Step-Inv {s} (monitor_creates id e more a pos) v =
    create-Inv s.pool s.worker id (subst (λ m. Inv (created m s.pool.threads) s.pool s.worker) e v)
      a pos
Step-Inv {s} (monitor_inserts id e) v =
    insert-Inv s.pool s.worker id (subst (λ m. Inv (created m s.pool.threads) s.pool s.worker) e v)
Step-Inv {s} (monitor_erases e gone) v =
    sub_vector-Inv s.pool s.worker (subst (λ m. Inv (created m s.pool.threads) s.pool s.worker) e v)
      gone
Step-Inv {s} (monitor_acts e enough gone) v =
    sub_vector-Inv s.pool s.worker (subst (λ m. Inv (created m s.pool.threads) s.pool s.worker) e v)
      gone
Step-Inv {s} (shuts fails j free) v =
    kept s (shut_step fails s.pool (s.shut j)).0 s.worker
      (shut_step-SameMap fails s.pool (s.shut j))
      (shut_step-Inv _ fails s.pool s.worker (s.shut j) v)

pub Steps-Inv : {s t : System} → SysInv s → Steps s t → SysInv t
Steps-Inv v here = v
Steps-Inv v (then_ r st) = Step-Inv st (Steps-Inv v r)

-- The map that the constructor fills has each id once.
pub insert_all-count :
    (xs ids : List ℕ) (i : ℕ)
    → count i xs ≤ 1
    → count i (insert_all xs ids) ≡ one_if (ltb 0 (count i xs + count i ids))
unfolding insert_all
insert_all-count xs [] i h = ground arith
insert_all-count xs (id ∷ ids) i h =
    ground
      (arith, insert_all-count (insert xs id) ids i (inserted xs id i h).0, (inserted xs id i h).1)
  where
    inserted :
        (xs : List ℕ) (id i : ℕ)
        → count i xs ≤ 1
        → (count i (insert xs id) ≤ 1)
          × (ltb 0 (count i (insert xs id)) ≡ ltb 0 (one_if (i == id) + count i xs))
    inserted xs id i h = elim (ℕ_discrete i id) [
      | yes same ↦
          subst
            (λ k.
              (count i (insert xs k) ≤ 1)
              × (ltb 0 (count i (insert xs k)) ≡ ltb 0 (one_if (i == k) + count i xs)))
            same (ground arith, ground arith)
      | no other ↦ (ground arith, ground arith)
    ]

start-Inv :
    (min_size max_size : ℕ) (ids : List ℕ) → count 0 ids ≡ 0 → SysInv (start min_size max_size ids)
unfolding new_pool
start-Inv min_size max_size ids zero_ = record {
  once = λ i. ground (arith, insert_all-count [] ids i (omega arith));
  live = λ i h. ground (arith, insert_all-count [] ids i (omega arith), h);
  no_zero = ground (arith, zero_);
  uncreated = λ i h. ground (arith, insert_all-count [] ids i (omega arith), ap is_live h);
  listed = λ i z h. absurd (omega arith);
  stopped =
      census-none (λ i. is_counted (if has ids i then checking else absent)) (insert_all [] ids)
        (λ i. if_elim (λ c. is_counted c ≡ false) (has ids i) (λ _. refl) (λ _. refl));
  bound = λ i. if_elim (λ c. compared c ≤ 0) (has ids i) (λ _. omega arith) (λ _. omega arith);
}

-- In every reachable state of a pool whose threads have other ids than 0: the list of the ids in the
-- map and of the thread, if there is one, that the monitor has created and not inserted yet, has no
-- id twice, it has all workers that are not past their report and none that was not created, the
-- vector of ids to erase names only workers that are past their report, and the number of stopped
-- threads is that of the workers in this list that have counted themselves.
pub reachable-Inv :
    (min_size max_size : ℕ) (ids : List ℕ) {s : System}
    → count 0 ids ≡ 0
    → Steps (start min_size max_size ids) s
    → Inv (created s.monitor s.pool.threads) s.pool s.worker
reachable-Inv min_size max_size ids zero_ r = Steps-Inv (start-Inv min_size max_size ids zero_) r
