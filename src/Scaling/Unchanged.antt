-- ===== src/Scaling/Unchanged.antt =====
-- The steps of the workers, of `AddTask` and of `ShutDown` leave the map alone.
use empool.Base.{
  ℕ, ◌≤◌, ◌≡◌, refl, Bool, Option, none, some, List, [], ◌∷◌, arith, leb, if_elim, length,
}
use empool.Heap.{count}
use empool.Scaling.{
  Pool, Item, end_task, do_add_task, add_worker_thread_id_to_sub_vector, shut_step, ShutPc, outside,
  adding,
}
use empool.Scaling.Census.{count-append}
use empool.Scaling.Worker.{WorkerPc, fetching, reporting, comparing, Input, take, worker_step}

-- The map and its bound are as they were, and the vector has lost no id.
pub record SameMap (p q : Pool) : Type 0 where
  pub threads_same : q.threads ≡ p.threads
  pub max_same : q.max_thread_size ≡ p.max_thread_size
  pub none_lost : (y : ℕ) → count y p.sub_worker_thread_id ≤ count y q.sub_worker_thread_id

grows : (p : Pool) (id : ℕ) → SameMap p (add_worker_thread_id_to_sub_vector p id)
grows p id = record {
  threads_same = refl;
  max_same = refl;
  none_lost = λ y. omega (arith, count-append p.sub_worker_thread_id (id ∷ []) y);
}

take-SameMap : (p : Pool) (items : List Item) → SameMap p (take p items).0
unfolding take
take-SameMap p [] = record { threads_same = refl; max_same = refl; none_lost = λ y. omega arith }
take-SameMap p (end_task ∷ rest) = record {
  threads_same = refl;
  max_same = refl;
  none_lost = λ y. omega arith;
}
take-SameMap p (Item.task x ∷ rest) = record {
  threads_same = refl;
  max_same = refl;
  none_lost = λ y. omega arith;
}

pub worker_step-SameMap :
    (u : Input) (p : Pool) (i : ℕ) (pc : WorkerPc) → SameMap p (worker_step u p i pc).0
unfolding worker_step
worker_step-SameMap u p i pc = elim pc as (λ c. SameMap p (worker_step u p i c).0) [
  | fetching ↦
      if_elim (λ (r : Pool × WorkerPc). SameMap p r.0) u.expires
        (λ _. record { threads_same = refl; max_same = refl; none_lost = λ y. omega arith })
        (λ _. take-SameMap p p.queue)
  | reporting ↦ grows p i
  | comparing n ↦
      if_elim (λ q. SameMap p q) (leb (length p.threads) n)
        (λ _. record { threads_same = refl; max_same = refl; none_lost = λ y. omega arith })
        (λ _. record { threads_same = refl; max_same = refl; none_lost = λ y. omega arith })
  | _ ↦ record { threads_same = refl; max_same = refl; none_lost = λ y. omega arith }
]

pub shut_step-SameMap :
    (fails : ℕ → Bool) (p : Pool) (pc : ShutPc) → SameMap p (shut_step fails p pc).0
unfolding shut_step
shut_step-SameMap fails p pc = elim pc as (λ c. SameMap p (shut_step fails p c).0) [
  | adding ↦ grows p 0
  | outside ↦ record { threads_same = refl; max_same = refl; none_lost = λ y. omega arith }
  | _ ↦ record { threads_same = refl; max_same = refl; none_lost = λ y. omega arith }
]

pub do_add_task-SameMap : (p : Pool) (x : Option ℕ) → SameMap p (do_add_task p x).0
unfolding do_add_task
do_add_task-SameMap p none = record {
  threads_same = refl;
  max_same = refl;
  none_lost = λ y. omega arith;
}
do_add_task-SameMap p (some x) =
    if_elim (λ (r : Pool × Option ℕ). SameMap p r.0) p.is_request_shut_down
      (λ _. record { threads_same = refl; max_same = refl; none_lost = λ y. omega arith })
      (λ _. record { threads_same = refl; max_same = refl; none_lost = λ y. omega arith })
