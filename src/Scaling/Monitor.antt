-- ===== src/Scaling/Monitor.antt =====
-- What a pass of the monitor keeps: `AddWorkerThread` and `SubWorkerThread` in
-- src/ScalingThreadPool.cpp.
use empool.Base.{
  ℕ, ◌≤◌, ◌<◌, ◌≡◌, refl, Bool, true, List, [], ◌∷◌, arith, if_elim, update, update_elim, ap, subst,
  ℕ_discrete, sym,
}
use empool.Heap.{count}
use empool.Scaling.{
  Pool, insert, erase, has, sub_worker_thread, sub_worker_threads, create_worker_thread,
  insert_worker_thread, sub_vector,
}
use empool.Queue.{is_empty}
use empool.Scaling.Census.{census, census-congr, census-erase, count-erase, count-erase-other}
use empool.Scaling.Worker.{WorkerPc, absent, checking, reported, is_counted, is_live}
use empool.Scaling.System.{NoneToAwait}
use empool.Scaling.Invariant.{Inv, compared, is_gone}

-- What is not counted has no part in the invariant.
pub Inv-congr :
    {threads : List ℕ} {p p' : Pool} {worker : ℕ → WorkerPc}
    → p'.sub_worker_thread_id ≡ p.sub_worker_thread_id
    → p'.stopped_thread_num ≡ p.stopped_thread_num
    → Inv threads p worker
    → Inv threads p' worker
Inv-congr l c v = record {
  once = λ i. ground (arith, v.once i);
  live = λ i h. ground (arith, v.live i h);
  no_zero = v.no_zero;
  uncreated = λ i h. ground (arith, v.uncreated i h);
  listed = λ i z h. v.listed i z (ground arith);
  stopped = ground (arith, v.stopped);
  bound = λ i. ground (arith, v.bound i);
}

-- A vector that is cleared.
pub clear-Inv :
    {threads : List ℕ} {p : Pool} {worker : ℕ → WorkerPc}
    → Inv threads p worker
    → Inv threads (record p { sub_worker_thread_id = [] }) worker
clear-Inv v = record {
  once = v.once;
  live = v.live;
  no_zero = v.no_zero;
  uncreated = v.uncreated;
  listed = λ i z h. absurd (omega arith);
  stopped = v.stopped;
  bound = v.bound;
}

-- A thread that has reported is erased.
erase-Inv :
    (p : Pool) (worker : ℕ → WorkerPc) (y : ℕ)
    → Inv p.threads p worker
    → worker y ≡ reported
    → Inv (erase p.threads y) (record p { threads = erase p.threads y }) worker
erase-Inv p worker y v e = record {
  once = λ i. omega (arith, v.once i, count-erase p.threads y i);
  live = λ i h.
      ground (arith, v.live i h, count-erase-other p.threads y i (λ q. absurd (other i h q)));
  no_zero = v.no_zero;
  uncreated = λ i h. omega (arith, v.uncreated i h, count-erase p.threads y i);
  listed = v.listed;
  stopped =
      ground
        (arith, v.stopped, census-erase (λ i. is_counted (worker i)) p.threads y (ap is_counted e));
  bound = v.bound;
}
  where
    other : (i : ℕ) → is_live (worker i) ≡ true → ¬ (y ≡ i)
    other i h q = absurd (ground (arith, ap is_live e, ap (λ k. is_live (worker k)) q))

sub_worker_thread-Inv :
    (p : Pool) (worker : ℕ → WorkerPc) (y : ℕ)
    → Inv p.threads p worker
    → (has p.threads y ≡ true → worker y ≡ reported)
    → Inv (sub_worker_thread p y).0.threads (sub_worker_thread p y).0 worker
sub_worker_thread-Inv p worker y v e =
    if_elim (λ (r : Pool × Bool). Inv r.0.threads r.0 worker) (has p.threads y)
      (λ h. erase-Inv p worker y v (e h)) (λ _. v)

-- Erasing one id makes no other present.
pub sub_worker_thread-has :
    (p : Pool) (y z : ℕ) → has (sub_worker_thread p y).0.threads z ≡ true → has p.threads z ≡ true
sub_worker_thread-has p y z h = ground (arith, count-erase p.threads y z)

pub sub_worker_threads-Inv :
    (p : Pool) (worker : ℕ → WorkerPc) (ids : List ℕ)
    → Inv p.threads p worker
    → ((y : ℕ) → 0 < count y ids → has p.threads y ≡ true → worker y ≡ reported)
    → Inv (sub_worker_threads p ids).threads (sub_worker_threads p ids) worker
unfolding sub_worker_threads
sub_worker_threads-Inv p worker [] v e = v
sub_worker_threads-Inv p worker (id ∷ ids) v e =
    sub_worker_threads-Inv (sub_worker_thread p id).0 worker ids
      (sub_worker_thread-Inv p worker id v (e id (ground arith)))
      (λ y c h. e y (ground arith) (sub_worker_thread-has p id y h))

-- A thread with a new id is created.
pub create-Inv :
    (p : Pool) (worker : ℕ → WorkerPc) (id : ℕ)
    → Inv p.threads p worker
    → worker id ≡ absent
    → 0 < id
    → Inv (id ∷ p.threads) (create_worker_thread p id) (update worker id checking)
unfolding census
create-Inv p worker id v e pos = record {
  once = λ i. elim (ℕ_discrete id i) [
    | yes same ↦ ground (arith, new, ap (λ z. count z p.threads) same)
    | no other ↦ ground (arith, v.once i)
  ];
  live =
      update_elim (λ j c. is_live c ≡ true → count j (id ∷ p.threads) ≡ 1) worker id checking
        (λ l. ground (arith, new)) (λ j l. ground (arith, v.live j l, new_apart j l));
  no_zero = ground (arith, v.no_zero);
  uncreated = λ j a. elim (ℕ_discrete id j) [
    | yes same ↦ absurd (ground arith)
    | no other ↦ ground (arith, v.uncreated j)
  ];
  listed =
      update_elim (λ j c. 0 < j → 0 < count j p.sub_worker_thread_id → is_gone c ≡ true) worker id
        checking (λ z l. absurd (ground (arith, v.listed id z l, ap is_gone e))) v.listed;
  stopped = ground (
    arith,
    v.stopped,
    census-congr (λ j. is_counted (update worker id checking j)) (λ j. is_counted (worker j))
        p.threads
        (λ j l.
          update_elim (λ j c. is_counted c ≡ is_counted (worker j)) worker id checking
            (sym (ap is_counted e)) (λ k. refl) j),
  );
  bound =
      update_elim (λ j c. compared c ≤ p.stopped_thread_num) worker id checking (omega arith)
        v.bound;
}
  where
    new : count id p.threads ≡ 0
    new = v.uncreated id e

    new_apart : (j : ℕ) → is_live (worker j) ≡ true → ¬ (j ≡ id)
    new_apart j l q = absurd (ground (arith, ap is_live e, ap (λ k. is_live (worker k)) q))

-- The thread that is about to be inserted is.
pub insert-Inv :
    (p : Pool) (worker : ℕ → WorkerPc) (id : ℕ)
    → Inv (id ∷ p.threads) p worker
    → Inv (insert p.threads id) (insert_worker_thread p id) worker
insert-Inv p worker id v =
    let same : id ∷ p.threads ≡ insert p.threads id = ground (arith, v.once id) in
    subst (λ l. Inv l (insert_worker_thread p id) worker) same (Inv-congr refl refl v)

-- The second part of a pass, if each worker that it erases has come to its end.
pub sub_vector-Inv :
    (p : Pool) (worker : ℕ → WorkerPc)
    → Inv p.threads p worker
    → NoneToAwait p.sub_worker_thread_id p worker
    → Inv (sub_vector p).threads (sub_vector p) worker
unfolding sub_vector
sub_vector-Inv p worker v g =
    if_elim (λ (r : Pool). Inv r.threads r worker) (is_empty p.sub_worker_thread_id) (λ _. v)
      (λ _. clear-Inv (sub_worker_threads-Inv p worker p.sub_worker_thread_id v g))
