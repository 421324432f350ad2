-- ===== src/Scaling/Lifelong.antt =====
-- What holds of a fixed pool, src/FixedThreadPool.cpp, before, while and after it is shut down.
use empool.Base.{
  zero, suc, leb, if◌then◌else◌, ℕ, ◌<◌, ◌≡◌, refl, sym, ap, inl, inr, Bool, true, false, Option,
  none, some, List, [], ◌∷◌, ◌++◌, arith, length, if_elim, Bool-cases,
}
use empool.Heap.{count}
use empool.Queue.{push, is_empty}
use empool.Scaling.{
  PoolState, init, running, push_task, Pool, Item, end_task, task, wants_more, do_add_task,
  sub_vector, sub_worker_threads,
}
use empool.Scaling.Worker.{
  WorkerPc, absent, checking, fetching, judging, executing, lost, leaving, counting, comparing,
  counted, Input, take, worker_step, test_count,
}
use empool.Scaling.Fixed.{has_no_end, has_no_end-append}

-- `SetState(STOP)` has been called.
abbrev pub is_closed : PoolState → Bool
is_closed running = false
is_closed init = false
is_closed _ = true

-- Where a worker of a fixed pool may stand: it leaves its loop only once the pool is closed, and
-- never to close itself.
abbrev pub may_stand : Bool → WorkerPc → Bool
may_stand closed absent = true
may_stand closed checking = true
may_stand closed fetching = true
may_stand closed judging = true
may_stand closed (executing x) = true
may_stand closed lost = true
may_stand closed leaving = closed
may_stand closed counting = closed
may_stand closed (comparing n) = closed
may_stand closed counted = closed
may_stand closed p = false

abbrev pub is_absent : WorkerPc → Bool
is_absent absent = true
is_absent p = false

-- The pool keeps its threads; nobody has been asked to end, and no `EndTask` is in the queue, before
-- it is closed; only the id 0 is ever in the vector.
pub record Life (threads : List ℕ) (p : Pool) : Type 0 where
  pub same : p.threads ≡ threads
  pub core : p.core_pool_size ≡ length threads
  pub max : p.max_thread_size ≡ length threads
  pub vector : (i : ℕ) → 0 < i → count i p.sub_worker_thread_id ≡ 0
  pub no_end : is_closed p.state ≡ false → has_no_end p.queue ≡ true
  pub unasked : is_closed p.state ≡ false → (i : ℕ) → (p.thread i).is_request_close ≡ false
  pub flagged : is_closed p.state ≡ true → p.is_request_shut_down ≡ true

with_queue :
    {threads : List ℕ} {p : Pool} (queue : List Item)
    → Life threads p
    → (is_closed p.state ≡ false → has_no_end queue ≡ true)
    → Life threads (record p { queue = queue })
with_queue queue c h = record {
  same = c.same;
  core = c.core;
  max = c.max;
  vector = c.vector;
  no_end = h;
  unasked = c.unasked;
  flagged = c.flagged;
}

pub pushed-Life :
    (threads : List ℕ) (p : Pool) (x : ℕ) → Life threads p → Life threads (push_task p x)
unfolding push
pushed-Life threads p x c =
    with_queue (p.queue ++ task x ∷ []) c (λ o. has_no_end-append p.queue x (c.no_end o))

-- What a step of a worker at `pc` leaves.
pub record Leaves (threads : List ℕ) (p : Pool) (pc : WorkerPc) (r : Pool × WorkerPc) : Type 0 where
  pub life : Life threads r.0
  pub closed_same : is_closed r.0.state ≡ is_closed p.state
  pub flag_same : r.0.is_request_shut_down ≡ p.is_request_shut_down
  pub stands : may_stand (is_closed p.state) r.1 ≡ true
  pub absent_same : is_absent r.1 ≡ is_absent pc

goes_to :
    {threads : List ℕ} {p : Pool} {pc : WorkerPc} (pc' : WorkerPc)
    → Life threads p
    → may_stand (is_closed p.state) pc' ≡ true
    → is_absent pc' ≡ is_absent pc
    → Leaves threads p pc (p, pc')
goes_to pc' c m a = record {
  life = c;
  closed_same = refl;
  flag_same = refl;
  stands = m;
  absent_same = a;
}

take-Leaves :
    (threads : List ℕ) (p : Pool) (queue : List Item)
    → Life threads p
    → (is_closed p.state ≡ false → has_no_end queue ≡ true)
    → Leaves threads p fetching (take p queue)
unfolding take
take-Leaves threads p [] c h = goes_to fetching c refl refl
take-Leaves threads p (end_task ∷ rest) c h = record {
  life = with_queue rest c (λ o. absurd (ground (arith, h o)));
  closed_same = refl;
  flag_same = refl;
  stands = elim (Bool-cases (is_closed p.state)) [
    | inl e ↦ e
    | inr o ↦ absurd (ground (arith, h o))
  ];
  absent_same = refl;
}
take-Leaves threads p (task x ∷ rest) c h = record {
  life = with_queue rest c h;
  closed_same = refl;
  flag_same = refl;
  stands = refl;
  absent_same = refl;
}

leaves_closed :
    (threads : List ℕ) (p : Pool) (i : ℕ) (flag : Bool)
    → Life threads p
    → (p.thread i).is_request_close ≡ flag
    → may_stand (is_closed p.state) (if flag then leaving else fetching) ≡ true
leaves_closed threads p i true c e = elim (Bool-cases (is_closed p.state)) [
  | inl k ↦ k
  | inr o ↦ absurd (ground (arith, e, c.unasked o i))
]
leaves_closed threads p i false c e = refl

test_count-Leaves :
    (threads : List ℕ) (p : Pool) (n : ℕ)
    → Life threads p
    → is_closed p.state ≡ true
    → Leaves threads p (comparing n) (test_count p n, counted)
test_count-Leaves threads p n c k =
    if_elim (λ (q : Pool). Leaves threads p (comparing n) (q, counted)) (leb (length p.threads) n)
      (λ _. record {
        life = record {
          same = c.same;
          core = c.core;
          max = c.max;
          vector = c.vector;
          no_end = λ o. absurd (cc o);
          unasked = λ o. absurd (cc o);
          flagged = λ _. c.flagged k;
        };
        closed_same = sym k;
        flag_same = refl;
        stands = k;
        absent_same = refl;
      })
      (λ _. goes_to counted c k refl)

pub worker_step-Leaves :
    (threads : List ℕ) (u : Input) (p : Pool) (i : ℕ) (pc : WorkerPc)
    → may_stand (is_closed p.state) pc ≡ true
    → Life threads p
    → Leaves threads p pc (worker_step u p i pc)
unfolding worker_step
worker_step-Leaves threads u p i absent w c = goes_to absent c refl refl
worker_step-Leaves threads u p i checking w c =
    goes_to _ c (leaves_closed threads p i _ c refl) (ground arith)
worker_step-Leaves threads u p i fetching w c =
    if_elim (λ (r : Pool × WorkerPc). Leaves threads p fetching r) u.expires
      (λ _. goes_to judging c refl refl) (λ _. take-Leaves threads p p.queue c c.no_end)
worker_step-Leaves threads u p i judging w c =
    goes_to _ c (ground (arith, c.core, ap length c.same))
      (ground (arith, c.core, ap length c.same))
worker_step-Leaves threads u p i (executing x) w c = goes_to _ c (ground arith) (ground arith)
worker_step-Leaves threads u p i lost w c = goes_to lost c refl refl
worker_step-Leaves threads u p i leaving w c =
    goes_to _ c (ground (arith, c.flagged w, w)) (ground (arith, c.flagged w))
worker_step-Leaves threads u p i counting w c = record {
  life = record {
    same = c.same;
    core = c.core;
    max = c.max;
    vector = c.vector;
    no_end = c.no_end;
    unasked = c.unasked;
    flagged = c.flagged;
  };
  closed_same = refl;
  flag_same = refl;
  stands = w;
  absent_same = refl;
}
worker_step-Leaves threads u p i (comparing n) w c = test_count-Leaves threads p n c w
worker_step-Leaves threads u p i counted w c = goes_to counted c w refl
worker_step-Leaves threads u p i pc w c = absurd (ground (arith, w))

pub adds-Life :
    (threads : List ℕ) (p : Pool) (x : Option ℕ) → Life threads p → Life threads (do_add_task p x).0
unfolding do_add_task push
adds-Life threads p none c = c
adds-Life threads p (some x) c =
    if_elim (λ (r : Pool × Option ℕ). Life threads r.0) p.is_request_shut_down (λ _. c)
      (λ _. pushed-Life threads p x c)

-- The id 0 is in no map.
none_to_erase :
    (p : Pool) (ids : List ℕ)
    → count 0 p.threads ≡ 0
    → ((i : ℕ) → 0 < i → count i ids ≡ 0)
    → sub_worker_threads p ids ≡ p
unfolding sub_worker_threads
none_to_erase p [] z h = refl
none_to_erase p (zero ∷ ids) z h =
    ground (arith, z, none_to_erase p ids z (λ i lt. ground (arith, h i lt)))
none_to_erase p (suc n ∷ ids) z h = absurd (ground (arith, h (suc n) (omega arith)))

empties :
    (p : Pool) (ids : List ℕ)
    → p.sub_worker_thread_id ≡ ids
    → sub_worker_threads p ids ≡ p
    → (if is_empty ids then p else record (sub_worker_threads p ids) { sub_worker_thread_id = [] })
      ≡ record p { sub_worker_thread_id = [] }
empties p [] e h = λ k. record p { sub_worker_thread_id = e k }
empties p (x ∷ ids) e h = ap (λ (q : Pool). record q { sub_worker_thread_id = [] }) h

-- A pass of the monitor only empties the vector.
pub acts-Life :
    (threads : List ℕ) (p : Pool)
    → count 0 threads ≡ 0
    → Life threads p
    → (wants_more p ≡ false) × (sub_vector p ≡ record p { sub_worker_thread_id = [] })
unfolding sub_vector
acts-Life threads p z c =
    let enough : wants_more p ≡ false = ground (arith, c.max, ap length c.same) in
    let nothing =
      none_to_erase p p.sub_worker_thread_id (ground (arith, z, ap (count 0) c.same)) c.vector in
    (enough, ground (arith, empties p p.sub_worker_thread_id refl nothing))

pub emptied-Life :
    (threads : List ℕ) (p : Pool)
    → Life threads p
    → Life threads (record p { sub_worker_thread_id = [] })
emptied-Life threads p c = record {
  same = c.same;
  core = c.core;
  max = c.max;
  vector = λ i lt. refl;
  no_end = c.no_end;
  unasked = c.unasked;
  flagged = c.flagged;
}
