-- ===== src/Scaling/Bounds.antt =====
-- How many threads the pool has, and what a pass of the monitor does to them.
use empool.Base.{
  Bool, ℕ, ◌+◌, ◌≤◌, ◌<◌, ◌≡◌, refl, false, List, [], ◌∷◌, arith, subst, one_if, if_elim, length,
  ap, sym, Bool-cases, inl, inr, ℕ_discrete, if◌then◌else◌,
}
use empool.Heap.{count}
use empool.Queue.{is_empty}
use empool.Scaling.{
  Pool, insert, insert_all, has, wants_more, new_pool, sub_worker_thread, sub_worker_threads,
  handle_worker_thread, add_worker_thread, sub_vector,
}
use empool.Scaling.Census.{length-erase, count-erase, count-erase-same}
use empool.Scaling.Worker.{absent}
use empool.Scaling.System.{
  MonitorPc, inserting, waiting, acting, ended, System, Step, adds, pushes_late, works,
  monitor_checks, monitor_wakes, monitor_creates, monitor_inserts, monitor_erases, monitor_acts,
  shuts, Steps, here, then_, start,
}
use empool.Scaling.Always.{created, reachable-Inv}
use empool.Scaling.Unchanged.{SameMap, worker_step-SameMap, shut_step-SameMap, do_add_task-SameMap}

-- The loop over the vector leaves no more threads than there were, and leaves the rest alone.
sub_worker_threads-length :
    (p : Pool) (ids : List ℕ)
    → (length (sub_worker_threads p ids).threads ≤ length p.threads)
      × ((sub_worker_threads p ids).max_thread_size ≡ p.max_thread_size)
unfolding sub_worker_threads
sub_worker_threads-length p [] = (omega arith, refl)
sub_worker_threads-length p (id ∷ ids) =
    let (l, m) = sub_worker_threads-length (sub_worker_thread p id).0 ids in
    (ground (arith, l, length-erase p.threads id), ground (arith, m))

cleared-length :
    (q : Pool)
    → (length (sub_vector q).threads ≤ length q.threads)
      × ((sub_vector q).max_thread_size ≡ q.max_thread_size)
unfolding sub_vector
cleared-length q =
    if_elim
      (λ (r : Pool).
        (length r.threads ≤ length q.threads) × (r.max_thread_size ≡ q.max_thread_size))
      (is_empty q.sub_worker_thread_id) (λ _. (omega arith, refl))
      (λ _. sub_worker_threads-length q q.sub_worker_thread_id)

handle-length :
    (p : Pool) (id : ℕ)
    → length (handle_worker_thread p id).threads ≤ length p.threads + one_if (wants_more p)
unfolding handle_worker_thread
handle-length p id = elim (Bool-cases (wants_more p)) [
  | inl more ↦ let l = (cleared-length (add_worker_thread p id)).0 in rw more (ground (arith, l))
  | inr enough ↦ let l = (cleared-length p).0 in rw enough (ground (arith, l))
]

-- The map has room for the thread that the monitor is about to insert.
abbrev Within : List ℕ → Pool → Type 0
Within threads p = length threads ≤ p.max_thread_size

abbrev WithinSystem : System → Type 0
WithinSystem s = Within (created s.monitor s.pool.threads) s.pool

kept-Within :
    (s : System) (p : Pool)
    → SameMap s.pool p
    → WithinSystem s
    → Within (created s.monitor p.threads) p
kept-Within s p m h =
    omega (arith, h, m.max_same, ap (λ l. length (created s.monitor l)) m.threads_same)

moves-Within :
    (s : System) (m : MonitorPc) (b : Bool)
    → created m s.pool.threads ≡ s.pool.threads
    → length s.pool.threads ≤ s.pool.max_thread_size
    → Within (created (if b then ended else m) s.pool.threads) s.pool
moves-Within s m b e h =
    if_elim (λ k. Within (created k s.pool.threads) s.pool) b (λ _. h)
      (λ _. omega (arith, h, ap length e))

Step-Within : {s t : System} → Step s t → WithinSystem s → WithinSystem t
Step-Within {s} (adds x) h = kept-Within s _ (do_add_task-SameMap s.pool x) h
Step-Within {s} (pushes_late x) h = h
Step-Within {s} (works u i free) h = kept-Within s _ (worker_step-SameMap u s.pool i (s.worker i)) h
Step-Within {s} (monitor_checks e) h =
    moves-Within s waiting _ refl (omega (arith, h, ap (λ m. length (created m s.pool.threads)) e))
Step-Within {s} (monitor_wakes expires ok e) h =
    moves-Within s acting _ refl (omega (arith, h, ap (λ m. length (created m s.pool.threads)) e))
Step-Within {s} (monitor_creates id e more a pos) h = ground (arith, more)
Step-Within {s} (monitor_inserts id e) h =
    ground (arith, h, ap (λ m. length (created m s.pool.threads)) e)
Step-Within {s} (monitor_erases e gone) h =
    let (l, m) = cleared-length s.pool in
    omega (arith, l, m, h, ap (λ m. length (created m s.pool.threads)) e)
Step-Within {s} (monitor_acts e enough gone) h =
    let (l, m) = cleared-length s.pool in
    omega (arith, l, m, h, ap (λ m. length (created m s.pool.threads)) e)
Step-Within {s} (shuts fails j free) h =
    kept-Within s _ (shut_step-SameMap fails s.pool (s.shut j)) h

Steps-Within : {s t : System} → WithinSystem s → Steps s t → WithinSystem t
Steps-Within h here = h
Steps-Within h (then_ r st) = Step-Within st (Steps-Within h r)

insert_all-length : (xs ids : List ℕ) → length (insert_all xs ids) ≤ length xs + length ids
unfolding insert_all
insert_all-length xs [] = omega arith
insert_all-length xs (id ∷ ids) = ground (arith, insert_all-length (insert xs id) ids)

-- A pool that starts with no more threads than `maxThreadSize` never has more, the one that the
-- monitor is about to insert included.
pub within_max :
    (max_size : ℕ) (ids : List ℕ) {s : System}
    → length ids ≤ max_size
    → Steps (start (length ids) max_size ids) s
    → length (created s.monitor s.pool.threads) ≤ s.pool.max_thread_size
unfolding new_pool
within_max max_size ids le r = Steps-Within (omega (arith, insert_all-length [] ids, le)) r

-- What the loop over the vector does to an id that the map has at most once.
sub-count :
    (p : Pool) (id y : ℕ)
    → count y p.threads ≤ 1
    → (count y (sub_worker_thread p id).0.threads ≤ count y p.threads)
      × (id ≡ y → count y (sub_worker_thread p id).0.threads ≡ 0)
sub-count p id y h = (
  ground (arith, count-erase p.threads id y),
  λ e.
      subst (λ k. count k (sub_worker_thread p id).0.threads ≡ 0) e
        (ground (arith, count-erase-same p.threads id, ap (λ k. count k p.threads) e)),
)

subs-count :
    (p : Pool) (ids : List ℕ) (y : ℕ)
    → count y p.threads ≤ 1
    → (count y (sub_worker_threads p ids).threads ≤ count y p.threads)
      × (0 < count y ids → count y (sub_worker_threads p ids).threads ≡ 0)
unfolding sub_worker_threads
subs-count p [] y h = (omega arith, λ c. absurd (omega arith))
subs-count p (id ∷ ids) y h =
    let (le, gone) = sub-count p id y h in
    let (le', gone') = subs-count (sub_worker_thread p id).0 ids y (omega (arith, le)) in
    (
      omega (arith, le, le'),
      λ c. elim (ℕ_discrete id y) [
        | yes same ↦ omega (arith, le', gone same)
        | no other ↦ gone' (ground arith)
      ],
    )

cleared-count :
    (q : Pool) (y : ℕ)
    → count y q.threads ≤ 1
    → ((sub_vector q).sub_worker_thread_id ≡ [])
      × (0 < count y q.sub_worker_thread_id → count y (sub_vector q).threads ≡ 0)
unfolding sub_vector
cleared-count q y h = cleared q.sub_worker_thread_id refl
  where
    cleared :
        (ids : List ℕ)
        → ids ≡ q.sub_worker_thread_id
        → let r =
            if is_empty ids
            then q
            else record (sub_worker_threads q ids) { sub_worker_thread_id = [] } in
          (r.sub_worker_thread_id ≡ []) × (0 < count y ids → count y r.threads ≡ 0)
    cleared [] e = (sym e, λ c. absurd (omega arith))
    cleared (id ∷ ids) e = (refl, (subs-count q (id ∷ ids) y h).1)

-- The new thread has an id that is not in the map.
pass-count :
    (p : Pool) (id y : ℕ)
    → count y p.threads ≤ 1
    → count id p.threads ≡ 0
    → ((handle_worker_thread p id).sub_worker_thread_id ≡ [])
      × (0 < count y p.sub_worker_thread_id → count y (handle_worker_thread p id).threads ≡ 0)
unfolding handle_worker_thread
pass-count p id y h new = elim (Bool-cases (wants_more p)) [
  | inl more ↦ rw more (
      cleared-count (add_worker_thread p id) y (elim (ℕ_discrete id y) [
        | yes same ↦ ground (arith, ap (λ k. count k p.threads) same)
        | no other ↦ ground arith
      ]))
  | inr enough ↦ rw enough (cleared-count p y h)
]

in_created :
    (m : MonitorPc) (threads : List ℕ) (y : ℕ) → count y threads ≤ count y (created m threads)
in_created (inserting id) threads y = ground arith
in_created m threads y = omega arith

-- A pass of the monitor of a reachable pool, which may create a thread with a new id, leaves the
-- vector empty and none of its ids in the map, and adds at most one thread, only where more than
-- 1024 tasks wait and there are fewer threads than `maxThreadSize`.
pub pass_erases :
    (min_size max_size : ℕ) (ids : List ℕ) {s : System} (id : ℕ)
    → count 0 ids ≡ 0
    → Steps (start min_size max_size ids) s
    → s.worker id ≡ absent
    → 0 < id
    → let p = handle_worker_thread s.pool id in
      (p.sub_worker_thread_id ≡ [])
      × ((y : ℕ) → 0 < count y s.pool.sub_worker_thread_id → has p.threads y ≡ false)
      × (length p.threads ≤ length s.pool.threads + one_if (wants_more s.pool))
pass_erases min_size max_size ids {s} id zero_ r a pos =
    let v = reachable-Inv min_size max_size ids zero_ r in
    let new : count id s.pool.threads ≡ 0 =
      omega (arith, in_created s.monitor s.pool.threads id, v.uncreated id a) in
    (
      (pass-count s.pool id 0 (omega (arith, in_created s.monitor s.pool.threads 0, v.once 0))
          new).0,
      λ y c. ground (
        arith,
        (pass-count s.pool id y (omega (arith, in_created s.monitor s.pool.threads y, v.once y))
              new).1
            c,
      ),
      handle-length s.pool id,
    )
