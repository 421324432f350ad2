-- ===== src/Scaling/Fixed.antt =====
-- src/FixedThreadPool.cpp: a scaling pool with equal sizes, before it is shut down.
use empool.Base.{
  if◌then◌else◌, ℕ, ◌≡◌, refl, sym, subst, ap, ◌⊎◌, inl, inr, Bool, true, false, Option, none, some,
  List, [], ◌∷◌, ◌++◌, arith, length, update_elim, if_elim, Bool-cases,
}
use empool.Closeable.{compare_exchange}
use empool.Queue.{push}
use empool.Scaling.{
  push_task, Pool, Item, end_task, task, new_fixed_pool, new_pool, wants_more, do_add_task,
  sub_vector, ShutPc, outside, returned, shut_step,
}
use empool.Scaling.Worker.{
  WorkerPc, absent, checking, fetching, judging, executing, lost, Input, take, worker_step,
}
use empool.Scaling.Stopping.{Step-flag}
use empool.Scaling.System.{
  MonitorPc, inserting, erasing, waiting, acting, ended, System, Step, adds, pushes_late, works,
  monitor_checks, monitor_wakes, monitor_creates, monitor_inserts, monitor_erases, monitor_acts,
  shuts, Steps, here, then_, start,
}

-- In its loop, and not about to leave it; or not created.
abbrev is_at_work : WorkerPc → Bool
is_at_work absent = true
is_at_work checking = true
is_at_work fetching = true
is_at_work judging = true
is_at_work (executing x) = true
is_at_work lost = true
is_at_work p = false

abbrev pub has_no_end : List Item → Bool
has_no_end [] = true
has_no_end (end_task ∷ rest) = false
has_no_end (task x ∷ rest) = has_no_end rest

abbrev pub is_out : ShutPc → Bool
is_out outside = true
is_out returned = true
is_out p = false

-- The monitor is in a pass that has created a thread.
abbrev pub has_created : MonitorPc → Bool
has_created (inserting id) = true
has_created erasing = true
has_created m = false

-- A pool with these threads that nobody shuts down.
record Calm (threads : List ℕ) (p : Pool) : Type 0 where
  same : p.threads ≡ threads
  core : p.core_pool_size ≡ length threads
  max : p.max_thread_size ≡ length threads
  vector : p.sub_worker_thread_id ≡ []
  no_end : has_no_end p.queue ≡ true
  unasked : (i : ℕ) → (p.thread i).is_request_close ≡ false

record CalmSystem (threads : List ℕ) (s : System) : Type 0 where
  calm : Calm threads s.pool
  at_work : (i : ℕ) → is_at_work (s.worker i) ≡ true
  out : (j : ℕ) → is_out (s.shut j) ≡ true
  none_new : has_created s.monitor ≡ false

pub has_no_end-append :
    (queue : List Item) (x : ℕ) → has_no_end queue ≡ true → has_no_end (queue ++ task x ∷ []) ≡ true
has_no_end-append [] x h = refl
has_no_end-append (end_task ∷ rest) x h = absurd (ground (arith, h))
has_no_end-append (task y ∷ rest) x h = has_no_end-append rest x h

with_queue :
    {threads : List ℕ} {p : Pool} (queue : List Item)
    → Calm threads p
    → has_no_end queue ≡ true
    → Calm threads (record p { queue = queue })
with_queue queue c h = record {
  same = c.same;
  core = c.core;
  max = c.max;
  vector = c.vector;
  no_end = h;
  unasked = c.unasked;
}

-- What a worker leaves.
abbrev Kept : List ℕ → Pool × WorkerPc → Type 0
Kept threads r = Calm threads r.0 × (is_at_work r.1 ≡ true)

take-Kept :
    (threads : List ℕ) (p : Pool) (queue : List Item)
    → Calm threads p
    → has_no_end queue ≡ true
    → Kept threads (take p queue)
unfolding take
take-Kept threads p [] c h = (c, refl)
take-Kept threads p (end_task ∷ rest) c h = absurd (ground (arith, h))
take-Kept threads p (task x ∷ rest) c h = (with_queue rest c h, refl)

worker_step-Kept :
    (threads : List ℕ) (u : Input) (p : Pool) (i : ℕ) (pc : WorkerPc)
    → is_at_work pc ≡ true
    → Calm threads p
    → Kept threads (worker_step u p i pc)
unfolding worker_step
worker_step-Kept threads u p i absent w c = (c, refl)
worker_step-Kept threads u p i checking w c = (c, ground (arith, c.unasked i))
worker_step-Kept threads u p i fetching w c =
    if_elim (λ (r : Pool × WorkerPc). Kept threads r) u.expires (λ _. (c, refl))
      (λ _. take-Kept threads p p.queue c c.no_end)
worker_step-Kept threads u p i judging w c = (c, ground (arith, c.core, ap length c.same))
worker_step-Kept threads u p i (executing x) w c = (c, ground arith)
worker_step-Kept threads u p i lost w c = (c, refl)
worker_step-Kept threads u p i pc w c = absurd (ground arith)

pushed-Calm : (threads : List ℕ) (p : Pool) (x : ℕ) → Calm threads p → Calm threads (push_task p x)
unfolding push
pushed-Calm threads p x c =
    with_queue (p.queue ++ task x ∷ []) c (has_no_end-append p.queue x c.no_end)

adds-Calm :
    (threads : List ℕ) (p : Pool) (x : Option ℕ) → Calm threads p → Calm threads (do_add_task p x).0
unfolding do_add_task push
adds-Calm threads p none c = c
adds-Calm threads p (some x) c =
    if_elim (λ (r : Pool × Option ℕ). Calm threads r.0) p.is_request_shut_down (λ _. c)
      (λ _. pushed-Calm threads p x c)

-- A pass of the monitor finds nothing to do.
acts-Calm :
    (threads : List ℕ) (p : Pool) → Calm threads p → (wants_more p ≡ false) × (sub_vector p ≡ p)
unfolding sub_vector
acts-Calm threads p c =
    let enough : wants_more p ≡ false = ground (arith, c.max, ap length c.same) in
    (enough, ground (arith, c.vector))

with_flag :
    {threads : List ℕ} {p : Pool} (flag : Bool)
    → Calm threads p
    → Calm threads (record p { is_request_shut_down = flag })
with_flag flag c = record {
  same = c.same;
  core = c.core;
  max = c.max;
  vector = c.vector;
  no_end = c.no_end;
  unasked = c.unasked;
}

-- What the caller of `ShutDown` leaves: its request, or all as it was.
abbrev Asked : List ℕ → Pool × ShutPc → Type 0
Asked threads r = (r.0.is_request_shut_down ≡ true) ⊎ (Calm threads r.0 × (is_out r.1 ≡ true))

shut_step-Asked :
    (threads : List ℕ) (fails : ℕ → Bool) (p : Pool) (pc : ShutPc)
    → is_out pc ≡ true
    → Calm threads p
    → Asked threads (shut_step fails p pc)
unfolding shut_step
shut_step-Asked threads fails p outside o c =
    elim (Bool-cases (compare_exchange (fails 0) p.is_request_shut_down).1) [
      | inl won ↦ inl (ground (arith, won))
      | inr failed ↦ inr (with_flag _ c, ground (arith, failed))
    ]
shut_step-Asked threads fails p returned o c = inr (c, refl)
shut_step-Asked threads fails p pc o c = absurd (ground arith)

-- Nobody has come to shut the pool down, or it is as at its start.
abbrev Inv : List ℕ → System → Type 0
Inv threads s = (s.pool.is_request_shut_down ≡ true) ⊎ CalmSystem threads s

-- The monitor goes on, or ends.
pub goes_on :
    (b : Bool) (m : MonitorPc)
    → has_created m ≡ false
    → has_created (if b then ended else m) ≡ false
goes_on true m e = refl
goes_on false m e = e

Step-Calm : (threads : List ℕ) {s t : System} → Step s t → CalmSystem threads s → Inv threads t
Step-Calm threads {s} (adds x) v = inr (record {
  calm = adds-Calm threads s.pool x v.calm;
  at_work = v.at_work;
  out = v.out;
  none_new = v.none_new;
})
Step-Calm threads {s} (pushes_late x) v = inr (record {
  calm = pushed-Calm threads s.pool x v.calm;
  at_work = v.at_work;
  out = v.out;
  none_new = v.none_new;
})
Step-Calm threads {s} (works u i free) v =
    let k : Kept threads (worker_step u s.pool i (s.worker i)) =
      worker_step-Kept threads u s.pool i (s.worker i) (v.at_work i) v.calm in
    inr (record {
      calm = k.0;
      at_work = update_elim (λ j p. is_at_work p ≡ true) s.worker i _ k.1 v.at_work;
      out = v.out;
      none_new = v.none_new;
    })
Step-Calm threads {s} (monitor_checks e) v = inr (record {
  calm = v.calm;
  at_work = v.at_work;
  out = v.out;
  none_new = goes_on s.pool.monitor_thread.is_request_close waiting refl;
})
Step-Calm threads {s} (monitor_wakes expires ok e) v = inr (record {
  calm = v.calm;
  at_work = v.at_work;
  out = v.out;
  none_new = goes_on s.pool.monitor_thread.is_request_close acting refl;
})
Step-Calm threads {s} (monitor_creates id e more a pos) v =
    absurd (ground (arith, (acts-Calm threads s.pool v.calm).0, more))
Step-Calm threads (monitor_inserts id e) v = absurd (ground (arith, v.none_new, e))
Step-Calm threads (monitor_erases e gone) v = absurd (ground (arith, v.none_new, e))
Step-Calm threads {s} (monitor_acts e enough gone) v = inr (record {
  calm = subst (Calm threads) (sym (acts-Calm threads s.pool v.calm).1) v.calm;
  at_work = v.at_work;
  out = v.out;
  none_new = refl;
})
Step-Calm threads {s} (shuts fails j free) v =
    elim (shut_step-Asked threads fails s.pool (s.shut j) (v.out j) v.calm) [
      | inl asked ↦ inl asked
      | inr (c, o) ↦ inr (record {
        calm = c;
        at_work = v.at_work;
        out = update_elim (λ j pc. is_out pc ≡ true) s.shut j _ o v.out;
        none_new = v.none_new;
      })
    ]

module _ (n : ℕ) (ids : List ℕ) where
  abbrev first_threads : List ℕ
  first_threads = (new_fixed_pool n ids).threads

  start-Calm : length first_threads ≡ n → CalmSystem first_threads (start n n ids)
  unfolding new_pool
  start-Calm e = record {
    calm = record {
      same = refl;
      core = sym e;
      max = sym e;
      vector = refl;
      no_end = refl;
      unasked = λ i. refl;
    };
    at_work = λ i. ground arith;
    out = λ j. refl;
    none_new = refl;
  }

  Steps-Inv :
      length first_threads ≡ n → {s : System} → Steps (start n n ids) s → Inv first_threads s
  Steps-Inv e here = inr (start-Calm e)
  Steps-Inv e (then_ r st) = elim (Steps-Inv e r) [
    | inl asked ↦ inl (Step-flag st asked)
    | inr calm ↦ Step-Calm first_threads st calm
  ]

-- A fixed pool, whose constructor has made `n` threads with different ids, keeps them: until
-- somebody calls `ShutDown`, whatever happens, its map has these threads, the monitor is given none to
-- erase, and every worker is in its loop, or out of it by an exception, but never leaves it to
-- close itself.
fixed_keeps_threads :
    (n : ℕ) (ids : List ℕ) {s : System}
    → length (new_fixed_pool n ids).threads ≡ n
    → Steps (start n n ids) s
    → s.pool.is_request_shut_down ≡ false
    → (s.pool.threads ≡ (new_fixed_pool n ids).threads)
      × (s.pool.sub_worker_thread_id ≡ [])
      × ((i : ℕ) → is_at_work (s.worker i) ≡ true)
fixed_keeps_threads n ids e r no_shut = elim (Steps-Inv n ids e r) [
  | inl asked ↦ absurd (ground (arith, asked, no_shut))
  | inr v ↦ (v.calm.same, v.calm.vector, v.at_work)
]
