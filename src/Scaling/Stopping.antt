-- ===== src/Scaling/Stopping.antt =====
-- What `ShutDown` asks for, and when the pool says that it is shut down.
use empool.Base.{
  ◌+◌, ◌⊎◌, inl, inr, Bool-cases, ℕ, zero, suc, ◌≤◌, ◌<◌, ◌≡◌, refl, Bool, true, false, Option,
  none, some, List, [], ◌∷◌, ◌++◌, arith, update, length, ap, ℕ_discrete, sym, append-nil,
  append_assoc, ◌∙◌,
}
use empool.Heap.{count}
use empool.Closeable.{Closeable, request_close}
use empool.Scaling.{
  sub_worker_thread, sub_worker_threads, sub_vector, Pool, Item, end_task, is_shut_down, close_all,
  push_ends, do_add_task, shut_step, ShutPc, outside, stopping, has,
}
use empool.Scaling.Census.{census, census_full}
use empool.Scaling.Worker.{WorkerPc, fetching, comparing, Input, take, worker_step, is_counted}
use empool.Scaling.System.{
  monitor_creates, monitor_inserts, monitor_erases, MonitorPc, inserting, System, step_worker, Step,
  adds, pushes_late, works, monitor_checks, monitor_wakes, monitor_acts, shuts, Steps, here, then_,
  start,
}
use empool.Scaling.Invariant.{compared}
use empool.Scaling.Always.{created, reachable-Inv}

-- Only a comparison that finds the count at the size of the map sets the state to `SHUTDOWN`.
take-state : (p : Pool) (items : List Item) → (take p items).0.state ≡ p.state
unfolding take
take-state p [] = refl
take-state p (end_task ∷ rest) = refl
take-state p (Item.task x ∷ rest) = refl

pub worker_step-shutdown :
    (u : Input) (p : Pool) (i : ℕ) (pc : WorkerPc)
    → is_shut_down p.state ≡ false
    → is_shut_down (worker_step u p i pc).0.state ≡ true
    → length p.threads ≤ compared pc
unfolding worker_step
worker_step-shutdown u p i pc a =
    elim pc
      as (λ c. is_shut_down (worker_step u p i c).0.state ≡ true → length p.threads ≤ compared c) [
        | comparing n ↦ λ b. ground (arith, a)
        | fetching ↦ λ b. absurd (ground (arith, a, ap is_shut_down (take-state p p.queue)))
        | _ ↦ λ b. absurd (ground (arith, a))
      ]

-- The monitor has created a thread that is not in the map, and that has counted itself; of the
-- workers in the map at most one has not.
abbrev pub CountedOutside : System → Type 0
CountedOutside s =
    (id : ℕ) × (s.monitor ≡ inserting id)
    × (is_counted (s.worker id) ≡ true)
    × (length s.pool.threads ≤ census (λ j. is_counted (s.worker j)) s.pool.threads + 1)

all_or_outside :
    (s : System) (m : MonitorPc)
    → s.monitor ≡ m
    → length s.pool.threads ≤ census (λ j. is_counted (s.worker j)) (created m s.pool.threads)
    → ((y : ℕ) → has s.pool.threads y ≡ true → is_counted (s.worker y) ≡ true) ⊎ CountedOutside s
unfolding census
all_or_outside s (inserting id) e le = elim (Bool-cases (is_counted (s.worker id))) [
  | inl c ↦ inr (id, e, c, ground (arith, le, c))
  | inr c ↦ inl (λ y h.
      census_full (λ j. is_counted (s.worker j)) s.pool.threads (ground (arith, le, c)) y
        (ground (arith, h)))
]
all_or_outside s m e le =
    inl (λ y h. census_full (λ j. is_counted (s.worker j)) s.pool.threads le y (ground (arith, h)))

-- When a worker sets the state of the pool to `SHUTDOWN`, every worker in the map has left its
-- loop and counted itself in its finish action; or the monitor has created a thread that is not in the
-- map yet and has counted itself, and at most one worker in the map has not.
pub shutdown_when_stopped :
    (min_size max_size : ℕ) (ids : List ℕ) {s : System} (u : Input) (i : ℕ)
    → count 0 ids ≡ 0
    → Steps (start min_size max_size ids) s
    → is_shut_down s.pool.state ≡ false
    → is_shut_down (step_worker u s i).pool.state ≡ true
    → ((y : ℕ) → has s.pool.threads y ≡ true → is_counted (s.worker y) ≡ true) ⊎ CountedOutside s
shutdown_when_stopped min_size max_size ids {s} u i zero_ r a b =
    let v = reachable-Inv min_size max_size ids zero_ r in
    all_or_outside s s.monitor refl
      (omega (arith, worker_step-shutdown u s.pool i (s.worker i) a b, v.bound i, v.stopped))

-- `n` end tasks at the end of a queue.
abbrev pub ends : ℕ → List Item
ends zero = []
ends (suc n) = end_task ∷ ends n

push_ends-append : (n : ℕ) (queue : List Item) → push_ends n queue ≡ queue ++ ends n
unfolding push_ends
push_ends-append zero queue = sym (append-nil queue)
push_ends-append (suc n) queue =
    push_ends-append n (queue ++ end_task ∷ []) ∙ append_assoc queue (end_task ∷ []) (ends n)

close_all-all :
    (ids : List ℕ) (thread : ℕ → Closeable) (y : ℕ)
    → (0 < count y ids → (close_all (λ _. false) ids thread y).is_request_close ≡ true)
      × ((thread y).is_request_close ≡ true
          → (close_all (λ _. false) ids thread y).is_request_close ≡ true)
unfolding close_all request_close
close_all-all [] thread y = (λ h. absurd (omega arith), λ h. h)
close_all-all (id ∷ ids) thread y =
    let (a, b) = close_all-all ids (update thread id (request_close false (thread id)).0) y in
    (
      λ h. elim (ℕ_discrete id y) [ yes same ↦ b (ground arith) | no other ↦ a (ground arith) ],
      λ h. b (ground (arith, ap (λ k. (thread k).is_request_close))),
    )

close_all-other :
    (ids : List ℕ) (thread : ℕ → Closeable) (y : ℕ)
    → count y ids ≡ 0
    → close_all (λ _. false) ids thread y ≡ thread y
unfolding close_all request_close
close_all-other [] thread y h = refl
close_all-other (id ∷ ids) thread y h = ground (
  arith,
  close_all-other ids (update thread id (request_close false (thread id)).0) y (omega arith),
)

-- Once the flag is set it stays set.
take-flag :
    (p : Pool) (items : List Item) → (take p items).0.is_request_shut_down ≡ p.is_request_shut_down
unfolding take
take-flag p [] = refl
take-flag p (end_task ∷ rest) = refl
take-flag p (Item.task x ∷ rest) = refl

worker_step-flag :
    (u : Input) (p : Pool) (i : ℕ) (pc : WorkerPc)
    → (worker_step u p i pc).0.is_request_shut_down ≡ p.is_request_shut_down
unfolding worker_step
worker_step-flag u p i pc =
    elim pc as (λ c. (worker_step u p i c).0.is_request_shut_down ≡ p.is_request_shut_down) [
      | fetching ↦ ground (arith, take-flag p p.queue)
      | _ ↦ ground arith
    ]

subs-flag :
    (p : Pool) (ids : List ℕ)
    → (sub_worker_threads p ids).is_request_shut_down ≡ p.is_request_shut_down
unfolding sub_worker_threads
subs-flag p [] = refl
subs-flag p (id ∷ ids) = ground (arith, subs-flag (sub_worker_thread p id).0 ids)

sub_vector-flag : (p : Pool) → (sub_vector p).is_request_shut_down ≡ p.is_request_shut_down
unfolding sub_vector
sub_vector-flag p = ground (arith, subs-flag p p.sub_worker_thread_id)

pub Step-flag :
    {s t : System}
    → Step s t
    → s.pool.is_request_shut_down ≡ true
    → t.pool.is_request_shut_down ≡ true
unfolding do_add_task shut_step
Step-flag {s} (adds none) h = h
Step-flag {s} (adds (some x)) h = ground arith
Step-flag {s} (pushes_late x) h = h
Step-flag {s} (works u i free) h = ground (arith, worker_step-flag u s.pool i (s.worker i))
Step-flag (monitor_checks e) h = h
Step-flag (monitor_wakes expires ok e) h = h
Step-flag (monitor_creates id e more a pos) h = h
Step-flag (monitor_inserts id e) h = h
Step-flag {s} (monitor_erases e gone) h = ground (arith, sub_vector-flag s.pool)
Step-flag {s} (monitor_acts e enough gone) h = ground (arith, sub_vector-flag s.pool)
Step-flag {s} (shuts fails j free) h = shut-flag fails s.pool (s.shut j) h
  where
    shut-flag :
        (fails : ℕ → Bool) (p : Pool) (pc : ShutPc)
        → p.is_request_shut_down ≡ true
        → (shut_step fails p pc).0.is_request_shut_down ≡ true
    shut-flag fails p pc h = elim pc as (λ c. (shut_step fails p c).0.is_request_shut_down ≡ true) [
      | outside ↦ ground arith
      | _ ↦ h
    ]

Steps-flag :
    {s t : System}
    → Steps s t
    → s.pool.is_request_shut_down ≡ true
    → t.pool.is_request_shut_down ≡ true
Steps-flag here h = h
Steps-flag (then_ r st) h = Step-flag st (Steps-flag r h)

-- Once `ShutDown` has been called, whatever happens after it, `AddTask` returns the null pointer
-- and changes nothing.
refused_for_ever :
    {s t : System} (x : Option ℕ)
    → s.pool.is_request_shut_down ≡ true
    → Steps s t
    → do_add_task t.pool x ≡ (t.pool, none)
unfolding do_add_task
refused_for_ever none h r = refl
refused_for_ever (some x) h r = ground (arith, Steps-flag r h)

-- The loops of `ShutDown`, when no exchange fails for no reason: every thread in the map is asked to
-- close, no other is, and the queue gets one `EndTask` for each behind the tasks that it has.
stop_asks_all :
    (p : Pool)
    → let (q, pc) = shut_step (λ _. false) p stopping in
      ((y : ℕ) → has p.threads y ≡ true → (q.thread y).is_request_close ≡ true)
      × ((y : ℕ) → has p.threads y ≡ false → q.thread y ≡ p.thread y)
      × (q.queue ≡ p.queue ++ ends (length p.threads))
unfolding shut_step
stop_asks_all p = (
  λ y h. (close_all-all p.threads p.thread y).0 (ground (arith, h)),
  λ y h. close_all-other p.threads p.thread y (ground (arith, h)),
  push_ends-append (length p.threads) p.queue,
)
