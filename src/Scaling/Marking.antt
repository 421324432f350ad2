-- ===== src/Scaling/Marking.antt =====
-- The worker of a fixed pool, src/FixedThreadPool.cpp, that counts itself last marks the pool as
-- shut down.
use empool.Base.{
  ℕ, ◌+◌, ◌<◌, ◌≡◌, refl, sym, ap, ◌∙◌, ◌⊎◌, inl, inr, Bool, true, false, Option, none, some, List,
  [], ◌∷◌, arith, length, leb, update-at, update-other, if_elim, Bool-cases, update, ℕ_discrete,
}
use empool.Heap.{count}
use empool.Scaling.{
  Pool, Item, end_task, task, is_shut_down, do_add_task, shut_step, ShutPc, outside, setting,
  stopping, asking, adding, returned,
}
use empool.Scaling.Worker.{
  WorkerPc, fetching, counting, comparing, counted, Input, take, worker_step, test_count,
}
use empool.Scaling.System.{
  System, Step, adds, pushes_late, works, monitor_checks, monitor_wakes, monitor_creates,
  monitor_inserts, monitor_erases, monitor_acts, shuts,
}
use empool.Scaling.Lifelong.{is_closed, acts-Life}
use empool.Scaling.Lasting.{Lasting}

-- The pool is marked, or some have not counted themselves, or the last one is about to mark it.
abbrev pub Marked : List ℕ → Pool → (ℕ → WorkerPc) → Type 0
Marked threads p worker =
    (is_shut_down p.state ≡ true)
    ⊎ (p.stopped_thread_num < length threads)
    ⊎ ((i : ℕ) × (worker i ≡ comparing p.stopped_thread_num))

abbrev is_counting : WorkerPc → Bool
is_counting counting = true
is_counting (comparing n) = true
is_counting pc = false

take-same :
    (p : Pool) (queue : List Item)
    → ((take p queue).0.state ≡ p.state)
      × ((take p queue).0.stopped_thread_num ≡ p.stopped_thread_num)
unfolding take
take-same p [] = (refl, refl)
take-same p (end_task ∷ rest) = (refl, refl)
take-same p (task x ∷ rest) = (refl, refl)

worker_step-same :
    (u : Input) (p : Pool) (i : ℕ) (pc : WorkerPc)
    → is_counting pc ≡ false
    → ((worker_step u p i pc).0.state ≡ p.state)
      × ((worker_step u p i pc).0.stopped_thread_num ≡ p.stopped_thread_num)
unfolding worker_step
worker_step-same u p i fetching e =
    if_elim
      (λ (r : Pool × WorkerPc).
        (r.0.state ≡ p.state) × (r.0.stopped_thread_num ≡ p.stopped_thread_num))
      u.expires (λ _. (refl, refl)) (λ _. take-same p p.queue)
worker_step-same u p i counting e = absurd (cc e)
worker_step-same u p i (comparing n) e = absurd (cc e)
worker_step-same u p i pc e = (refl, refl)

-- Another worker is about to mark the pool.
other_marks :
    (threads : List ℕ) (p p' : Pool) (worker : ℕ → WorkerPc) (i k : ℕ) (q : WorkerPc)
    → p'.stopped_thread_num ≡ p.stopped_thread_num
    → ¬ (i ≡ k)
    → worker k ≡ comparing p.stopped_thread_num
    → Marked threads p' (update worker i q)
other_marks threads p p' worker i k q s ne e =
    inr (inr (k, update-other worker i q k ne ∙ e ∙ ap comparing (sym s)))

idle_marks :
    (threads : List ℕ) (p p' : Pool) (worker : ℕ → WorkerPc) (i : ℕ) (q : WorkerPc)
    → p'.state ≡ p.state
    → p'.stopped_thread_num ≡ p.stopped_thread_num
    → is_counting (worker i) ≡ false
    → Marked threads p worker
    → Marked threads p' (update worker i q)
idle_marks threads p p' worker i q st s e (inl m) = inl (ap is_shut_down st ∙ m)
idle_marks threads p p' worker i q st s e (inr (inl l)) = inr (inl (omega (arith, s, l)))
idle_marks threads p p' worker i q st s e (inr (inr (k, d))) =
    other_marks threads p p' worker i k q s
      (λ same. absurd (ground (arith, e, ap (λ j. is_counting (worker j)) same, ap is_counting d)))
      d

compares_marks :
    (threads : List ℕ) (p : Pool) (worker : ℕ → WorkerPc) (i n : ℕ)
    → p.threads ≡ threads
    → worker i ≡ comparing n
    → Marked threads p worker
    → Marked threads (test_count p n) (update worker i counted)
compares_marks threads p worker i n t e (inl m) = inl (
    if_elim (λ (q : Pool). is_shut_down q.state ≡ true) (leb (length p.threads) n) (λ _. refl)
      (λ _. m))
compares_marks threads p worker i n t e (inr (inl l)) = inr (
    inl (
      if_elim (λ (q : Pool). q.stopped_thread_num < length threads) (leb (length p.threads) n)
        (λ _. l) (λ _. l)))
compares_marks threads p worker i n t e (inr (inr (k, d))) = elim (ℕ_discrete i k) [
  | no other ↦
      other_marks threads p (test_count p n) worker i k counted
        (if_elim (λ (q : Pool). q.stopped_thread_num ≡ p.stopped_thread_num)
          (leb (length p.threads) n) (λ _. refl) (λ _. refl))
        other d
  | yes same ↦ last (sym e ∙ ap worker same ∙ d)
]
  where
    last :
        comparing n ≡ comparing p.stopped_thread_num
        → Marked threads (test_count p n) (update worker i counted)
    last r = elim (Bool-cases (leb (length p.threads) n)) [
      | inl le ↦ inl (ground (arith, le))
      | inr gt ↦ inr (inl (ground (arith, gt, r, ap length t)))
    ]

pub works-Marked :
    (threads : List ℕ) (u : Input) (p : Pool) (worker : ℕ → WorkerPc) (i : ℕ) (pc : WorkerPc)
    → p.threads ≡ threads
    → worker i ≡ pc
    → Marked threads p worker
    → Marked threads (worker_step u p i pc).0 (update worker i (worker_step u p i pc).1)
unfolding worker_step
works-Marked threads u p worker i counting t e m =
    inr (inr (i, update-at worker i (comparing (p.stopped_thread_num + 1))))
works-Marked threads u p worker i (comparing n) t e m = compares_marks threads p worker i n t e m
works-Marked threads u p worker i pc t e m =
    let (st, s) = worker_step-same u p i pc refl in
    idle_marks threads p (worker_step u p i pc).0 worker i (worker_step u p i pc).1 st s
      (ap is_counting e) m

shuts-Marked :
    (threads : List ℕ) (fails : ℕ → Bool) (p : Pool) (worker : ℕ → WorkerPc) (pc : ShutPc)
    → (pc ≡ setting → is_shut_down p.state ≡ false)
    → Marked threads p worker
    → Marked threads (shut_step fails p pc).0 worker
unfolding shut_step
shuts-Marked threads fails p worker setting h (inl m) = absurd (ground (arith, h refl, m))
shuts-Marked threads fails p worker setting h (inr m) = inr m
shuts-Marked threads fails p worker outside h m = m
shuts-Marked threads fails p worker stopping h m = m
shuts-Marked threads fails p worker asking h m = m
shuts-Marked threads fails p worker adding h m = m
shuts-Marked threads fails p worker returned h m = m

open_unmarked : (p : Pool) → is_closed p.state ≡ false → is_shut_down p.state ≡ false
open_unmarked p o = ground (arith, o)

pub Step-Marked :
    (threads : List ℕ) {s t : System}
    → count 0 threads ≡ 0
    → Step s t
    → Lasting threads s
    → Marked threads s.pool s.worker
    → Marked threads t.pool t.worker
unfolding do_add_task
Step-Marked threads z (adds none) v m = m
Step-Marked threads {s} z (adds (some x)) v m =
    if_elim (λ (r : Pool × Option ℕ). Marked threads r.0 s.worker) s.pool.is_request_shut_down
      (λ _. m) (λ _. m)
Step-Marked threads z (pushes_late x) v m = m
Step-Marked threads {s} z (works u i free) v m =
    works-Marked threads u s.pool s.worker i (s.worker i) v.life.same refl m
Step-Marked threads z (monitor_checks e) v m = m
Step-Marked threads z (monitor_wakes expires ok e) v m = m
Step-Marked threads {s} z (monitor_creates id e more a pos) v m =
    absurd (ground (arith, (acts-Life threads s.pool z v.life).0, more))
Step-Marked threads z (monitor_inserts id e) v m = absurd (ground (arith, v.none_new, e))
Step-Marked threads z (monitor_erases e gone) v m = absurd (ground (arith, v.none_new, e))
Step-Marked threads {s} z (monitor_acts e enough gone) v m =
    let same = (acts-Life threads s.pool z v.life).1 in rw same m
Step-Marked threads {s} z (shuts fails j free) v m =
    shuts-Marked threads fails s.pool s.worker (s.shut j)
      (λ e. open_unmarked s.pool (v.callers.before j e)) m
