-- ===== src/Scaling/Leaving.antt =====
-- The workers of a fixed pool, src/FixedThreadPool.cpp and src/WorkerThread.cpp, once all of them
-- are asked to end.
use empool.Base.{
  update-at, false, update, ℕ_discrete, ℕ, ◌<◌, ◌≡◌, refl, sym, subst, ap, ◌∙◌, ◌⊎◌, inl, inr, Bool,
  true, Option, none, some, List, [], ◌∷◌, arith, length, leb, update_cases, if_elim,
}
use empool.Heap.{count}
use empool.Closeable.{Closeable, request_close}
use empool.Scaling.{
  Pool, Item, end_task, task, has, do_add_task, shut_step, ShutPc, outside, setting, stopping,
  asking, adding, returned, close_all,
}
use empool.Scaling.Worker.{
  WorkerPc, absent, checking, fetching, judging, executing, lost, leaving, counting, comparing,
  counted, Input, take, worker_step,
}
use empool.Scaling.System.{
  holds_guard, System, Step, adds, pushes_late, works, monitor_checks, monitor_wakes,
  monitor_creates, monitor_inserts, monitor_erases, monitor_acts, shuts,
}
use empool.Scaling.Lifelong.{Life, is_closed, may_stand, acts-Life}
use empool.Scaling.Lasting.{Lasting}

-- Every thread of the map is asked to end.
abbrev pub AllAsked : System → Type 0
AllAsked s = (i : ℕ) → has s.pool.threads i ≡ true → (s.pool.thread i).is_request_close ≡ true

-- How many steps a worker that is asked to end has left at most.
abbrev pub left : WorkerPc → ℕ
left fetching = 6
left judging = 5
left (executing x) = 5
left checking = 4
left leaving = 3
left counting = 2
left (comparing n) = 1
left pc = 0

take-thread : (p : Pool) (queue : List Item) → (take p queue).0.thread ≡ p.thread
unfolding take
take-thread p [] = refl
take-thread p (end_task ∷ rest) = refl
take-thread p (task x ∷ rest) = refl

take-left :
    (p : Pool) (queue : List Item)
    → ((take p queue).1 ≡ fetching) ⊎ (left (take p queue).1 < left fetching)
unfolding take
take-left p [] = inl refl
take-left p (end_task ∷ rest) = inr (omega arith)
take-left p (task x ∷ rest) = inr (omega arith)

worker_step-thread :
    (u : Input) (p : Pool) (i : ℕ) (pc : WorkerPc) (closed : Bool)
    → may_stand closed pc ≡ true
    → (worker_step u p i pc).0.thread ≡ p.thread
unfolding worker_step
worker_step-thread u p i fetching closed w =
    if_elim (λ (r : Pool × WorkerPc). r.0.thread ≡ p.thread) u.expires (λ _. refl)
      (λ _. take-thread p p.queue)
worker_step-thread u p i (comparing n) closed w =
    if_elim (λ (q : Pool). q.thread ≡ p.thread) (leb (length p.threads) n) (λ _. refl) (λ _. refl)
worker_step-thread u p i absent closed w = refl
worker_step-thread u p i checking closed w = refl
worker_step-thread u p i judging closed w = refl
worker_step-thread u p i (executing x) closed w = refl
worker_step-thread u p i lost closed w = refl
worker_step-thread u p i leaving closed w = refl
worker_step-thread u p i counting closed w = refl
worker_step-thread u p i counted closed w = refl
worker_step-thread u p i pc closed w = absurd (ground (arith, w))

request_close-keeps :
    (fails : Bool) (c : Closeable)
    → c.is_request_close ≡ true
    → (request_close fails c).0.is_request_close ≡ true
unfolding request_close
request_close-keeps fails c e = ground (arith, e)

close_all-keeps :
    (fails : ℕ → Bool) (ids : List ℕ) (thread : ℕ → Closeable) (i : ℕ)
    → (thread i).is_request_close ≡ true
    → (close_all fails ids thread i).is_request_close ≡ true
unfolding close_all
close_all-keeps fails [] thread i e = e
close_all-keeps fails (id ∷ ids) thread i e = close_all-keeps fails ids _ i (
    update_cases (λ k (c : Closeable). i ≡ k → c.is_request_close ≡ true) thread id _
      (λ same.
        request_close-keeps (fails id) (thread id)
          (ap (λ k. (thread k).is_request_close) (sym same) ∙ e))
      (λ k ne same. ap (λ k. (thread k).is_request_close) (sym same) ∙ e) i refl)

request_close-closes : (c : Closeable) → (request_close false c).0.is_request_close ≡ true
unfolding request_close
request_close-closes c = ground arith

close_all-closes :
    (ids : List ℕ) (thread : ℕ → Closeable) (i : ℕ)
    → 0 < count i ids
    → (close_all (λ _. false) ids thread i).is_request_close ≡ true
unfolding close_all
close_all-closes [] thread i c = absurd (omega arith)
close_all-closes (id ∷ ids) thread i c = elim (ℕ_discrete id i) [
  | yes same ↦
      close_all-keeps (λ _. false) ids _ i
        (subst
          (λ k. (update thread id (request_close false (thread id)).0 k).is_request_close ≡ true)
          same
          (ap (λ (c : Closeable). c.is_request_close)
              (update-at thread id (request_close false (thread id)).0)
            ∙ request_close-closes (thread id)))
  | no other ↦ close_all-closes ids _ i (ground arith)
]

-- The loops of `ShutDown`, when no exchange fails.
abbrev pub after_loops : System → ℕ → System
after_loops s j = record s {
  pool = (shut_step (λ _. false) s.pool stopping).0;
  shut = update s.shut j (shut_step (λ _. false) s.pool stopping).1;
}

pub after_loops-AllAsked : (s : System) (j : ℕ) → AllAsked (after_loops s j)
unfolding shut_step
after_loops-AllAsked s j i h = close_all-closes s.pool.threads s.pool.thread i (ground (arith, h))

pub after_loops-Step :
    (s : System) (j : ℕ)
    → s.shut j ≡ stopping
    → holds_guard s.monitor ≡ false
    → Step s (after_loops s j)
after_loops-Step s j e free =
    subst
      (λ c. Step s (record s {
        pool = (shut_step (λ _. false) s.pool c).0;
        shut = update s.shut j (shut_step (λ _. false) s.pool c).1;
      }))
      e (shuts (λ _. false) j (ground (arith, e, free)))

shut_step-keeps :
    (fails : ℕ → Bool) (p : Pool) (pc : ShutPc) (i : ℕ)
    → (p.thread i).is_request_close ≡ true
    → ((shut_step fails p pc).0.thread i).is_request_close ≡ true
unfolding shut_step
shut_step-keeps fails p stopping i e = close_all-keeps fails p.threads p.thread i e
shut_step-keeps fails p outside i e = e
shut_step-keeps fails p setting i e = e
shut_step-keeps fails p asking i e = e
shut_step-keeps fails p adding i e = e
shut_step-keeps fails p returned i e = e

-- A step of a worker that is asked to end leaves it where it is, or brings it closer to its end.
pub worker_step-left :
    (threads : List ℕ) (u : Input) (p : Pool) (i : ℕ) (pc : WorkerPc)
    → Life threads p
    → may_stand (is_closed p.state) pc ≡ true
    → (p.thread i).is_request_close ≡ true
    → ((worker_step u p i pc).1 ≡ pc) ⊎ (left (worker_step u p i pc).1 < left pc)
unfolding worker_step
worker_step-left threads u p i absent c w a = inl refl
worker_step-left threads u p i checking c w a = inr (ground (arith, a))
worker_step-left threads u p i fetching c w a =
    if_elim (λ (r : Pool × WorkerPc). (r.1 ≡ fetching) ⊎ (left r.1 < 6)) u.expires
      (λ _. inr (omega arith)) (λ _. take-left p p.queue)
worker_step-left threads u p i judging c w a = inr (ground (arith, c.core, ap length c.same))
worker_step-left threads u p i (executing x) c w a = inr (ground arith)
worker_step-left threads u p i lost c w a = inl refl
worker_step-left threads u p i leaving c w a = inr (ground (arith, c.flagged w))
worker_step-left threads u p i counting c w a = inr (omega arith)
worker_step-left threads u p i (comparing n) c w a = inr (omega arith)
worker_step-left threads u p i counted c w a = inl refl
worker_step-left threads u p i pc c w a = absurd (ground (arith, w))

pub Step-AllAsked :
    (threads : List ℕ) {s t : System}
    → count 0 threads ≡ 0
    → Step s t
    → Lasting threads s
    → Lasting threads t
    → AllAsked s
    → AllAsked t
unfolding do_add_task
Step-AllAsked threads {s} z (adds none) v v' a = a
Step-AllAsked threads {s} z (adds (some x)) v v' a =
    if_elim (λ (r : Pool × Option ℕ). AllAsked (record s { pool = r.0 }))
      s.pool.is_request_shut_down (λ _. a) (λ _. a)
Step-AllAsked threads z (pushes_late x) v v' a = a
Step-AllAsked threads {s} {t} z (works u i free) v v' a = λ k h.
    ap (λ f. (f k).is_request_close)
      (worker_step-thread u s.pool i (s.worker i) (is_closed s.pool.state) (v.stands i))
    ∙ a k (ap (λ l. has l k) (v.life.same ∙ sym v'.life.same) ∙ h)
Step-AllAsked threads z (monitor_checks e) v v' a = a
Step-AllAsked threads z (monitor_wakes expires ok e) v v' a = a
Step-AllAsked threads {s} z (monitor_creates id e more ab pos) v v' a =
    absurd (ground (arith, (acts-Life threads s.pool z v.life).0, more))
Step-AllAsked threads z (monitor_inserts id e) v v' a = absurd (ground (arith, v.none_new, e))
Step-AllAsked threads z (monitor_erases e gone) v v' a = absurd (ground (arith, v.none_new, e))
Step-AllAsked threads {s} z (monitor_acts e enough gone) v v' a =
    let same = (acts-Life threads s.pool z v.life).1 in
    subst (λ (p : Pool). AllAsked (record s { pool = p })) (sym same) a
Step-AllAsked threads {s} z (shuts fails j free) v v' a = λ k h.
    shut_step-keeps fails s.pool (s.shut j) k
      (a k (ap (λ l. has l k) (v.life.same ∙ sym v'.life.same) ∙ h))
