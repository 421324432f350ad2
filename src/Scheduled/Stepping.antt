-- ===== src/Scheduled/Stepping.antt =====
-- Every step keeps the phases of a pool, when no exchange fails for no reason.
use empool.Base.{
  ℕ, suc, ◌≡◌, refl, inl, inr, Bool, true, false, Option, none, some, List, arith, subst, update,
  ap, ◌∙◌, sym, if_elim, if◌then◌else◌,
}
use empool.Heap.{PopHeap}
use empool.Closeable.{compare_exchange}
use empool.Timer.{Store}
use empool.Timer.Handler.{State, push_end, close_thread, fire, Pass, Fired}
use empool.Timer.Racing.{
  Request, cron, cycle, AddPc, asking, reading, dating, pacing, pushing, returned, add_step,
}
use empool.Timer.Firing.{stops, idles, goes, pass-Cases}
use empool.Timer.Handler.{Result, drops, fires_asked, fires_again, fires_once, sleeps}
use empool.Scheduled.{Pool, fetch_add}
use empool.Scheduled.System as S
use empool.Scheduled.System.{
  Pc, stopping, outside, checked, adding, answered, shut, System, IsIdle, handler, put, go_to, Turn,
  passes, fires, cancels, finishes, after_tests, Step, Reach, first, later, after_close,
  after_exchange, at_handler_number, closing,
}
use empool.Scheduled.Phases.{Quiet, Phase, open_, shutting, over, Keeps}
use empool.Scheduled.Bystanders.{Keeps-refl, put-Phase, Aside, go_to-Phase}
use empool.Scheduled.Shutter.{Phase-Shutter}
use empool.Scheduled.Closing.{
  asks-Phase, stops-Phase, pushes_end-Phase, close_thread-open, close_step-Phase, joins-Phase,
  ends-Phase,
}

add_step-Keeps :
    (now : ℕ) (req : Request) (x : ℕ) (s : State) (p : AddPc)
    → Keeps s.handler (add_step now req x s p).0.handler
unfolding add_step
add_step-Keeps now req x s asking = Keeps-refl s.handler
add_step-Keeps now req x s reading = Keeps-refl s.handler
add_step-Keeps now (cron d) x s dating = Keeps-refl s.handler
add_step-Keeps now (cycle i b) x s dating = Keeps-refl s.handler
add_step-Keeps now (cron d) x s pacing = Keeps-refl s.handler
add_step-Keeps now (cycle i b) x s pacing = Keeps-refl s.handler
add_step-Keeps now req x s pushing = record {
  same_shut = refl;
  same_close = refl;
  still_ended = λ e. e;
}
add_step-Keeps now req x s (returned b) = Keeps-refl s.handler

Result-Keeps :
    {lib : PopHeap} {now : ℕ} {s : State} {x : ℕ} {p : State × Pass}
    → Result lib now s x p
    → Keeps s.handler p.0.handler
Result-Keeps {s = s} (drops c e) =
    rw e record { same_shut = refl; same_close = refl; still_ended = λ e. e }
Result-Keeps {s = s} (fires_asked c a e) =
    rw e record { same_shut = refl; same_close = refl; still_ended = λ e. e }
Result-Keeps {s = s} (fires_again c a d i e) =
    rw e record { same_shut = refl; same_close = refl; still_ended = λ e. e }
Result-Keeps {s = s} (fires_once c a d i e) =
    rw e record { same_shut = refl; same_close = refl; still_ended = λ e. e }
Result-Keeps {s = s} (sleeps c a d e) = rw e (Keeps-refl s.handler)

Turn-Keeps : {lib : PopHeap} {s t : State} → Turn lib s t → Keeps s.handler t.handler
unfolding fire
Turn-Keeps {lib} {s} (passes now) = elim (pass-Cases lib now s) [
  | stops c e ↦ rw e (Keeps-refl s.handler)
  | idles c q e ↦ rw e (Keeps-refl s.handler)
  | goes r rest c q res ↦ Result-Keeps res
]
Turn-Keeps {s = s} (fires w x) =
    if_elim (λ (r : State × Fired). Keeps s.handler r.0.handler) (s.tasks x).is_end
      (λ _. Keeps-refl s.handler) (λ _. Keeps-refl s.handler)
Turn-Keeps {s = s} (cancels x) = Keeps-refl s.handler
Turn-Keeps finishes = record { same_shut = refl; same_close = refl; still_ended = λ _. refl }

tests_Quiet : (p : Pool) (req : Request) (task : Option ℕ) → Quiet (after_tests p req task)
tests_Quiet p req none = tt
tests_Quiet p req (some x) = if_elim Quiet p.is_request_shut_down (λ _. tt) (λ _. tt)

idle_Aside : (p : Pc) → IsIdle p → Aside p
idle_Aside p (inl e) = subst Aside (sym e) tt
idle_Aside p (inr (inl (r, e))) = subst Aside (sym e) tt
idle_Aside p (inr (inr (now, won, e))) = subst Aside (sym e) tt

counted-Phase :
    {n : ℕ} {s : System} (d : List ℕ)
    → Phase n s
    → Phase n (record s { pool = fetch_add s.pool; dealt = d })
counted-Phase d (open_ f r fresh q) = open_ f r fresh q
counted-Phase d (shutting j f r g q) = shutting j f r g q
counted-Phase d (over now f r done q) = over now f r done q

Step-size :
    {lib : PopHeap} {f : Bool} {s t : System}
    → Step lib f s t
    → t.pool.thread_num ≡ s.pool.thread_num
Step-size (S.begins j req task idle) = refl
Step-size _ = refl

-- A weak exchange that does not fail for no reason.
no_failure : (P : Bool → Type 0) (fails : Bool) → (fails ≡ true → false ≡ true) → P false → P fails
no_failure P true may p = absurd (ground (arith, may))
no_failure P false may p = p

Step-Phase :
    {lib : PopHeap} {n : ℕ} {s t : System}
    → s.pool.thread_num ≡ n
    → Step lib false s t
    → Phase n s
    → Phase n t
Step-Phase {s = s} size (S.begins j req task idle) v =
    go_to-Phase s j _ (idle_Aside (s.pc j) idle) (tests_Quiet s.pool req task) v
Step-Phase {s = s} size (S.draws j now req x e) v =
    counted-Phase _ (go_to-Phase s j _ (subst Aside (sym e) tt) tt v)
Step-Phase {s = s} size (S.adds j now req x i p e) v =
    go_to-Phase (put s i (add_step now req x (handler s i) p).0) j _ (subst Aside (sym e) tt) tt (
      put-Phase s i (add_step now req x (handler s i) p).0
        (add_step-Keeps now req x (handler s i) p) v)
Step-Phase {s = s} size (S.answers j now req x i taken e) v =
    go_to-Phase s j _ (subst Aside (sym e) tt) tt v
Step-Phase {n = n} {s} size (S.asks j now fails idle may) v =
    no_failure
      (λ fails. Phase n (record s {
        pool = record (s.pool) {
          is_request_shut_down = (compare_exchange fails s.pool.is_request_shut_down).0;
        };
        pc =
            update s.pc j
              (after_exchange now (compare_exchange fails s.pool.is_request_shut_down).1);
      }))
      fails may (asks-Phase s j now (idle_Aside (s.pc j) idle) v)
Step-Phase {s = s} size (S.stops j now e) v = stops-Phase s j now e v
Step-Phase {n = n} {s} size (S.pushes_end j now fails k end e lt may) v =
    no_failure
      (λ fails. Phase n (
        go_to (put s k (push_end fails (handler s k) end).0) j (
          if (push_end fails (handler s k) end).1
          then closing now k
          else at_handler_number now (suc k))))
      fails may (pushes_end-Phase s j now k end e (omega arith) v)
Step-Phase {n = n} {s} size (S.closes j now fails k e may) v =
    let sh = Phase-Shutter j (closing now k) e (λ a. a) v in
    let (won, closed) = close_thread-open now (handler s k) sh.progress.4 sh.progress.3 in
    no_failure
      (λ fails. Phase n (
        go_to (put s k (close_thread now fails (handler s k)).0) j
          (after_close now (close_thread now fails (handler s k)).1 k)))
      fails may
      (close_step-Phase s j now k (close_thread now false (handler s k)).0 _ e closed
        (ap (λ b. after_close now b k) (sym won)) v)
Step-Phase {s = s} size (S.joins j now k e fin) v = joins-Phase s j now k e fin v
Step-Phase {s = s} size (S.ends j now k e last) v = ends-Phase s j now k e (sym size ∙ last) v
Step-Phase {s = s} size (S.turns i {h} t) v = put-Phase s i h (Turn-Keeps t) v

pub Reach-Phase :
    {lib : PopHeap} {n : ℕ} {tasks : Store} {s : System}
    → Reach lib false n tasks s
    → (s.pool.thread_num ≡ n) × Phase n s
Reach-Phase first =
    (refl, open_ refl refl (λ i. record { not_shut = refl; not_closed = refl }) (λ j. tt))
Reach-Phase (later r st) =
    let (size, v) = Reach-Phase r in (Step-size st ∙ size, Step-Phase size st v)
