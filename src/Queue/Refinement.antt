-- ===== src/Queue/Refinement.antt =====
-- The statements of the queue's calls, and the steps of `Queue.System`.
use mathlib.Core.List.{append-nil}
use empool.Base.{ℕ, ◌≡◌, refl, sym, ◌∙◌, ap, subst, inl, inr, true, List, [], ◌∷◌, arith, update}
use empool.Lock.{run, notice_if, all_notice}
use empool.Lock.System.{asleep, System, Steps, start}
use empool.Lock.Atomic
use empool.Lock.Refinement.{abs, view, refines_atomic}
use empool.Queue.{
  Call, pop, pop_time_wait, front, ReadPc, outside, failed, waiting, woken, expired, got, push,
  read, is_empty,
}
use empool.Queue.System as Q
use empool.Queue.Waiters.{no_lost_push}
use empool.Queue.Sections.{
  Operation, push_call, read_call, size_call, Content, new_content, code, is_timed,
}
use empool.Queue.Matching.{
  Fine, as_queue, Reached, update-Match, update_pc, Match-at, call_of, reads_next, Match-IsIdle,
  notify_all-IsIdle, notified,
}

timed_call : (c : Call) → is_timed c ≡ true → c ≡ pop_time_wait
timed_call pop_time_wait h = refl
timed_call pop h = absurd (ground (arith, h))
timed_call front h = absurd (ground (arith, h))

module _ {ℓ} {A : Type ℓ} where
  push_follows :
      (content : Content A) (pc : ℕ → Atomic.Pc (Operation A)) (i j : ℕ) (a : A)
      → pc i ≡ Atomic.entering (push_call a)
      → Reached (record { shared = content; pc = pc })
      → Reached (Atomic.perform code (record { shared = content; pc = pc }) i j (push_call a))
  unfolding push
  push_follows content pc i j a e (reader, r, m) = (
    Q.notify_all (is_empty content.queue) reader,
    Q.then_ r (Q.pushes a),
    update_pc (Atomic.notify (notice_if (is_empty content.queue) all_notice) j pc) _ i
        Atomic.outside
        (notify_all-IsIdle (is_empty content.queue) reader i
          (Match-IsIdle (push_call a) (reader i) refl (Match-at pc reader i e m)))
        (notified (is_empty content.queue) j pc reader m),
  )

  read_follows :
      (c : Call) (queue pushed popped : List A) (pc : ℕ → Atomic.Pc (Operation A)) (i j : ℕ)
      → pc i ≡ Atomic.entering (read_call c)
      → Reached
          (record { shared = record { queue = queue; pushed = pushed; popped = popped }; pc = pc })
      → Reached (
          Atomic.perform code
            (record {
              shared = record { queue = queue; pushed = pushed; popped = popped };
              pc = pc;
            })
            i
            j
            (read_call c))
  unfolding read
  read_follows c [] pushed popped pc i j e (reader, r, m) = (
    update reader i (waiting c),
    subst
        (λ l. Q.Steps Q.start (record {
          queue = [];
          reader = update reader i (waiting c);
          pushed = pushed;
          popped = l;
        }))
        (append-nil popped)
        (reads_next (as_queue (record { queue = []; pushed = pushed; popped = popped }) reader) i c
          (Match-at pc reader i e m) r),
    update-Match pc reader i (Atomic.asleep (read_call c)) (waiting c) (c, refl, refl) m,
  )
  read_follows pop (a ∷ queue) pushed popped pc i j e (reader, r, m) = (
    update reader i (got pop a),
    reads_next (as_queue (record { queue = a ∷ queue; pushed = pushed; popped = popped }) reader) i
        pop (Match-at pc reader i e m) r,
    update-Match pc reader i Atomic.outside (got pop a) (inr (inr (pop, a, refl))) m,
  )
  read_follows pop_time_wait (a ∷ queue) pushed popped pc i j e (reader, r, m) = (
    update reader i (got pop_time_wait a),
    reads_next (as_queue (record { queue = a ∷ queue; pushed = pushed; popped = popped }) reader) i
        pop_time_wait (Match-at pc reader i e m) r,
    update-Match pc reader i Atomic.outside (got pop_time_wait a)
        (inr (inr (pop_time_wait, a, refl))) m,
  )
  read_follows front (a ∷ queue) pushed popped pc i j e (reader, r, m) = (
    update reader i (got front a),
    subst
        (λ l. Q.Steps Q.start (record {
          queue = a ∷ queue;
          reader = update reader i (got front a);
          pushed = pushed;
          popped = l;
        }))
        (append-nil popped)
        (reads_next
          (as_queue (record { queue = a ∷ queue; pushed = pushed; popped = popped }) reader) i front
          (Match-at pc reader i e m) r),
    update-Match pc reader i Atomic.outside (got front a) (inr (inr (front, a, refl))) m,
  )

  -- After `TimeWait` has returned false, `PopTimeWait` does so too.
  late_nothing : (op : Operation A) (content : Content A) → run (code op).late content ≡ content
  late_nothing (push_call a) content = refl
  late_nothing (read_call c) content = refl
  late_nothing size_call content = refl

  -- Each step of the sections is a step of the queue, or none.
  Step-Reached : {s t : Fine A} → Atomic.Step code s t → Reached s → Reached t
  Step-Reached {s} (Atomic.enters i op e) (reader, r, m) =
      (reader, r, update_pc s.pc reader i (Atomic.entering op) (inl (Match-at s.pc reader i e m)) m)
  Step-Reached {s} (Atomic.performs i j (push_call a) e) v = push_follows s.shared s.pc i j a e v
  Step-Reached {s} (Atomic.performs i j (read_call c) e) v =
      read_follows c s.shared.queue s.shared.pushed s.shared.popped s.pc i j e v
  Step-Reached {s} (Atomic.performs i j size_call e) (reader, r, m) = (
    reader,
    r,
    update_pc s.pc reader i Atomic.outside
        (Match-IsIdle size_call (reader i) refl (Match-at s.pc reader i e m)) m,
  )
  Step-Reached {s} (Atomic.stirs i op e) (reader, r, m) =
      let (c, same, w) = Match-at s.pc reader i e m in
      (
        update reader i (woken c),
        Q.then_ r (Q.stir i c w),
        update-Match s.pc reader i (Atomic.entering op) (woken c) (inr (c, same, refl)) m,
      )
  Step-Reached {s} (Atomic.expires i op e timed) (reader, r, m) =
      let (c, same, w) = Match-at s.pc reader i e m in
      (
        update reader i expired,
        Q.then_ r (
            Q.expire i
              (w ∙ ap waiting (timed_call c (subst (λ op. (code op).timed ≡ true) same timed)))),
        update-Match s.pc reader i (Atomic.expired op) expired refl m,
      )
  Step-Reached {s} (Atomic.gives_up i op e) (reader, r, m) =
      subst (λ content. Reached (record { shared = content; pc = update s.pc i Atomic.outside }))
        (sym (late_nothing op s.shared))
        (
          update reader i failed,
          Q.then_ r (Q.give_up i (Match-at s.pc reader i e m)),
          update-Match s.pc reader i Atomic.outside failed (inr (inl refl)) m,
        )

  Steps-Reached : {s : Fine A} → Atomic.Steps code (abs (start new_content)) s → Reached s
  Steps-Reached Atomic.here = (λ _. outside, Q.here, λ k. inl refl)
  Steps-Reached (Atomic.then_ r st) = Step-Reached st (Steps-Reached r)

  -- The calls of the queue, run statement by statement by any threads and in any interleaving, do
  -- what the step relation of the queue says: with the remaining statements of the owner of the
  -- mutex done, the state is one that the step relation comes to, and a thread that sleeps in a
  -- wait is a reader that waits there. So no wake-up is lost, although `Push` notifies before it
  -- pushes: a reader that sleeps sleeps before an empty queue.
  pub sections_refine :
      {s : System (Operation A) (Content A)}
      → Steps code (start new_content) s
      → (reader : ℕ → ReadPc A) × Q.Steps Q.start (as_queue (abs s).shared reader)
        × ((i : ℕ) (c : Call)
            → s.pc i ≡ asleep (read_call c)
            → (reader i ≡ waiting c) × ((abs s).shared.queue ≡ []))
  sections_refine {s} run =
      let (reader, r, m) = Steps-Reached (refines_atomic run) in
      (
        reader,
        r,
        λ i c e.
            let (d, same, w) = Match-at (abs s).pc reader i (ap view e) m in
            let w' : reader i ≡ waiting c = w ∙ ap waiting (sym (ap (call_of c) same)) in
            (w', (no_lost_push r).0 i c w'),
      )
