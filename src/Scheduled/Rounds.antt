-- ===== src/Scheduled/Rounds.antt =====
-- How the pool deals tasks out to its handlers.
use empool.Base.{
  ℕ, ◌+◌, ◌*◌, ◌^◌, ◌≤◌, ◌<◌, ◌≡◌, refl, false, Option, some, List, [], ◌∷◌, arith, one_if, ltb,
  ◌==◌, ◌∙◌, update, update_cases, update_elim, length, subst, sym, ap,
}
use empool.Clock.{u64}
use empool.Heap.{count, contents}
use empool.Heap.Least.{by_key, length-push}
use empool.Timer.{Store, deadline_of, set_deadline, push_task}
use empool.Timer.Handler.{enqueue, do_add_cron_timer_task}
use empool.Scheduled.{Pool, new_pool, current_index, at_handler, fetch_add, do_add_cron}
use empool.Scheduled.Turns.{Dealt, next-Dealt}
use native.Mathlib.Nat.{mod-eq_of_lt}

-- How many tasks wait in handler `i`.
abbrev pub waiting : Pool → ℕ → ℕ
waiting p i = length (contents (p.handlers i).queue)

-- The calls of `AddCronTimerTask` for the tasks of a list, at one time and with one delay.
unfoldable pub add_all : (now delay : ℕ) → Store → Pool → List ℕ → Store × Pool
unfolding do_add_cron
add_all now delay tasks p [] = (tasks, p)
add_all now delay tasks p (x ∷ xs) =
    let (tasks', p', result) = do_add_cron now tasks p (some x) delay in
    add_all now delay tasks' p' xs

-- No handler is asked to close, nor is the pool.
record Open (p : Pool) : Type 0 where
  pool_open : p.is_request_shut_down ≡ false
  handlers_open : (i : ℕ) → (p.handlers i).thread.is_request_close ≡ false

-- The tasks are new, and different.
pub record Fresh (tasks : Store) (xs : List ℕ) : Type 0 where
  pub undated : (x : ℕ) → 0 < count x xs → deadline_of tasks x ≡ 0
  pub once : (x : ℕ) → count x xs ≤ 1

-- All handlers have `q` tasks, and those before handler `r`, whose turn it is, one more.
abbrev DealtOut : Pool → ℕ → ℕ → Type 0
DealtOut p = Dealt p.thread_num p.index (waiting p)

-- One call for a new task.
record OneCall (tasks : Store) (p : Pool) (x : ℕ) (tasks' : Store) (p' : Pool) : Type 0 where
  size_same : p'.thread_num ≡ p.thread_num
  index_next : p'.index ≡ u64 (p.index + 1)
  open_still : Open p'
  undated_others : (y : ℕ) → ¬ (x ≡ y) → deadline_of tasks' y ≡ deadline_of tasks y
  one_more : (i : ℕ) → waiting p' i ≡ waiting p i + one_if (i == current_index p)

-- The pool and the tasks after a call that handler `current_index p` takes.
abbrev taken_tasks : (now delay : ℕ) → Store → ℕ → Store
taken_tasks now delay tasks x = set_deadline tasks x (u64 (now + delay))

abbrev taken_pool : (now delay : ℕ) → Store → Pool → ℕ → Pool
taken_pool now delay tasks p x = record (fetch_add p) {
  handlers =
      update p.handlers (current_index p)
        (enqueue (at_handler tasks p (current_index p)) (taken_tasks now delay tasks x) x).handler;
}

do_add_cron-taken :
    (now delay : ℕ) (tasks : Store) (p : Pool) (x : ℕ)
    → Open p
    → deadline_of tasks x ≡ 0
    → do_add_cron now tasks p (some x) delay
      ≡ (taken_tasks now delay tasks x, taken_pool now delay tasks p x, some x)
unfolding do_add_cron do_add_cron_timer_task
do_add_cron-taken now delay tasks p x o new =
    ground (arith, o.pool_open, o.handlers_open (current_index p), new)

taken-OneCall :
    (now delay : ℕ) (tasks : Store) (p : Pool) (x : ℕ)
    → Open p
    → OneCall tasks p x (taken_tasks now delay tasks x) (taken_pool now delay tasks p x)
unfolding push_task
taken-OneCall now delay tasks p x o = record {
  size_same = refl;
  index_next = refl;
  open_still = record {
    pool_open = o.pool_open;
    handlers_open =
        update_elim (λ j h. h.thread.is_request_close ≡ false) p.handlers (current_index p) _
          (o.handlers_open (current_index p)) o.handlers_open;
  };
  undated_others = λ y ne. ground arith;
  one_more =
      update_cases (λ j h. length (contents h.queue) ≡ waiting p j + one_if (j == current_index p))
        p.handlers (current_index p) _
        (ground (
          arith,
          length-push (by_key (deadline_of (taken_tasks now delay tasks x)))
              (p.handlers (current_index p)).queue x,
        ))
        (λ j ne. ground (arith, ne));
}

add-OneCall :
    (now delay : ℕ) (tasks : Store) (p : Pool) (x : ℕ)
    → Open p
    → deadline_of tasks x ≡ 0
    → OneCall tasks p x
        (do_add_cron now tasks p (some x) delay).0
        (do_add_cron now tasks p (some x) delay).1
add-OneCall now delay tasks p x o new =
    subst (λ (r : Store × Pool × Option ℕ). OneCall tasks p x r.0 r.1)
      (sym (do_add_cron-taken now delay tasks p x o new)) (taken-OneCall now delay tasks p x o)

one-Dealt :
    {tasks tasks' : Store} {p p' : Pool} {x : ℕ} (q r : ℕ)
    → p.index + 1 < 2 ^ 64
    → OneCall tasks p x tasks' p'
    → DealtOut p q r
    → (q' : ℕ) × (r' : ℕ) × DealtOut p' q' r'
one-Dealt {p = p} {p'} q r fits c d =
    let (q', r', d') = next-Dealt q r (waiting p') c.one_more d in
    let next = c.index_next ∙ mod-eq_of_lt {n = p.index + 1} {m = 2 ^ 64} fits in
    (
      q',
      r',
      record {
        in_range = omega (arith, d'.in_range, c.size_same);
        turn = omega (arith, next, d'.turn, ap (λ n. q' * n) c.size_same);
        shares = λ i lt. d'.shares i (omega (arith, c.size_same));
      },
    )

-- After the first task of a list the others are still new.
rest-Fresh :
    {tasks tasks' : Store} {p p' : Pool} {x : ℕ} (xs : List ℕ)
    → Fresh tasks (x ∷ xs)
    → OneCall tasks p x tasks' p'
    → Fresh tasks' xs
rest-Fresh {x = x} xs f c = record {
  undated = λ y h.
      c.undated_others y (λ e. absurd (ground (arith, f.once x, ap (λ k. count k xs) e, h)))
      ∙ f.undated y (ground arith);
  once = λ y. omega (arith, f.once y);
}

add_all-Dealt :
    (now delay : ℕ) (tasks : Store) (p : Pool) (xs : List ℕ) (q r : ℕ)
    → p.index + length xs < 2 ^ 64
    → Open p
    → Fresh tasks xs
    → DealtOut p q r
    → (q' : ℕ) × (r' : ℕ) × DealtOut (add_all now delay tasks p xs).1 q' r'
      × ((add_all now delay tasks p xs).1.index ≡ p.index + length xs)
      × ((add_all now delay tasks p xs).1.thread_num ≡ p.thread_num)
unfolding add_all
add_all-Dealt now delay tasks p [] q r fits o f d = (q, r, d, omega arith, refl)
add_all-Dealt now delay tasks p (x ∷ xs) q r fits o f d =
    let c = add-OneCall now delay tasks p x o (f.undated x (ground arith)) in
    let (q1, r1, d1) = one-Dealt q r (omega arith) c d in
    let next = c.index_next ∙ mod-eq_of_lt {n = p.index + 1} {m = 2 ^ 64} (omega arith) in
    let (q2, r2, d2, index, size) =
      add_all-Dealt now delay (do_add_cron now tasks p (some x) delay).0
        (do_add_cron now tasks p (some x) delay).1 xs q1 r1 (omega (arith, next)) c.open_still
        (rest-Fresh xs f c) d1 in
    (q2, r2, d2, omega (arith, index, next), size ∙ c.size_same)

-- New tasks that are added to a new pool one after another are dealt out evenly: each of the `n`
-- handlers gets `q` of them, and the first `r` handlers one more, where `q` and `r` are the quotient
-- and the remainder of the number of tasks by `n`.
pub dealt_evenly :
    (now delay n : ℕ) (tasks : Store) (xs : List ℕ)
    → 0 < n
    → length xs < 2 ^ 64
    → Fresh tasks xs
    → (q : ℕ) × (r : ℕ) × (r < n)
      × (length xs ≡ q * n + r)
      × ((i : ℕ)
          → i < n
          → waiting (add_all now delay tasks (new_pool n) xs).1 i ≡ q + one_if (ltb i r))
dealt_evenly now delay n tasks xs pos fits f =
    let (q, r, d, index, size) =
      add_all-Dealt now delay tasks (new_pool n) xs 0 0 (omega arith)
        (record { pool_open = refl; handlers_open = λ i. refl }) f
        (record { in_range = pos; turn = omega arith; shares = λ i lt. ground arith }) in
    (
      q,
      r,
      omega (arith, d.in_range, size),
      omega (arith, d.turn, index, ap (λ k. q * k) size),
      λ i lt. d.shares i (omega (arith, size)),
    )
