-- ===== src/Scaling/Ending.antt =====
-- A fixed pool, src/FixedThreadPool.cpp, comes to its end once all of its threads are asked to end.
use empool.Scaling.{stopping}
use empool.Scaling.Leaving.{after_loops, after_loops-Step, after_loops-AllAsked}
use empool.Base.{
  zero, suc, ℕ, ◌*◌, ◌≤◌, ◌<◌, ◌≡◌, ◌≢◌, refl, sym, subst, ap, ◌∙◌, ◌⊎◌, inl, inr, Bool, true,
  false, ◌&&◌, List, [], ◌∷◌, arith, length,
}
use empool.Heap.{count}
use empool.Scaling.{has, is_shut_down, new_fixed_pool, new_pool}
use empool.Scaling.Worker.{
  WorkerPc, absent, checking, fetching, judging, executing, lost, leaving, counting, comparing,
  counted, Input, worker_step, needs_guard, is_counted,
}
use empool.Scaling.System.{
  inserting, erasing, MonitorPc, top, waiting, ended, System, acting, holds_guard, Steps, start,
  here, then_,
}
use empool.Scaling.Census.{census}
use empool.Scaling.Always.{created, reachable-Inv, Steps-Inv, insert_all-count}
use empool.Scaling.Fixed.{has_created}
use empool.Scaling.Invariant.{Inv}
use empool.Scaling.Lifelong.{is_closed, may_stand, is_absent}
use empool.Scaling.Lasting.{Lasting, Steps-Lasting, start-Lasting}
use empool.Scaling.Marking.{Marked, Step-Marked}
use empool.Scaling.Leaving.{left}
use empool.Scaling.Moving.{After, Run, Run-After, total-bound, left-le}

-- The monitor finds no thread of the map to join.
abbrev pub NoneToJoin : System → Type 0
NoneToJoin t = (y : ℕ) → 0 < count y t.pool.sub_worker_thread_id → has t.pool.threads y ≡ false

-- Worker `i` is at its end, or out of its loop by an exception, or waits for the guard, which the
-- monitor has, with no thread to join, or can move.
abbrev pub GoesOn : System → ℕ → Type 0
GoesOn t i =
    (t.worker i ≡ counted)
    ⊎ (t.worker i ≡ lost)
    ⊎ ((t.worker i ≡ judging) × (t.monitor ≡ acting) × NoneToJoin t)
    ⊎ ((u : Input) × (needs_guard (t.worker i) && holds_guard t.monitor ≡ false)
        × ((worker_step u t.pool i (t.worker i)).1 ≢ t.worker i))

abbrev times_out : Input
times_out = record { expires = true; escapes = false; fails = false }

MonitorPc-acting : (m : MonitorPc) → has_created m ≡ false → (m ≡ acting) ⊎ (holds_guard m ≡ false)
MonitorPc-acting acting n = inl refl
MonitorPc-acting top n = inr refl
MonitorPc-acting waiting n = inr refl
MonitorPc-acting ended n = inr refl
MonitorPc-acting (inserting id) n = absurd (cc n)
MonitorPc-acting erasing n = absurd (cc n)

can_move :
    (t : System) (i : ℕ) (pc : WorkerPc)
    → t.worker i ≡ pc
    → needs_guard pc && holds_guard t.monitor ≡ false
    → (worker_step times_out t.pool i pc).1 ≢ pc
    → GoesOn t i
can_move t i pc e free moved =
    let r : (needs_guard (t.worker i) && holds_guard t.monitor ≡ false)
        × ((worker_step times_out t.pool i (t.worker i)).1 ≢ t.worker i) =
      subst
        (λ c.
          (needs_guard c && holds_guard t.monitor ≡ false)
          × ((worker_step times_out t.pool i c).1 ≢ c))
        (sym e) (free, moved) in
    inr (inr (inr (times_out, r.0, r.1)))

none_to_join :
    (threads : List ℕ) (t : System) → count 0 threads ≡ 0 → Lasting threads t → NoneToJoin t
none_to_join threads t z v zero c = ground (arith, z, ap (count 0) v.life.same)
none_to_join threads t z v (suc y) c =
    absurd (omega (arith, c, v.life.vector (suc y) (omega arith)))

goes_on :
    (t : System) (i : ℕ) (pc : WorkerPc) (closed : Bool)
    → t.worker i ≡ pc
    → is_absent pc ≡ false
    → may_stand closed pc ≡ true
    → (t.pool.thread i).is_request_close ≡ true
    → NoneToJoin t
    → has_created t.monitor ≡ false
    → GoesOn t i
unfolding worker_step
goes_on t i absent closed e p s a j n' = absurd (cc p)
goes_on t i counted closed e p s a j n' = inl e
goes_on t i lost closed e p s a j n' = inr (inl e)
goes_on t i judging closed e p s a j n' = elim (MonitorPc-acting t.monitor n') [
  | inl d ↦ inr (inr (inl (e, d, j)))
  | inr d ↦ can_move t i judging e d (λ m. ground (arith, m))
]
goes_on t i checking closed e p s a j n' = can_move t i checking e refl (λ m. ground (arith, m))
goes_on t i fetching closed e p s a j n' = can_move t i fetching e refl (λ m. cc m)
goes_on t i (executing x) closed e p s a j n' = can_move t i (executing x) e refl (λ m. cc m)
goes_on t i leaving closed e p s a j n' = can_move t i leaving e refl (λ m. ground (arith, m))
goes_on t i counting closed e p s a j n' = can_move t i counting e refl (λ m. cc m)
goes_on t i (comparing n) closed e p s a j n' = can_move t i (comparing n) e refl (λ m. cc m)
goes_on t i pc closed e p s a j n' = absurd (ground (arith, s))

census-all :
    (p : ℕ → Bool) (xs : List ℕ) → ((i : ℕ) → 0 < count i xs → p i ≡ true) → census p xs ≡ length xs
unfolding census
census-all p [] h = refl
census-all p (x ∷ xs) h =
    ground (arith, census-all p xs (λ i c. h i (omega arith)), h x (ground arith))

no_new : (m : MonitorPc) (threads : List ℕ) → has_created m ≡ false → created m threads ≡ threads
no_new (inserting id) threads e = absurd (cc e)
no_new m threads e = refl

-- When all have counted themselves, the pool is marked.
all_counted :
    (threads : List ℕ) (t : System)
    → Lasting threads t
    → Inv (created t.monitor t.pool.threads) t.pool t.worker
    → ((i : ℕ) → has t.pool.threads i ≡ true → t.worker i ≡ counted)
    → Marked threads t.pool t.worker
    → is_shut_down t.pool.state ≡ true
all_counted threads t v k h (inl m) = m
all_counted threads t v k h (inr (inl l)) = absurd (
    omega (
      arith,
      l,
      k.stopped,
      ap (census (λ i. is_counted (t.worker i))) (no_new t.monitor t.pool.threads v.none_new),
      ap length v.life.same,
      census-all (λ i. is_counted (t.worker i)) t.pool.threads
          (λ i c. ap is_counted (h i (ground (arith, c)))),
    ))
all_counted threads t v k h (inr (inr (i, e))) =
    let here : has threads i ≡ true = ground (arith, v.present i, ap is_absent e) in
    absurd (ground (arith, h i (ap (λ l. has l i) v.life.same ∙ here), e))

module _ (n : ℕ) (ids : List ℕ) where
  abbrev pub first : List ℕ
  first = (new_fixed_pool n ids).threads

  no_zero : count 0 ids ≡ 0 → count 0 first ≡ 0
  unfolding new_pool
  no_zero z = ground (arith, insert_all-count [] ids 0 (omega arith), z)

  Steps-Marked :
      {s : System}
      → count 0 ids ≡ 0
      → length first ≡ n
      → 0 < n
      → Steps (start n n ids) s
      → Marked first s.pool s.worker
  unfolding new_pool
  Steps-Marked z e p here = inr (inl (omega (arith, e, p)))
  Steps-Marked z e p (then_ r st) =
      Step-Marked first (no_zero z) st (Steps-Lasting first (no_zero z) (start-Lasting n ids e) r)
        (Steps-Marked z e p r)

-- What holds after a run that begins with all threads asked to end.
ending :
    (n : ℕ) (ids : List ℕ) {s : System} {m : ℕ} {t : System}
    → count 0 ids ≡ 0
    → length (new_fixed_pool n ids).threads ≡ n
    → Steps (start n n ids) s
    → After (first n ids) s m t
    → (t.pool.threads ≡ (new_fixed_pool n ids).threads)
      × (m ≤ 6 * n)
      × ((i : ℕ) → has t.pool.threads i ≡ true → GoesOn t i)
      × (((i : ℕ) → has t.pool.threads i ≡ true → t.worker i ≡ counted)
          → is_shut_down t.pool.state ≡ true)
ending n ids {s} {m} {t} z e r b = (
  b.lasting.life.same,
  omega (
    arith,
    b.bounded,
    total-bound (λ i. left (s.worker i)) 6 (first n ids) (λ i. left-le (s.worker i)),
    e,
  ),
  λ i h.
      goes_on t i (t.worker i) (is_closed t.pool.state) refl
        (ground (arith, b.lasting.present i, ap (λ l. has l i) b.lasting.life.same, h))
        (b.lasting.stands i) (b.asked i h)
        (none_to_join (first n ids) t (no_zero n ids z) b.lasting) b.lasting.none_new,
  λ h.
      all_counted (first n ids) t b.lasting (Steps-Inv (reachable-Inv n n ids z r) b.reached) h
        b.marked,
)

-- A fixed pool, whose constructor has made n threads, at least one, with different ids that are not
-- 0, comes to its end. Once a caller of `ShutDown` has run its loops, which take the guard, and no
-- exchange has failed in them, whatever happens: the map of the pool has the same threads still; the
-- workers move at most 6 n times; each is at its end, or out of its loop by an exception, or waits for
-- the guard, which the monitor has, with no thread to join, or can move; and when all are at their end,
-- the state is `SHUTDOWN`.
pub fixed_pool_ends :
    (n : ℕ) (ids : List ℕ) {s : System} (j : ℕ) {m : ℕ} {t : System}
    → count 0 ids ≡ 0
    → length (new_fixed_pool n ids).threads ≡ n
    → 0 < n
    → Steps (start n n ids) s
    → s.shut j ≡ stopping
    → holds_guard s.monitor ≡ false
    → Run (after_loops s j) m t
    → (t.pool.threads ≡ (new_fixed_pool n ids).threads)
      × (m ≤ 6 * n)
      × ((i : ℕ) → has t.pool.threads i ≡ true → GoesOn t i)
      × (((i : ℕ) → has t.pool.threads i ≡ true → t.worker i ≡ counted)
          → is_shut_down t.pool.state ≡ true)
fixed_pool_ends n ids {s} j z e p r c free run =
    let zero_ = no_zero n ids z in
    let r' = then_ r (after_loops-Step s j c free) in
    let v = Steps-Lasting (first n ids) zero_ (start-Lasting n ids e) r' in
    let b =
      Run-After (first n ids) zero_ v (after_loops-AllAsked s j) (Steps-Marked n ids z e p r')
        run in
    ending n ids z e r' b
