-- ===== src/Scheduled/Dealing.antt =====
-- How the calls that add tasks are dealt out to the handlers, whatever comes between their accesses.
use empool.Base.{
  ℕ, ◌+◌, ◌*◌, ◌%◌, ◌^◌, ◌≤◌, ◌<◌, ◌≡◌, refl, ◌∙◌, ap, subst, Bool, Option, none, some, ◌∷◌, arith,
  one_if, ltb, length, update, update_elim, if_elim,
}
use empool.Clock.{u64}
use empool.Heap.{PopHeap, count}
use empool.Timer.{Store}
use empool.Timer.Racing.{Request, AddPc, asking}
use empool.Closeable.{compare_exchange}
use empool.Timer.Handler.{push_end, close_thread}
use empool.Scheduled.{Pool, current_index, fetch_add}
use empool.Scheduled.Turns.{Dealt, next-Dealt}
use empool.Scheduled.System.{
  Pc, adding, System, after_tests, handler, Step, begins, draws, adds, answers, asks, stops,
  pushes_end, closes, joins, ends, turns, Reach, first, later,
}
use native.Mathlib.Nat.{mod-eq_of_lt}

-- A call of a handler has drawn one that there is.
abbrev InRange : ℕ → Pc → Type 0
InRange n (adding now req x i p) = i < n
InRange n _ = Unit

record Drawn (n : ℕ) (s : System) : Type 0 where
  size : s.pool.thread_num ≡ n
  index : s.pool.index ≡ u64 (length s.dealt)
  ranges : (j : ℕ) → InRange n (s.pc j)
  shares :
      length s.dealt ≤ 2 ^ 64
      → (q : ℕ) × (r : ℕ) × Dealt n (length s.dealt) (λ i. count i s.dealt) q r

-- A thread goes on, and neither the size nor the turn changes.
module _ {n : ℕ} (s : System) (d : Drawn n s) where
  moves : (j : ℕ) (p : Pc) → InRange n p → (k : ℕ) → InRange n (update s.pc j p k)
  moves j p h = update_elim (λ k p. InRange n p) s.pc j p h d.ranges

  drawn_before : (j : ℕ) {p : Pc} → s.pc j ≡ p → InRange n p
  drawn_before j e = subst (InRange n) e (d.ranges j)

tests_InRange : (n : ℕ) (p : Pool) (req : Request) (t : Option ℕ) → InRange n (after_tests p req t)
tests_InRange n p req none = tt
tests_InRange n p req (some x) = if_elim (InRange n) p.is_request_shut_down (λ _. tt) (λ _. tt)

draws-Drawn :
    {n : ℕ} (s : System) (j now : ℕ) (req : Request) (x : ℕ)
    → 0 < n
    → Drawn n s
    → Drawn n (record s {
      pool = fetch_add s.pool;
      pc = update s.pc j (adding now req x (current_index s.pool) asking);
      dealt = current_index s.pool ∷ s.dealt;
    })
draws-Drawn {n} s j now req x pos d = record {
  size = d.size;
  index = omega (arith, d.index);
  ranges = moves s d j _ (grind (arith, d.size));
  shares = λ fits.
      let (q, r, t) = d.shares (omega arith) in
      let (q', r', t') =
        next-Dealt q r (λ i. count i (current_index s.pool ∷ s.dealt))
          (λ i. ground (arith, current (omega arith))) t in
      (
        q',
        r',
        record { in_range = t'.in_range; turn = omega (arith, t'.turn); shares = t'.shares },
      );
}
  where
    current : length s.dealt < 2 ^ 64 → current_index s.pool ≡ length s.dealt % n
    current fits =
        ap (λ m. s.pool.index % m) d.size
        ∙ ap (λ k. k % n) (d.index ∙ mod-eq_of_lt {n = length s.dealt} {m = 2 ^ 64} fits)

Step-Drawn :
    {lib : PopHeap} {f : Bool} {n : ℕ} {s t : System}
    → 0 < n
    → Step lib f s t
    → Drawn n s
    → Drawn n t
Step-Drawn {n = n} {s} pos (begins j req task idle) d = record {
  size = d.size;
  index = d.index;
  ranges = moves s d j _ (tests_InRange n s.pool req task);
  shares = d.shares;
}
Step-Drawn {s = s} pos (draws j now req x e) d = draws-Drawn s j now req x pos d
Step-Drawn {s = s} pos (adds j now req x i p e) d = record {
  size = d.size;
  index = d.index;
  ranges = moves s d j _ (drawn_before s d j e);
  shares = d.shares;
}
Step-Drawn {s = s} pos (answers j now req x i taken e) d = record {
  size = d.size;
  index = d.index;
  ranges = moves s d j _ tt;
  shares = d.shares;
}
Step-Drawn {n = n} {s} pos (asks j now fails idle may) d = record {
  size = d.size;
  index = d.index;
  ranges = moves s d j _ (
      if_elim (InRange n) (compare_exchange fails s.pool.is_request_shut_down).1 (λ _. tt)
        (λ _. tt));
  shares = d.shares;
}
Step-Drawn {s = s} pos (stops j now e) d = record {
  size = d.size;
  index = d.index;
  ranges = moves s d j _ tt;
  shares = d.shares;
}
Step-Drawn {n = n} {s} pos (pushes_end j now fails k end e lt may) d = record {
  size = d.size;
  index = d.index;
  ranges =
      moves s d j _ (if_elim (InRange n) (push_end fails (handler s k) end).1 (λ _. tt) (λ _. tt));
  shares = d.shares;
}
Step-Drawn {n = n} {s} pos (closes j now fails k e may) d = record {
  size = d.size;
  index = d.index;
  ranges =
      moves s d j _
        (if_elim (InRange n) (close_thread now fails (handler s k)).1 (λ _. tt) (λ _. tt));
  shares = d.shares;
}
Step-Drawn {s = s} pos (joins j now k e fin) d = record {
  size = d.size;
  index = d.index;
  ranges = moves s d j _ tt;
  shares = d.shares;
}
Step-Drawn {s = s} pos (ends j now k e last) d = record {
  size = d.size;
  index = d.index;
  ranges = moves s d j _ tt;
  shares = d.shares;
}
Step-Drawn pos (turns i t) d = record {
  size = d.size;
  index = d.index;
  ranges = d.ranges;
  shares = d.shares;
}

Reach-Drawn :
    {lib : PopHeap} {f : Bool} {n : ℕ} {tasks : Store} {s : System}
    → 0 < n
    → Reach lib f n tasks s
    → Drawn n s
Reach-Drawn pos first = record {
  size = refl;
  index = refl;
  ranges = λ j. tt;
  shares =
      λ fits. (0, 0, record { in_range = pos; turn = omega arith; shares = λ i lt. ground arith });
}
Reach-Drawn pos (later r st) = Step-Drawn pos st (Reach-Drawn pos r)

-- In every state that any threads come to that call a new pool of `n` handlers, whatever comes
-- between their accesses: if at most 2 ^ 64 calls have drawn a handler, they are dealt out evenly:
-- each handler has been drawn by `q` of them, and the first `r` handlers by one more, where `q` and
-- `r` are the quotient and the remainder of their number by `n`; and the handler that a call has
-- drawn is one of the `n`.
pub dealt_in_turn :
    {lib : PopHeap} {may_fail : Bool} {n : ℕ} {tasks : Store} {s : System}
    → 0 < n
    → Reach lib may_fail n tasks s
    → length s.dealt ≤ 2 ^ 64
    → ((q : ℕ) × (r : ℕ) × (r < n)
        × (length s.dealt ≡ q * n + r)
        × ((i : ℕ) → i < n → count i s.dealt ≡ q + one_if (ltb i r)))
      × ((j now x i : ℕ) (req : Request) (p : AddPc) → s.pc j ≡ adding now req x i p → i < n)
dealt_in_turn {n = n} {s = s} pos r fits =
    let d = Reach-Drawn pos r in
    let (q, r, t) = d.shares fits in
    ((q, r, t.in_range, t.turn, t.shares), λ j now x i req p e. drawn_before s d j e)
