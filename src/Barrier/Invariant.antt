-- ===== src/Barrier/Invariant.antt =====
-- What holds of a barrier and its threads between two steps.
use empool.Base.{ℕ, ◌≤◌, ◌<◌, ◌≡◌, refl, ◌∙◌, Bool, arith}
use empool.Barrier.{
  Barrier, Ticket, Pc, outside, asleep, woken, expired, returned, await, await_loop, reset,
}
use empool.Barrier.System.{
  System, Step, call, stir, go_on, expire, give_up, restart, Reach, first, later,
}

-- What a thread's ticket says: one that sleeps belongs to the running generation, and no ticket
-- comes from the future.
abbrev pub IsFresh : Barrier → Pc → Type 0
IsFresh b outside = Unit {0}
IsFresh b (asleep timed t) =
    (t.current_reset_index ≡ b.reset_index) × (t.current_barrier_cond ≡ b.barrier_cond)
IsFresh b (woken timed t) =
    (t.current_reset_index ≤ b.reset_index) × (t.current_barrier_cond ≤ b.barrier_cond)
IsFresh b (expired t) = Unit
IsFresh b (returned r) = Unit

pub record Inv (s : System) : Type 0 where
  pub positive : 0 < s.barrier.count
  pub bounded : s.barrier.count ≤ s.barrier.max_count
  pub fresh : (i : ℕ) → IsFresh s.barrier (s.pc i)

pub await_loop-IsFresh :
    (timed : Bool) (b : Barrier) (t : Ticket)
    → t.current_reset_index ≤ b.reset_index
    → t.current_barrier_cond ≤ b.barrier_cond
    → IsFresh b (await_loop timed b t)
unfolding await_loop
await_loop-IsFresh timed b t h k = ground arith

-- Every step keeps the count within 1 and its maximum and the tickets fresh.
pub Step-Inv : {n : ℕ} {m : Bool} {s t : System} → Step n m s t → Inv s → Inv t
unfolding await reset
Step-Inv (call i timed lt idle may room) v = record {
  positive = ground arith;
  bounded = ground arith;
  fresh = λ j. ground (arith, v.fresh j);
}
Step-Inv (stir i timed t lt e) v = record {
  positive = v.positive;
  bounded = v.bounded;
  fresh = λ j. ground (arith, v.fresh j);
}
Step-Inv (go_on i timed t lt e) v = record {
  positive = v.positive;
  bounded = v.bounded;
  fresh = λ j. ground (arith, v.fresh j, v.fresh i);
}
Step-Inv (expire i t lt e) v = record {
  positive = v.positive;
  bounded = v.bounded;
  fresh = λ j. ground (arith, v.fresh j);
}
Step-Inv (give_up i t lt e) v = record {
  positive = v.positive;
  bounded = v.bounded;
  fresh = λ j. ground (arith, v.fresh j);
}
Step-Inv (restart room) v = record {
  positive = ground arith;
  bounded = omega arith;
  fresh = λ j. ground (arith, v.fresh j);
}

pub Reach-Inv :
    {n : ℕ} {m : Bool} {b : Barrier} {s : System}
    → 0 < b.count
    → b.count ≤ b.max_count
    → Reach n m b s
    → Inv s
Reach-Inv pos le first = record { positive = pos; bounded = le; fresh = λ i. tt }
Reach-Inv pos le (later r st) = Step-Inv st (Reach-Inv pos le r)

Step-max_count :
    {n : ℕ} {m : Bool} {s t : System} → Step n m s t → t.barrier.max_count ≡ s.barrier.max_count
unfolding await reset
Step-max_count (call i timed lt idle may room) = ground arith
Step-max_count (restart room) = refl
Step-max_count _ = refl

pub Reach-max_count :
    {n : ℕ} {m : Bool} {b : Barrier} {s : System}
    → Reach n m b s
    → s.barrier.max_count ≡ b.max_count
Reach-max_count first = refl
Reach-max_count (later r st) = Step-max_count st ∙ Reach-max_count r
