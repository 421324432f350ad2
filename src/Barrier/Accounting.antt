-- ===== src/Barrier/Accounting.antt =====
-- How many threads wait in a generation.
use empool.Base.{
  ℕ, ◌+◌, ◌-◌, ◌≤◌, ◌<◌, ◌≡◌, refl, Bool, true, false, arith, update, tally, tally-eq-zero,
  tally_change, one_if, dec_lt,
}
use empool.Barrier.{
  Barrier, Ticket, Pc, outside, asleep, woken, expired, returned, timeout, success, is_current,
  await, await_loop, reset,
}
use empool.Barrier.System.{
  System, Step, call, stir, go_on, expire, give_up, restart, IsIdle, called,
}
use empool.Barrier.Invariant.{Inv}

-- Whether a thread waits in the running generation.
abbrev pub in_generation : Barrier → Pc → Bool
in_generation b outside = false
in_generation b (asleep timed t) = is_current b t
in_generation b (woken timed t) = is_current b t
in_generation b (expired t) = false
in_generation b (returned r) = false

pub waiting : ℕ → System → ℕ
waiting n s = tally (λ i. in_generation s.barrier (s.pc i)) n

pub waiting-eq-zero :
    (n : ℕ) (s : System)
    → ((i : ℕ) → i < n → in_generation s.barrier (s.pc i) ≡ false)
    → waiting n s ≡ 0
unfolding waiting
waiting-eq-zero n s h = tally-eq-zero _ n h

-- Only a thread in `Await(time_ms)` waits with a time limit.
abbrev pub IsTimed : Bool → Pc → Type 0
IsTimed may (asleep timed t) = timed ≡ true → may ≡ true
IsTimed may (woken timed t) = timed ≡ true → may ≡ true
IsTimed may (expired t) = may ≡ true
IsTimed may outside = Unit {0}
IsTimed may (returned r) = Unit

pub record Count (n : ℕ) (may : Bool) (s : System) : Type 0 where
  pub within : s.barrier.count + waiting n s ≤ s.barrier.max_count
  pub exact : may ≡ false → s.barrier.count + waiting n s ≡ s.barrier.max_count
  pub timed : (i : ℕ) → IsTimed may (s.pc i)

-- One thread goes from `p` to `q` while the barrier's generation stays.
waiting_change :
    (n i : ℕ) (s t : System)
    → ((j : ℕ) → ¬ (i ≡ j) → in_generation s.barrier (s.pc j) ≡ in_generation t.barrier (t.pc j))
    → i < n
    → waiting n s + one_if (in_generation t.barrier (t.pc i))
      ≡ waiting n t + one_if (in_generation s.barrier (s.pc i))
unfolding waiting
waiting_change n i s t h lt = tally_change _ _ i n h lt

-- A generation that has just begun: nobody waits in it yet.
pub fresh_start :
    {n : ℕ} {m : Bool} (s : System)
    → s.barrier.count ≡ s.barrier.max_count
    → ((i : ℕ) → in_generation s.barrier (s.pc i) ≡ false)
    → ((i : ℕ) → IsTimed m (s.pc i))
    → Count n m s
unfolding waiting
fresh_start {n} s full none_yet t = record {
  within = omega (arith, nobody);
  exact = λ _. omega (arith, nobody);
  timed = t;
}
  where
    nobody : tally (λ i. in_generation s.barrier (s.pc i)) n ≡ 0
    nobody = tally-eq-zero _ n (λ i _. none_yet i)

-- Thread `i` of a system whose barrier stays as it is changes its place.
module _ {n : ℕ} {m : Bool} {s : System} (c : Count n m s) (i : ℕ) (lt : i < n) where
  moved : Pc → System
  moved p = record s { pc = update s.pc i p }

  Count-moved :
      (p : Pc)
      → one_if (in_generation s.barrier p) ≤ one_if (in_generation s.barrier (s.pc i))
      → (m ≡ false → in_generation s.barrier p ≡ in_generation s.barrier (s.pc i))
      → IsTimed m p
      → Count n m (moved p)
  unfolding moved
  Count-moved p le same timed = record {
    within = ground (arith, c.within, change);
    exact = λ e. ground (arith, c.exact e, same e, change);
    timed = λ j. ground (arith, c.timed j);
  }
    where
      change :
          waiting n s + one_if (in_generation s.barrier ((moved p).pc i))
          ≡ waiting n (moved p) + one_if (in_generation s.barrier (s.pc i))
      change = waiting_change n i s (moved p) (λ j ne. ground arith) lt

abbrev pub ticket_now : Barrier → Ticket
ticket_now b = record { current_reset_index = b.reset_index; current_barrier_cond = b.barrier_cond }

-- The two ways in which a call can go.
module _ (timed : Bool) (b : Barrier) where
  pub await_last :
      b.count ≡ 1
      → await timed b ≡ (
        record b { count = b.max_count; barrier_cond = b.barrier_cond + 1 },
        returned success,
        true,
      )
  unfolding await
  await_last e = ground arith

  pub await_early :
      1 < b.count
      → await timed b ≡ (record b { count = b.count - 1 }, asleep timed (ticket_now b), false)
  unfolding await
  await_early e = ground arith

-- Thread `i`, which was not waiting, waits in a generation that goes on.
early-Count :
    {n : ℕ} {m : Bool} (s : System)
    → Count n m s
    → (i : ℕ) (timed : Bool) → i < n
    → IsIdle (s.pc i)
    → 1 < s.barrier.count
    → (timed ≡ true → m ≡ true)
    → Count n m (called s i timed)
early-Count {n} s c i timed lt idle more may = rw (await_early timed s.barrier more) (record {
  within = ground (arith, c.within, change);
  exact = λ e. ground (arith, c.exact e, change);
  timed = λ j. ground (arith, c.timed j);
})
  where
    t : System
    t = record {
      barrier = record (s.barrier) { count = s.barrier.count - 1 };
      pc = update s.pc i (asleep timed (ticket_now s.barrier));
    }

    change : waiting n s + 1 ≡ waiting n t
    change = ground (arith, waiting_change n i s t (λ j ne. ground arith) lt)

-- The last thread of a generation: the next one begins with nobody in it.
last-Count :
    {n : ℕ} {m : Bool} (s : System)
    → Inv s
    → Count n m s
    → (i : ℕ) (timed : Bool) → s.barrier.count ≡ 1
    → Count n m (called s i timed)
last-Count s v c i timed one =
    rw (await_last timed s.barrier one)
      (fresh_start _ refl (λ j. ground (arith, v.fresh j)) (λ j. ground (arith, c.timed j)))

-- Every step keeps the account.
pub Step-Count :
    {n : ℕ} {m : Bool} {s t : System} → Inv s → Step n m s t → Count n m s → Count n m t
unfolding await await_loop reset moved
Step-Count {s = s} v (call i timed lt idle may room) c = elim (dec_lt 1 s.barrier.count) [
  | yes more ↦ early-Count s c i timed lt idle more may
  | no last ↦ last-Count s v c i timed (omega arith)
]
Step-Count v (stir i timed t lt e) c =
    Count-moved c i lt (woken timed t) (ground arith) (λ _. ground arith)
      (ground (arith, c.timed i))
Step-Count {m = m} {s = s} v (go_on i timed t lt e) c =
    Count-moved c i lt (await_loop timed s.barrier t) (ground arith) (λ _. ground arith)
      (ground (arith, c.timed i))
Step-Count v (expire i t lt e) c =
    Count-moved c i lt (expired t) (ground arith) (λ f. ground (arith, c.timed i))
      (ground (arith, c.timed i))
Step-Count v (give_up i t lt e) c =
    Count-moved c i lt (returned timeout) (ground arith) (λ _. ground arith) tt
Step-Count v (restart room) c =
    fresh_start _ refl (λ j. ground (arith, v.fresh j)) (λ j. ground (arith, c.timed j))
