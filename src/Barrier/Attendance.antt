-- ===== src/Barrier/Attendance.antt =====
-- How many threads must come before a barrier lets them go.
use empool.Base.{
  ℕ, zero, suc, ◌+◌, ◌-◌, ◌≤◌, ◌<◌, ◌≡◌, refl, inl, inr, Bool, true, false, some, arith, update,
}
use empool.Barrier.{
  Barrier, Ticket, asleep, expired, returned, timeout, success, int_max, await, new_barrier,
}
use empool.Barrier.System.{System, Step, call, expire, give_up, Reach, first, later, IsIdle, called}
use empool.Barrier.Invariant.{Reach-Inv, Reach-max_count}
use empool.Barrier.Accounting.{
  waiting, Count, Step-Count, waiting-eq-zero, fresh_start, await_early, await_last, ticket_now,
}

Reach-Count :
    {n : ℕ} {m : Bool} {b : Barrier} {s : System}
    → 0 < b.count
    → b.count ≡ b.max_count
    → Reach n m b s
    → Count n m s
Reach-Count pos full first = fresh_start _ full (λ i. refl) (λ i. tt)
Reach-Count pos full (later r st) =
    Step-Count (Reach-Inv pos (omega arith) r) st (Reach-Count pos full r)

new_barrier_full :
    {max : ℕ} {b : Barrier}
    → new_barrier max ≡ some b
    → (0 < b.count) × (b.count ≡ b.max_count) × (b.max_count ≡ max) × (b.barrier_cond ≡ 0)
unfolding new_barrier
new_barrier_full e = ground arith

-- A barrier made by the constructor never has more threads waiting than fit: with those still
-- missing they are at most its maximum, and at least one is missing. If no call has a time limit,
-- they are exactly its maximum: when one call is missing, all the others wait in this generation.
pub waiting_count :
    {n : ℕ} {m : Bool} {max : ℕ} {b : Barrier} {s : System}
    → new_barrier max ≡ some b
    → Reach n m b s
    → (0 < s.barrier.count)
      × (waiting n s < max)
      × (s.barrier.count + waiting n s ≤ max)
      × (m ≡ false → s.barrier.count + waiting n s ≡ max)
waiting_count {n} {s = s} new r =
    let full = new_barrier_full new in
    let inv = Reach-Inv full.0 (omega arith) r in
    let c = Reach-Count full.0 full.1 r in
    let same = Reach-max_count r in
    (inv.positive, omega arith, omega arith, λ e. omega (arith, c.exact e))

-- One timed call that finds nobody runs out, and leaves the count one lower.
one_timeout :
    {b : Barrier} {s : System}
    → Reach 1 true b s
    → 1 < s.barrier.count
    → IsIdle (s.pc 0)
    → s.barrier.barrier_cond < int_max
    → (t : System) × Reach 1 true b t
      × (t.barrier.count + 1 ≡ s.barrier.count)
      × (t.barrier.barrier_cond ≡ s.barrier.barrier_cond)
      × (t.pc 0 ≡ returned timeout)
one_timeout {b} {s} r more idle room =
    let early = await_early true s.barrier more in
    (
      _,
      later (later (later r (call 0 true (omega arith) idle (λ _. refl) room)) out) back,
      ground (arith, early),
      ground (arith, early),
      ground arith,
    )
  where
    k : Ticket
    k = ticket_now s.barrier

    asleep_now : (called s 0 true).pc 0 ≡ asleep true k
    asleep_now = ground (arith, await_early true s.barrier more)

    mid : System
    mid = record (called s 0 true) { pc = update (called s 0 true).pc 0 (expired k) }

    out : Step 1 true (called s 0 true) mid
    out = expire 0 k (omega arith) asleep_now

    back : Step 1 true mid (record mid { pc = update mid.pc 0 (returned timeout) })
    back = give_up 0 k (omega arith) (ground arith)

timeouts_from :
    (k : ℕ) {b : Barrier} {s : System}
    → Reach 1 true b s
    → s.barrier.count ≡ suc k
    → IsIdle (s.pc 0)
    → s.barrier.barrier_cond < int_max
    → (t : System) × Reach 1 true b t × (t.barrier.count ≡ 1) × IsIdle (t.pc 0)
timeouts_from zero {s = s} r e idle room = (s, r, e, idle)
timeouts_from (suc k) r e idle room =
    let (t, r', e', same, back) = one_timeout r (omega arith) idle room in
    timeouts_from k r' (omega arith) (inr (timeout, back)) (omega arith)

idle_alone : (s : System) → IsIdle (s.pc 0) → waiting 1 s ≡ 0
idle_alone s idle = waiting-eq-zero 1 s (λ i lt. ground arith)

-- Calls that time out stay counted: one thread alone can bring any barrier to the point where
-- nobody waits and a single further call trips it and succeeds.
pub timeouts_only :
    (max : ℕ) {b : Barrier}
    → new_barrier max ≡ some b
    → (s : System) × Reach 1 true b s
      × (waiting 1 s ≡ 0)
      × ((timed : Bool) → (await timed s.barrier).1 ≡ returned success)
timeouts_only max {b} new =
    let full = new_barrier_full new in
    let (s, r, one, idle) =
      timeouts_from (b.count - 1) first (omega arith) (inl refl) (omega arith) in
    (s, r, idle_alone s idle, λ timed. ground (arith, await_last timed s.barrier one))
