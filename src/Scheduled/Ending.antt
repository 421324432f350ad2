-- ===== src/Scheduled/Ending.antt =====
-- `ShutDownHelper` of a pool comes to its end.
use empool.Base.{
  ℕ, suc, ◌+◌, ◌*◌, ◌≤◌, ◌<◌, ◌≡◌, ◌≢◌, ◌⊎◌, inl, inr, refl, Bool, true, false, arith, ap, sym, ◌∙◌,
  subst, update-at, dec_lt,
}
use empool.Heap.{PopHeap}
use empool.Closeable.{ThreadState, finished, init, running}
use empool.Timer.Handler.{close_thread}
use empool.Scheduled.{shutdown}
use empool.Scheduled.System as S
use empool.Scheduled.System.{
  Pc, outside, checked, adding, answered, stopping, at_handler_number, closing, joining, shut,
  System, Step, go_to, after_close,
}
use empool.Scheduled.Moves.{
  after_push, after_wait, is_inside, left, Stage, Onward, Step-Onward, Step-thread_num,
}

-- Thread `j` runs `ShutDownHelper` from the state `s` on, with `moves` steps of its own, among those
-- of others.
pub data Call (lib : PopHeap) (may_fail : Bool) (j : ℕ) (s : System)
    : (moves : ℕ) → System → Type 0 where
  enters : Call lib may_fail j s 0 s
  moves :
      {m : ℕ} {t u : System}
      → Call lib may_fail j s m t
      → is_inside (t.pc j) ≡ true
      → Step lib may_fail t u
      → u.pc j ≢ t.pc j
      → Call lib may_fail j s (suc m) u
  others :
      {m : ℕ} {t u : System}
      → Call lib may_fail j s m t
      → is_inside (t.pc j) ≡ true
      → Step lib may_fail t u
      → u.pc j ≡ t.pc j
      → Call lib may_fail j s m u

-- What holds after `m` steps of the call.
record Within (j n : ℕ) (now : Bool) (m : ℕ) (t : System) : Type 0 where
  same_number : t.pool.thread_num ≡ n
  bounded : m + left n (t.pc j) ≤ 3 * n + 2
  stage : Stage n now (t.pc j)
  at_end : is_inside (t.pc j) ≡ false → t.pool.state ≡ shutdown

Call-Within :
    {lib : PopHeap} {may_fail now : Bool} {s : System} {j m : ℕ} {t : System}
    → s.pc j ≡ stopping now
    → Call lib may_fail j s m t
    → Within j s.pool.thread_num now m t
Call-Within {now = now} {s = s} e enters = record {
  same_number = refl;
  bounded = omega (arith, ap (left s.pool.thread_num) e);
  stage = subst (Stage s.pool.thread_num now) (sym e) refl;
  at_end = λ o. absurd (ground (arith, e, o));
}
Call-Within {now = now} {s = s} {j = j} e (moves {m} {t} {u} c i st other) =
    let w = Call-Within e c in
    let (less, g, o) =
      subst (λ n. Onward n u.pool.state (t.pc j) (u.pc j)) w.same_number (Step-Onward st j other) i
        now w.stage in
    record {
      same_number = Step-thread_num st ∙ w.same_number;
      bounded = omega (arith, less, w.bounded);
      stage = g;
      at_end = o;
    }
Call-Within {now = now} {s = s} {j = j} e (others {m} {t} {u} c i st same) =
    let w = Call-Within e c in
    record {
      same_number = Step-thread_num st ∙ w.same_number;
      bounded = omega (arith, ap (left s.pool.thread_num) same, w.bounded);
      stage = subst (Stage s.pool.thread_num now) (sym same) w.stage;
      at_end = λ o. absurd (ground (arith, same, i, o));
    }

-- Thread `j` is in `Close` of the thread of a handler, which has not come to its end.
abbrev pub Joins : ℕ → Bool → System → Type 0
Joins j now t =
    (k : ℕ) × (k < t.pool.thread_num)
    × (now ≡ true)
    × (t.pc j ≡ joining now k)
    × ((t.pool.handlers k).thread.state ≢ finished)

-- Whether the thread of a handler is at its end.
finished-Dec : (c : ThreadState) → Dec (c ≡ finished)
finished-Dec finished = yes refl
finished-Dec init = no (λ e. absurd (cc e))
finished-Dec running = no (λ e. absurd (cc e))

-- Thread `j` has a step.
abbrev pub CanMove : PopHeap → Bool → ℕ → System → Type 0
CanMove lib may_fail j t = (u : System) × Step lib may_fail t u × (u.pc j ≢ t.pc j)

-- Thread `j` comes from `p` to `q`, which is closer to the end.
comes_to :
    {lib : PopHeap} {may_fail : Bool} {t u : System} (n j : ℕ) (p q : Pc)
    → t.pc j ≡ p
    → left n q < left n p
    → Step lib may_fail t u
    → u.pc j ≡ q
    → CanMove lib may_fail j t
comes_to {u = u} n j p q e less st e' =
    (u, st, λ same. omega (arith, less, ap (left n) (sym e' ∙ same ∙ e)))

goes_on :
    (lib : PopHeap) (may_fail now : Bool) (j : ℕ) (t : System) (p : Pc)
    → t.pc j ≡ p
    → is_inside p ≡ true
    → Stage t.pool.thread_num now p
    → Joins j now t ⊎ CanMove lib may_fail j t
unfolding close_thread
goes_on lib may_fail now j t (stopping b) e i g = inr (
    comes_to t.pool.thread_num j (stopping b) (at_handler_number b 0) e (omega arith)
      (S.stops j b e) (update-at t.pc j _))
goes_on lib may_fail now j t (at_handler_number b k) e i g = elim (dec_lt k t.pool.thread_num) [
  | yes lt ↦ inr (
      comes_to t.pool.thread_num j (at_handler_number b k) _ e
        (after_push _ k t.pool.state b _ lt i now g).0
        (S.pushes_end j b false k 0 e lt (λ f. absurd (cc f))) (update-at t.pc j _))
  | no all ↦ inr (
      comes_to t.pool.thread_num j (at_handler_number b k) (shut b true) e (omega arith)
        (S.ends j b k e (omega (arith, all, g.1))) (update-at t.pc j _))
]
goes_on lib may_fail now j t (closing b k) e i g = inr (
    comes_to t.pool.thread_num j (closing b k) _ e
      (after_wait t.pool.thread_num k t.pool.state b _ (λ w. ground (arith, w)) i now g).0
      (S.closes j b false k e (λ f. absurd (cc f))) (update-at t.pc j _))
goes_on lib may_fail now j t (joining b k) e i g =
    elim (finished-Dec (t.pool.handlers k).thread.state) [
      | yes f ↦ inr (
          comes_to t.pool.thread_num j (joining b k) (at_handler_number b (suc k)) e
            (omega (arith, g.2)) (S.joins j b k e f) (update-at t.pc j _))
      | no other ↦ inl (k, g.2, g.1, subst (λ c. t.pc j ≡ joining c k) g.0 e, other)
    ]
goes_on lib may_fail now j t p e i g = absurd (ground (arith, i))

returned : (n : ℕ) (now : Bool) (p : Pc) → is_inside p ≡ false → Stage n now p → p ≡ shut now true
returned n now (shut b won) o g = ground (arith, g.0, g.1)
returned n now p o g = absurd (ground (arith, o, g))

-- `ShutDownHelper` comes to its end, whatever other threads do, and whichever exchanges of the
-- handlers fail for no reason: from the state after its own exchange, a call takes at most 3 n + 2 steps of its
-- own in a pool of n handlers; when it is out of the function, it has set the state to `SHUTDOWN`,
-- and it has won; as long as it is in it, it has a step, or is in `ShutDownNow` and joins the thread of a
-- handler, which has not come to its end.
pub shut_down_ends :
    {lib : PopHeap} {may_fail now : Bool} {s : System} {j m : ℕ} {t : System}
    → s.pc j ≡ stopping now
    → Call lib may_fail j s m t
    → (m ≤ 3 * s.pool.thread_num + 2)
      × (is_inside (t.pc j) ≡ false → (t.pc j ≡ shut now true) × (t.pool.state ≡ shutdown))
      × (is_inside (t.pc j) ≡ true → Joins j now t ⊎ CanMove lib may_fail j t)
shut_down_ends {lib} {may_fail} {now} {s} {j} {m} {t} e c =
    let w = Call-Within e c in
    (
      omega (arith, w.bounded),
      λ o. (returned s.pool.thread_num now (t.pc j) o w.stage, w.at_end o),
      λ i.
          goes_on lib may_fail now j t (t.pc j) refl i
            (subst (λ n. Stage n now (t.pc j)) (sym w.same_number) w.stage),
    )
