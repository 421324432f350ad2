-- ===== src/Scheduled/Moves.antt =====
-- How a step of a thread in `ShutDownHelper` of a pool brings it closer to its end.
use empool.Base.{
  ℕ, suc, ◌+◌, ◌*◌, ◌-◌, ◌≤◌, ◌<◌, ◌≡◌, ◌≢◌, inl, inr, refl, Bool, true, false, arith, ap, sym, ◌∙◌,
  subst, update_cases, if◌then◌else◌,
}
use empool.Heap.{PopHeap}
use empool.Timer.Handler.{close_thread}
use empool.Scheduled.{PoolState, stop, shutdown, current_index, result}
use empool.Timer.Racing.{asking, add_step}
use empool.Scheduled.System as S
use empool.Scheduled.System.{
  Pc, outside, checked, adding, answered, stopping, at_handler_number, closing, joining, shut,
  System, Step, after_close, handler, answered,
}

-- In `ShutDownHelper`, past its exchange.
abbrev pub is_inside : Pc → Bool
is_inside (stopping now) = true
is_inside (at_handler_number now k) = true
is_inside (closing now k) = true
is_inside (joining now k) = true
is_inside _ = false

-- More than the steps that a call has left in a pool of `n` handlers.
abbrev pub left : ℕ → Pc → ℕ
left n (stopping now) = 3 * n + 2
left n (at_handler_number now k) = 3 * (n - k) + 1
left n (closing now k) = 3 * (n - suc k) + 3
left n (joining now k) = 3 * (n - suc k) + 2
left n _ = 0

-- In `ShutDownHelper(now)` with a handler there is, or returned from it with the exchange won.
abbrev pub Stage : ℕ → Bool → Pc → Type 0
Stage n now (stopping b) = b ≡ now
Stage n now (at_handler_number b k) = (b ≡ now) × (k ≤ n)
Stage n now (closing b k) = (b ≡ now) × (k < n)
Stage n now (joining b k) = (b ≡ now) × (now ≡ true) × (k < n)
Stage n now (shut b won) = (b ≡ now) × (won ≡ true)
Stage n now _ = false ≡ true

-- What a step in the call leaves at `q`, with the state of the pool.
abbrev pub Closer : ℕ → PoolState → Bool → Pc → Pc → Type 0
Closer n state now p q =
    (left n q < left n p) × Stage n now q × (is_inside q ≡ false → state ≡ shutdown)

-- A step from `p` to `q` goes on in the call.
abbrev pub Onward : ℕ → PoolState → Pc → Pc → Type 0
Onward n state p q = is_inside p ≡ true → (now : Bool) → Stage n now p → Closer n state now p q

-- Of thread `i`, which went from `s.pc i` to `q`; the others stay.
only :
    (n : ℕ) (state : PoolState) (s : System) (i : ℕ) (p q : Pc)
    → s.pc i ≡ p
    → Onward n state p q
    → (j : ℕ) → (S.go_to s i q).pc j ≢ s.pc j
    → Onward n state (s.pc j) ((S.go_to s i q).pc j)
only n state s i p q e o =
    update_cases (λ k r. r ≢ s.pc k → Onward n state (s.pc k) r) s.pc i q
      (λ _. subst (λ r. Onward n state r q) (sym e) o) (λ k ne same. absurd (same refl))

elsewhere : (n : ℕ) (state : PoolState) (p q : Pc) → is_inside p ≡ false → Onward n state p q
elsewhere n state p q out i = absurd (ground (arith, out, i))

only_outside :
    (n : ℕ) (state : PoolState) (s : System) (i : ℕ) (q : Pc)
    → is_inside (s.pc i) ≡ false
    → (j : ℕ) → (S.go_to s i q).pc j ≢ s.pc j
    → Onward n state (s.pc j) ((S.go_to s i q).pc j)
only_outside n state s i q out = only n state s i (s.pc i) q refl (elsewhere n state (s.pc i) q out)

idle : (p : Pc) → S.IsIdle p → is_inside p ≡ false
idle p (inl e) = ap is_inside e
idle p (inr (inl (r, e))) = ap is_inside e
idle p (inr (inr (now, won, e))) = ap is_inside e

pub after_push :
    (n k : ℕ) (state : PoolState) (now won : Bool)
    → k < n
    → Onward n state
        (at_handler_number now k)
        (if won then closing now k else at_handler_number now (suc k))
after_push n k state now true lt i b (e, le) = (omega (arith, lt), (e, lt), λ o. absurd (cc o))
after_push n k state now false lt i b (e, le) =
    (omega (arith, lt), (e, omega (arith, lt)), λ o. absurd (cc o))

-- A call waits only for `ShutDownNow`.
pub after_wait :
    (n k : ℕ) (state : PoolState) (now waits : Bool)
    → (waits ≡ true → now ≡ true)
    → Onward n state (closing now k) (after_close now waits k)
after_wait n k state now true only_now i b (e, lt) =
    (omega arith, (e, sym e ∙ only_now refl, lt), λ o. absurd (cc o))
after_wait n k state now false only_now i b (e, lt) =
    (omega (arith, lt), (e, omega (arith, lt)), λ o. absurd (cc o))

pub Step-Onward :
    {lib : PopHeap} {may_fail : Bool} {s t : System}
    → Step lib may_fail s t
    → (j : ℕ) → t.pc j ≢ s.pc j
    → Onward s.pool.thread_num t.pool.state (s.pc j) (t.pc j)
unfolding close_thread
Step-Onward {s = s} (S.begins i req task e) = only_outside _ _ s i _ (idle _ e)
Step-Onward {s = s} (S.draws i now req x e) =
    only_outside _ _ s i (adding now req x (current_index s.pool) asking) (ap is_inside e)
Step-Onward {s = s} (S.adds i now req x k p e) =
    only_outside _ _ s i (adding now req x k (add_step now req x (handler s k) p).1)
      (ap is_inside e)
Step-Onward {s = s} (S.answers i now req x k taken e) =
    only_outside _ _ s i (answered (result x taken)) (ap is_inside e)
Step-Onward {s = s} (S.asks i now fails e h) = only_outside _ _ s i _ (idle _ e)
Step-Onward {s = s} (S.stops i now e) =
    only s.pool.thread_num stop s i (stopping now) (at_handler_number now 0) e
      (λ i b g. (omega arith, (g, omega arith), λ o. absurd (cc o)))
Step-Onward {s = s} (S.pushes_end i now fails k end e lt h) =
    only _ _ s i _ _ e (after_push _ k _ now _ lt)
Step-Onward {s = s} (S.closes i now fails k e h) =
    only _ _ s i _ _ e (after_wait _ k _ now _ (λ w. ground (arith, w)))
Step-Onward {s = s} (S.joins i now k e f) =
    only s.pool.thread_num s.pool.state s i (joining now k) (at_handler_number now (suc k)) e
      (λ i b g. (omega (arith, g.2), (g.0, omega (arith, g.2)), λ o. absurd (cc o)))
Step-Onward {s = s} (S.ends i now k e last) =
    only s.pool.thread_num shutdown s i (at_handler_number now k) (shut now true) e
      (λ i b g. (omega arith, (g.0, refl), λ o. refl))
Step-Onward (S.turns i turn) = λ j other. absurd (other refl)

pub Step-thread_num :
    {lib : PopHeap} {may_fail : Bool} {s t : System}
    → Step lib may_fail s t
    → t.pool.thread_num ≡ s.pool.thread_num
Step-thread_num (S.draws i now req x e) = refl
Step-thread_num _ = refl
