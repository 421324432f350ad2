-- ===== src/Scaling/Idle.antt =====
-- Workers that find no task to do, `m_judge` and its `IfMoreThan`.
use empool.Base.{
  Bool-cases, inl, inr, subst, ◌≤◌, ℕ, zero, suc, ◌<◌, ◌≡◌, refl, ◌∙◌, Bool, true, false, arith,
  update, update-at, if◌then◌else◌, ap,
}
use empool.Scaling.{if_more_than}
use empool.Scaling.Worker.{checking, WorkerPc, fetching, judging, closing, Input, worker_step}
use empool.Scaling.System.{System, holds_guard, step_worker, works, Steps, here, then_}

-- The wait for a task has run out.
abbrev in_vain : Input
in_vain = record { expires = true; escapes = false; fails = false }

-- The step of a worker that stands at `p`.
step_from :
    (t : System) (i : ℕ) (p : WorkerPc)
    → t.worker i ≡ p
    → step_worker in_vain t i ≡ record t {
      pool = (worker_step in_vain t.pool i p).0;
      worker = update t.worker i (worker_step in_vain t.pool i p).1;
    }
step_from t i p e =
    ap
      (λ p. record t {
        pool = (worker_step in_vain t.pool i p).0;
        worker = update t.worker i (worker_step in_vain t.pool i p).1;
      })
      e

-- One worker that waits decides to close itself, and changes nothing but where it stands.
one_closes :
    (s t : System) (i : ℕ)
    → holds_guard t.monitor ≡ false
    → if_more_than t.pool ≡ true
    → t.worker i ≡ fetching
    → Steps s t
    → Steps s (record t { worker = update (update t.worker i judging) i closing })
unfolding worker_step
one_closes s t i free more e r =
    let t' : System = record t { worker = update t.worker i judging } in
    let at_judging = update-at t.worker i judging in
    subst (Steps s)
      (step_from t' i judging at_judging
        ∙ ap
            (λ b. record t {
              worker = update (update t.worker i judging) i (if b then closing else checking);
            })
            more)
      (then_
        (subst (Steps s) (step_from t i fetching e) (then_ r (works in_vain i (ground (arith, e)))))
        (works in_vain i (ground (arith, free))))

abbrev is_fetching : WorkerPc → Bool
is_fetching fetching = true
is_fetching _ = false

-- The workers below `n`, with the others as they were.
abbrev Closing : System → ℕ → (ℕ → WorkerPc) → Type 0
Closing s n u =
    Steps s (record s { worker = u })
    × ((i : ℕ) → i < n → is_fetching (s.worker i) ≡ true → u i ≡ closing)
    × ((k : ℕ) → n ≤ k → u k ≡ s.worker k)

next_closes :
    (s : System) (n : ℕ)
    → holds_guard s.monitor ≡ false
    → if_more_than s.pool ≡ true
    → (u : ℕ → WorkerPc) × Closing s n u
    → (u : ℕ → WorkerPc) × Closing s (suc n) u
next_closes s n free more (u, (r, done, same)) = elim (Bool-cases (is_fetching (s.worker n))) [
  | inl e ↦ (
    update (update u n judging) n closing,
    (
      one_closes s (record s { worker = u }) n free more (ground (arith, same n (omega arith), e))
          r,
      λ i lt h. ground (arith, done i, h),
      λ k le. ground (arith, same k),
    ),
  )
  | inr e ↦ (u, (r, λ i lt h. ground (arith, done i, h, e), λ k le. same k (omega arith)))
]

-- However few threads the pool has to have: as soon as there is one too many, all workers below `n`
-- that wait for a task may decide to close themselves, since each compares with the size of the
-- map, which none of them changes.
pub all_may_close :
    (s : System) (n : ℕ)
    → holds_guard s.monitor ≡ false
    → if_more_than s.pool ≡ true
    → (u : ℕ → WorkerPc) × Steps s (record s { worker = u })
      × ((i : ℕ) → i < n → s.worker i ≡ fetching → u i ≡ closing)
all_may_close s n free more =
    let (u, (r, done, same)) = up_to n in (u, r, λ i lt e. done i lt (ap is_fetching e))
  where
    up_to : (n : ℕ) → (u : ℕ → WorkerPc) × Closing s n u
    up_to zero = (s.worker, (here, λ i lt. absurd (omega arith), λ k le. refl))
    up_to (suc n) = next_closes s n free more (up_to n)
