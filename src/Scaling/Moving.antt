-- ===== src/Scaling/Moving.antt =====
-- What the workers of a fixed pool, src/FixedThreadPool.cpp, have left to do.
use empool.Base.{
  ℕ, suc, ◌+◌, ◌*◌, ◌≤◌, ◌<◌, ◌≡◌, ◌≢◌, refl, subst, ap, ◌∙◌, inl, inr, true, false, ◌&&◌, List, [],
  ◌∷◌, arith, length, update_cases, update-at, Bool-cases, ℕ_discrete,
}
use empool.Heap.{count}
use empool.Scaling.{Pool, has}
use empool.Scaling.Worker.{WorkerPc, absent, Input, worker_step, needs_guard}
use empool.Scaling.System.{System, holds_guard, Step, works, step_worker, Steps, here, then_}
use empool.Scaling.Lifelong.{is_absent}
use empool.Scaling.Lasting.{Lasting, Step-Lasting}
use empool.Scaling.Marking.{Marked, Step-Marked}
use empool.Scaling.Leaving.{AllAsked, left, worker_step-left, Step-AllAsked}

-- The steps that all workers have left.
unfoldable pub total : (ℕ → ℕ) → List ℕ → ℕ
total f [] = 0
total f (x ∷ xs) = f x + total f xs

pub total-le : (f g : ℕ → ℕ) (xs : List ℕ) → ((i : ℕ) → f i ≤ g i) → total f xs ≤ total g xs
unfolding total
total-le f g [] h = omega arith
total-le f g (x ∷ xs) h = omega (arith, h x, total-le f g xs h)

pub total-less :
    (f g : ℕ → ℕ) (xs : List ℕ) (i : ℕ)
    → ((j : ℕ) → f j ≤ g j)
    → f i < g i
    → 0 < count i xs
    → total f xs < total g xs
unfolding total
total-less f g [] i h l c = absurd (omega arith)
total-less f g (x ∷ xs) i h l c = elim (ℕ_discrete i x) [
  | yes same ↦ omega (arith, subst (λ k. f k < g k) same l, total-le f g xs h)
  | no other ↦ omega (arith, h x, total-less f g xs i h l (ground arith))
]

pub total-bound :
    (f : ℕ → ℕ) (k : ℕ) (xs : List ℕ) → ((i : ℕ) → f i ≤ k) → total f xs ≤ k * length xs
unfolding total
total-bound f k [] h = omega arith
total-bound f k (x ∷ xs) h = ground (arith, h x, total-bound f k xs h)

pub left-le : (pc : WorkerPc) → left pc ≤ 6
left-le pc = elim pc as (λ c. left c ≤ 6) [ absent ↦ omega arith | _ ↦ ground arith ]

-- What the workers of a system have left.
abbrev pub all_left : List ℕ → System → ℕ
all_left threads s = total (λ i. left (s.worker i)) threads

absent_stays :
    (u : Input) (p : Pool) (i : ℕ) (pc : WorkerPc)
    → is_absent pc ≡ true
    → (worker_step u p i pc).1 ≡ pc
unfolding worker_step
absent_stays u p i absent e = refl
absent_stays u p i pc e = absurd (ground (arith, e))

-- Worker `i` moves: it was in the map.
pub moves-all_left :
    (threads : List ℕ) {s : System} (u : Input) (i : ℕ)
    → Lasting threads s
    → AllAsked s
    → (worker_step u s.pool i (s.worker i)).1 ≢ s.worker i
    → all_left threads (step_worker u s i) < all_left threads s
moves-all_left threads {s} u i v a moved =
    let here : has threads i ≡ true = elim (Bool-cases (has threads i)) [
      | inl h ↦ h
      | inr h ↦
          absurd (moved (absent_stays u s.pool i (s.worker i) (ground (arith, v.present i, h))))
    ] in
    let less : left (worker_step u s.pool i (s.worker i)).1 < left (s.worker i) =
      elim (worker_step-left threads u s.pool i (s.worker i) v.life (v.stands i)
        (a i (ap (λ l. has l i) v.life.same ∙ here))) [
          | inl same ↦ absurd (moved same)
          | inr l ↦ l
        ] in
    total-less _ _ threads i
      (update_cases (λ j pc. left pc ≤ left (s.worker j)) s.worker i _ (omega (arith, less))
        (λ j ne. omega arith))
      (omega (arith, ap left (update-at s.worker i (worker_step u s.pool i (s.worker i)).1), less))
      (ground (arith, here))

-- Steps from `s` on, in which the workers move `moves` times.
pub data Run (s : System) : (moves : ℕ) → System → Type 0 where
  begins : Run s 0 s
  moves :
      {m : ℕ} {t : System}
      → Run s m t
      → (u : Input) (i : ℕ) → needs_guard (t.worker i) && holds_guard t.monitor ≡ false
      → (worker_step u t.pool i (t.worker i)).1 ≢ t.worker i
      → Run s (suc m) (step_worker u t i)
  others :
      {m : ℕ} {t u : System}
      → Run s m t
      → Step t u
      → ((i : ℕ) → u.worker i ≡ t.worker i)
      → Run s m u

-- What holds after `m` moves.
pub record After (threads : List ℕ) (s : System) (m : ℕ) (t : System) : Type 0 where
  pub lasting : Lasting threads t
  pub asked : AllAsked t
  pub marked : Marked threads t.pool t.worker
  pub bounded : m + all_left threads t ≤ all_left threads s
  pub reached : Steps s t

pub Run-After :
    (threads : List ℕ) {s : System} {m : ℕ} {t : System}
    → count 0 threads ≡ 0
    → Lasting threads s
    → AllAsked s
    → Marked threads s.pool s.worker
    → Run s m t
    → After threads s m t
Run-After threads z v a k begins = record {
  lasting = v;
  asked = a;
  marked = k;
  bounded = omega arith;
  reached = here;
}
Run-After threads {s} z v a k (moves {m} {t} r u i free moved) =
    let b = Run-After threads z v a k r in
    let st : Step t (step_worker u t i) = works u i free in
    let v' = Step-Lasting threads z st b.lasting in
    record {
      lasting = v';
      asked = Step-AllAsked threads z st b.lasting v' b.asked;
      marked = Step-Marked threads z st b.lasting b.marked;
      bounded = omega (arith, b.bounded, moves-all_left threads u i b.lasting b.asked moved);
      reached = then_ b.reached st;
    }
Run-After threads {s} z v a k (others {m} {t} {u} r st same) =
    let b = Run-After threads z v a k r in
    let v' = Step-Lasting threads z st b.lasting in
    record {
      lasting = v';
      asked = Step-AllAsked threads z st b.lasting v' b.asked;
      marked = Step-Marked threads z st b.lasting b.marked;
      bounded = omega (
        arith,
        b.bounded,
        total-le (λ i. left (u.worker i)) (λ i. left (t.worker i)) threads
            (λ i. omega (arith, ap left (same i))),
      );
      reached = then_ b.reached st;
    }
