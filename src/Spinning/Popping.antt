-- ===== src/Spinning/Popping.antt =====
-- How `Pop` of src/NoBlockingTaskQueue.cpp ends.
use mathlib.Core.List.{append_assoc, append-nil}
use empool.Base.{
  ℕ, zero, suc, ◌+◌, ◌≤◌, ◌<◌, ◌≡◌, refl, sym, ◌∙◌, ap, subst, true, Option, some, List, [], ◌∷◌,
  ◌++◌, arith,
}
use empool.Spinning.{
  LockfreeQueue, Popped, checked, new_queue, push_task, push_tasks, pop_task, or_again,
}

module _ (lib : LockfreeQueue) where
  open lib use {
    Queue, contents, reserve, push, pop, reserve-contents, push-contents, pop-nil, pop-cons,
  }

  -- A node can be had for each object.
  abbrev pub Accepts : Type 0
  Accepts = (q : Queue) (x : ℕ) → (push q x).1 ≡ true

  contents-push_tasks :
      Accepts → (q : Queue) (xs : List ℕ) → contents (push_tasks lib q xs) ≡ contents q ++ xs
  unfolding push_tasks
  contents-push_tasks ok q [] = sym (append-nil (contents q))
  contents-push_tasks ok q (x ∷ xs) =
      contents-push_tasks ok (push_task lib q x) xs
      ∙ ap (λ l. l ++ xs) (push-contents q x (ok q x))
      ∙ append_assoc (contents q) (x ∷ []) xs

  -- The queue is empty, and this is pushed before the next attempt.
  next_contents :
      Accepts
      → (q : Queue) (xs ys : List ℕ) → contents q ≡ []
      → xs ≡ ys
      → contents (push_tasks lib q xs) ≡ ys
  next_contents ok q xs ys e f = contents-push_tasks ok q xs ∙ ap (λ l. l ++ xs) e ∙ f

  abbrev pub Answers : Queue × Option Popped → ℕ → List ℕ → Type 0
  Answers r x xs = (r.1 ≡ some (checked x)) × (contents r.0 ≡ xs)

  pop_from :
      Accepts
      → (fuel n k : ℕ) (others : ℕ → List ℕ) (q : Queue) (x : ℕ) (xs : List ℕ) → contents q ≡ []
      → ((m : ℕ) → k ≤ m → m < k + n → others m ≡ [])
      → others (k + n) ≡ x ∷ xs
      → n < fuel
      → Answers (pop_task lib fuel others k q) x xs
  unfolding pop_task
  pop_from ok zero n k others q x xs e quiet first enough = absurd (omega arith)
  pop_from ok (suc fuel) zero k others q x xs e quiet first enough =
      let now = next_contents ok q (others k) (x ∷ xs) e (ap others (omega arith) ∙ first) in
      let got = pop-cons (push_tasks lib q (others k)) x xs now in
      subst
        (λ o.
          Answers
            (or_again lib (pop (push_tasks lib q (others k))).0 o
              (pop_task lib fuel others (suc k) (pop (push_tasks lib q (others k))).0))
            x xs)
        (sym got.0) (refl, got.1)
  pop_from ok (suc fuel) (suc n) k others q x xs e quiet first enough =
      let now = next_contents ok q (others k) [] e (quiet k (omega arith) (omega arith)) in
      let nothing = pop-nil (push_tasks lib q (others k)) now in
      let later =
        pop_from ok fuel n (suc k) others (pop (push_tasks lib q (others k))).0 x xs nothing.1
          (λ m ge lt. quiet m (omega arith) (omega arith)) (ap others (omega arith) ∙ first)
          (omega arith) in
      subst
        (λ o.
          Answers
            (or_again lib (pop (push_tasks lib q (others k))).0 o
              (pop_task lib fuel others (suc k) (pop (push_tasks lib q (others k))).0))
            x xs)
        (sym nothing.0) later

  -- A reader of a new queue spins until somebody pushes, and returns what was pushed first: let a
  -- node be had for each object, the other threads push nothing before the first `n` attempts of
  -- `Pop`, and `x` and then `xs` before the next. Then `Pop` returns at that attempt with `x`, or
  -- fails by its assertion if `x` is the null pointer, and leaves `xs` in the queue.
  pub pop_returns :
      Accepts
      → (n fuel : ℕ) (others : ℕ → List ℕ) (x : ℕ) (xs : List ℕ) → ((m : ℕ) → m < n → others m ≡ [])
      → others n ≡ x ∷ xs
      → n < fuel
      → Answers (pop_task lib fuel others 0 (new_queue lib)) x xs
  pop_returns ok n fuel others x xs quiet first enough =
      pop_from ok fuel n 0 others (new_queue lib) x xs (reserve-contents 1024)
        (λ m ge lt. quiet m (omega arith)) (ap others (omega arith) ∙ first) enough
