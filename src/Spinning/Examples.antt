-- ===== src/Spinning/Examples.antt =====
-- A list as the lock-free queue, and a reader that spins.
use empool.Base.{
  false, ℕ, zero, suc, ◌≡◌, refl, true, Option, none, some, List, [], ◌∷◌, ◌++◌, ◌<◌, arith, ap,
}
use empool.Spinning.{LockfreeQueue, new_queue, pop_task}
use empool.Spinning.Popping.{Answers, pop_returns}

abbrev pop_list : List ℕ → List ℕ × Option ℕ
pop_list [] = ([], none)
pop_list (x ∷ xs) = (xs, some x)

never_fails : (q : List ℕ) (x : ℕ) → true ≡ false → q ++ x ∷ [] ≡ q
never_fails q x failed = absurd (ground (arith, failed))

abbrev listed : LockfreeQueue
listed = record {
  Queue = List ℕ;
  contents = λ q. q;
  reserve = λ n. [];
  push = λ q x. (q ++ x ∷ [], true);
  pop = pop_list;
  reserve-contents = λ n. refl;
  push-contents = λ q x ok. refl;
  push_failed-contents = λ q x failed. never_fails q x failed;
  pop-nil = λ q e. (ap (λ q. (pop_list q).1) e, ap (λ q. (pop_list q).0) e);
  pop-cons = λ q x rest e. (ap (λ q. (pop_list q).1) e, ap (λ q. (pop_list q).0) e);
}

-- Before the third attempt others push 7 and 8.
abbrev others : ℕ → List ℕ
others zero = []
others (suc zero) = []
others (suc (suc zero)) = 7 ∷ 8 ∷ []
others (suc (suc (suc k))) = []

pop_returns_example : Answers listed (pop_task listed 5 others 0 (new_queue listed)) 7 (8 ∷ [])
pop_returns_example =
    pop_returns listed (λ q x. refl) 2 5 others 7 (8 ∷ []) none_before refl (omega arith)
  where
    none_before : (m : ℕ) → m < 2 → others m ≡ []
    none_before zero lt = refl
    none_before (suc zero) lt = refl
    none_before (suc (suc m)) lt = absurd (omega arith)
