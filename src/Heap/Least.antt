-- ===== src/Heap/Least.antt =====
-- A priority queue whose comparison is by a key, so that the least key is at the root.
use empool.Base.{
  ℕ, suc, length, ◌+◌, ◌≤◌, ◌<◌, ◌≡◌, refl, Bool, List, [], ◌∷◌, arith, ltb, one_if, ◌==◌,
  Bool-cases, inl, inr,
}
use empool.Heap.{count, IsStrictWeak, PopHeap, PriorityQueue, empty, heap, contents, push, pop}

abbrev pub by_key : (ℕ → ℕ) → ℕ → ℕ → Bool
by_key key a b = ltb (key b) (key a)

pub by_key-IsStrictWeak : (key : ℕ → ℕ) → IsStrictWeak (by_key key)
by_key-IsStrictWeak key = record {
  irreflexive = λ a. ground arith;
  transitive = λ a b c h k. ground arith;
  incomparable = λ a b c h k. ground arith;
}

-- The root has the least key.
abbrev pub IsLeast : (ℕ → ℕ) → PriorityQueue → Type 0
IsLeast key empty = Unit {0}
IsLeast key (heap t rest) = (x : ℕ) → 0 < count x rest → key t ≤ key x

-- Keys that agree on what is in the queue.
pub IsLeast-congr :
    (key key' : ℕ → ℕ) (q : PriorityQueue)
    → ((x : ℕ) → 0 < count x (contents q) → key' x ≡ key x)
    → IsLeast key q
    → IsLeast key' q
IsLeast-congr key key' empty e h = tt
IsLeast-congr key key' (heap t rest) e h = λ x p. ground (arith, h x p, e x, e t)

pub count-push :
    (comp : ℕ → ℕ → Bool) (q : PriorityQueue) (x y : ℕ)
    → count y (contents (push comp q x)) ≡ one_if (y == x) + count y (contents q)
unfolding push
count-push comp empty x y = ground arith
count-push comp (heap t rest) x y = ground arith

pub length-push :
    (comp : ℕ → ℕ → Bool) (q : PriorityQueue) (x : ℕ)
    → length (contents (push comp q x)) ≡ suc (length (contents q))
unfolding push
length-push comp empty x = refl
length-push comp (heap t rest) x = ground arith

pub push-IsLeast :
    (key : ℕ → ℕ) (q : PriorityQueue) (x : ℕ) → IsLeast key q → IsLeast key (push (by_key key) q x)
unfolding push
push-IsLeast key empty x h = λ y p. ground arith
push-IsLeast key (heap t rest) x h = elim (Bool-cases (by_key key t x)) [
  | inl above ↦ rw above (λ y p. ground (arith, h y))
  | inr below ↦ rw below (λ y p. ground (arith, h y))
]

pub count-pop :
    (lib : PopHeap) (comp : ℕ → ℕ → Bool) (t : ℕ) (rest : List ℕ) (y : ℕ)
    → count y (contents (pop lib comp (heap t rest))) ≡ count y rest
unfolding pop
count-pop lib comp t [] y = refl
count-pop lib comp t (a ∷ cs) y = lib.select-count comp a cs y

-- Nothing is asked of the root that is dropped, so its key may have changed.
pub pop-IsLeast :
    (lib : PopHeap) (key : ℕ → ℕ) (q : PriorityQueue) → IsLeast key (pop lib (by_key key) q)
unfolding pop
pop-IsLeast lib key empty = tt
pop-IsLeast lib key (heap t []) = tt
pop-IsLeast lib key (heap t (a ∷ cs)) =
    λ x p. ground (arith, lib.select-max (by_key key) a cs x (by_key-IsStrictWeak key) p)
