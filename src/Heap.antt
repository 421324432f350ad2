-- ===== src/Heap.antt =====
-- `std::priority_queue` over shared pointers, as the timers and the single pool use it. A pointer
-- is a number. Of the heap only its root shows: `push` lifts the new element to the root if it
-- orders above the old one, and `pop` drops the root without comparing it, and takes the next one
-- from the rest. Which one, where several are equal, the standard leaves open: `PopHeap` is any
-- `std::pop_heap` that does what is documented.
pub mod Least
pub mod Scan
use empool.Base.{
  ℕ, ◌+◌, ◌<◌, ◌≡◌, Bool, true, false, Option, none, some, List, [], ◌∷◌, ◌==◌, one_if, length,
  if◌then◌else◌,
}

-- How often an element occurs.
abbrev pub count : ℕ → List ℕ → ℕ
count x [] = 0
count x (y ∷ ys) = one_if (x == y) + count x ys

-- What the standard asks of a comparison.
pub record IsStrictWeak (comp : ℕ → ℕ → Bool) : Type 0 where
  pub irreflexive : (a : ℕ) → comp a a ≡ false
  pub transitive : (a b c : ℕ) → comp a b ≡ true → comp b c ≡ true → comp a c ≡ true
  pub incomparable : (a b c : ℕ) → comp a b ≡ false → comp b c ≡ false → comp a c ≡ false

-- `select comp a cs` is the next root of the elements `a ∷ cs`, and what is left of them: the same
-- elements, none of which the comparison puts above the root.
pub record PopHeap : Type 0 where
  pub select : (ℕ → ℕ → Bool) → ℕ → List ℕ → ℕ × List ℕ
  pub select-count :
      (comp : ℕ → ℕ → Bool) (a : ℕ) (cs : List ℕ) (x : ℕ)
      → one_if (x == (select comp a cs).0) + count x (select comp a cs).1 ≡ count x (a ∷ cs)
  pub select-length :
      (comp : ℕ → ℕ → Bool) (a : ℕ) (cs : List ℕ) → length (select comp a cs).1 ≡ length cs
  pub select-max :
      (comp : ℕ → ℕ → Bool) (a : ℕ) (cs : List ℕ) (x : ℕ)
      → IsStrictWeak comp
      → 0 < count x (select comp a cs).1
      → comp (select comp a cs).0 x ≡ false

pub data PriorityQueue : Type 0 where
  empty : PriorityQueue
  heap : (root : ℕ) → (rest : List ℕ) → PriorityQueue

abbrev pub contents : PriorityQueue → List ℕ
contents empty = []
contents (heap t rest) = t ∷ rest

abbrev pub is_empty : PriorityQueue → Bool
is_empty empty = true
is_empty (heap t rest) = false

-- `top`, `none` where it is undefined.
abbrev pub top : PriorityQueue → Option ℕ
top empty = none
top (heap t rest) = some t

unfoldable pub push : (ℕ → ℕ → Bool) → PriorityQueue → ℕ → PriorityQueue
push comp empty x = heap x []
push comp (heap t rest) x = if comp t x then heap x (t ∷ rest) else heap t (x ∷ rest)

-- `pop`, which does nothing where it is undefined.
unfoldable pub pop : PopHeap → (ℕ → ℕ → Bool) → PriorityQueue → PriorityQueue
pop lib comp empty = empty
pop lib comp (heap t []) = empty
pop lib comp (heap t (a ∷ cs)) = heap (lib.select comp a cs).0 (lib.select comp a cs).1
