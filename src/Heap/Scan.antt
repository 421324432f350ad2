-- ===== src/Heap/Scan.antt =====
-- A `std::pop_heap` that takes the first of the best elements.
use empool.Base.{
  ℕ, ◌+◌, ◌<◌, ◌≡◌, refl, Bool, false, List, [], ◌∷◌, arith, one_if, length, ◌==◌, if◌then◌else◌,
}
use empool.Heap.{count, IsStrictWeak, PopHeap}

scan : (ℕ → ℕ → Bool) → ℕ → List ℕ → ℕ × List ℕ
scan comp a [] = (a, [])
scan comp a (b ∷ bs) =
    let (t, rest) = scan comp b bs in if comp a t then (t, a ∷ rest) else (a, t ∷ rest)

scan-count :
    (comp : ℕ → ℕ → Bool) (a : ℕ) (cs : List ℕ) (x : ℕ)
    → one_if (x == (scan comp a cs).0) + count x (scan comp a cs).1 ≡ count x (a ∷ cs)
unfolding scan
scan-count comp a [] x = refl
scan-count comp a (b ∷ bs) x = ground (arith, scan-count comp b bs x)

scan-length : (comp : ℕ → ℕ → Bool) (a : ℕ) (cs : List ℕ) → length (scan comp a cs).1 ≡ length cs
unfolding scan
scan-length comp a [] = refl
scan-length comp a (b ∷ bs) = ground (arith, scan-length comp b bs)

scan-max :
    (comp : ℕ → ℕ → Bool) (a : ℕ) (cs : List ℕ) (x : ℕ)
    → IsStrictWeak comp
    → 0 < count x (scan comp a cs).1
    → comp (scan comp a cs).0 x ≡ false
unfolding scan
scan-max comp a [] x w p = absurd (omega arith)
scan-max comp a (b ∷ bs) x w p = ground (
  arith,
  scan-max comp b bs x w,
  w.irreflexive a,
  w.transitive a (scan comp b bs).0 a,
  w.incomparable a (scan comp b bs).0 x,
)

unfoldable pub scanning : PopHeap
unfolding scan scan-count scan-length scan-max
scanning = record {
  select = scan;
  select-count = scan-count;
  select-length = scan-length;
  select-max = scan-max;
}
