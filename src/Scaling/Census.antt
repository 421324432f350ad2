-- ===== src/Scaling/Census.antt =====
-- How many ids of the map pass a test, and what adding and erasing ids does to that number.
use empool.Base.{
  ℕ, ◌+◌, ◌≤◌, ◌<◌, ◌≡◌, refl, Bool, true, false, List, [], ◌∷◌, ◌++◌, arith, one_if, length,
  ℕ_discrete, ap, subst, sym,
}
use empool.Heap.{count}
use empool.Scaling.{erase}

unfoldable pub census : (ℕ → Bool) → List ℕ → ℕ
census p [] = 0
census p (x ∷ xs) = one_if (p x) + census p xs

pub census-le : (p : ℕ → Bool) (xs : List ℕ) → census p xs ≤ length xs
unfolding census
census-le p [] = omega arith
census-le p (x ∷ xs) = ground (arith, census-le p xs)

pub census-congr :
    (p q : ℕ → Bool) (xs : List ℕ)
    → ((i : ℕ) → 0 < count i xs → p i ≡ q i)
    → census p xs ≡ census q xs
unfolding census
census-congr p q [] h = refl
census-congr p q (x ∷ xs) h =
    ground (arith, census-congr p q xs (λ i c. h i (omega arith)), h x (ground arith))

-- Tests that agree but at one id, which occurs once.
pub census_change :
    (p q : ℕ → Bool) (i : ℕ) (xs : List ℕ)
    → ((j : ℕ) → ¬ (i ≡ j) → p j ≡ q j)
    → count i xs ≡ 1
    → census p xs + one_if (q i) ≡ census q xs + one_if (p i)
unfolding census
census_change p q i [] h e = absurd (omega arith)
census_change p q i (x ∷ xs) h e = elim (ℕ_discrete i x) [
  | yes same ↦ ground (arith, census-congr p q xs (λ j c. h j (apart same j c)))
  | no other ↦ ground (arith, census_change p q i xs h, h x other)
]
  where
    apart : i ≡ x → (j : ℕ) → 0 < count j xs → ¬ (i ≡ j)
    apart same j c r = absurd (ground (arith, ap (λ z. count z xs) r))

-- Where all pass, each does.
pub census_full :
    (p : ℕ → Bool) (xs : List ℕ) → length xs ≤ census p xs → (i : ℕ) → 0 < count i xs → p i ≡ true
unfolding census
census_full p [] h i c = absurd (omega arith)
census_full p (x ∷ xs) h i c = elim (ℕ_discrete i x) [
  | yes same ↦ subst (λ z. p z ≡ true) (sym same) (ground (arith, census-le p xs))
  | no other ↦ census_full p xs (ground (arith, census-le p xs)) i (ground arith)
]

pub census-erase :
    (p : ℕ → Bool) (xs : List ℕ) (i : ℕ) → p i ≡ false → census p (erase xs i) ≡ census p xs
unfolding census erase
census-erase p [] i h = refl
census-erase p (x ∷ xs) i h = elim (ℕ_discrete i x) [
  | yes same ↦ ground (arith, ap p same)
  | no other ↦ ground (arith, census-erase p xs i h)
]

pub count-erase-other : (xs : List ℕ) (i j : ℕ) → ¬ (i ≡ j) → count j (erase xs i) ≡ count j xs
unfolding erase
count-erase-other [] i j h = refl
count-erase-other (x ∷ xs) i j h = ground (arith, count-erase-other xs i j h)

pub count-erase : (xs : List ℕ) (i j : ℕ) → count j (erase xs i) ≤ count j xs
unfolding erase
count-erase [] i j = omega arith
count-erase (x ∷ xs) i j = ground (arith, count-erase xs i j)

-- An id that occurs once at most is gone.
pub count-erase-same : (xs : List ℕ) (i : ℕ) → count i xs ≤ 1 → count i (erase xs i) ≡ 0
unfolding erase
count-erase-same [] i h = refl
count-erase-same (x ∷ xs) i h = ground (arith, count-erase-same xs i)

pub length-erase : (xs : List ℕ) (i : ℕ) → length (erase xs i) ≤ length xs
unfolding erase
length-erase [] i = omega arith
length-erase (x ∷ xs) i = ground (arith, length-erase xs i)

pub count-append : (xs ys : List ℕ) (i : ℕ) → count i (xs ++ ys) ≡ count i xs + count i ys
count-append [] ys i = omega arith
count-append (x ∷ xs) ys i = ground (arith, count-append xs ys i)

pub census-none : (p : ℕ → Bool) (xs : List ℕ) → ((i : ℕ) → p i ≡ false) → census p xs ≡ 0
unfolding census
census-none p [] h = refl
census-none p (x ∷ xs) h = ground (arith, census-none p xs h, h x)
