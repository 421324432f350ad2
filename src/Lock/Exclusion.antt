-- ===== src/Lock/Exclusion.antt =====
-- Who has the mutex.
use empool.Base.{
  ◌⊎◌, refl, List, Bool-cases, ◌≢◌, inl, inr, ℕ, ◌≡◌, refl, Bool, true, false, some, arith,
  update_elim,
}
use empool.Lock.{Notice, no_notice, one_notice, all_notice, Section}
use empool.Lock.System.{
  Pc, outside, locking, testing, asleep, expired, running, System, wake, notify, Step, enters,
  locks, tests, moves, unlocks, stirs, expires, gives_up, Steps, here, then_, start,
}

module _ {ℓ} {C S : Type ℓ} where
  -- Past `Lock` and not in `Wait`.
  abbrev pub is_inside : Pc C S → Bool
  is_inside (testing c) = true
  is_inside (running fs) = true
  is_inside p = false

  -- A thread that is inside owns the mutex.
  abbrev pub Owned : System C S → Type 0
  Owned s = (i : ℕ) → is_inside (s.pc i) ≡ true → s.owner ≡ some i

  -- The owner is inside.
  abbrev OwnerInside : System C S → Type 0
  OwnerInside s = (i : ℕ) → s.owner ≡ some i → is_inside (s.pc i) ≡ true

  pub inside-cases :
      (p : Pc C S)
      → is_inside p ≡ true
      → ((c : C) × (p ≡ testing c)) ⊎ ((fs : List (S → S)) × (p ≡ running fs))
  inside-cases (testing c) h = inl (c, refl)
  inside-cases (running fs) h = inr (fs, refl)
  inside-cases outside h = absurd (ground (arith, h))
  inside-cases (locking c) h = absurd (ground (arith, h))
  inside-cases (asleep c) h = absurd (ground (arith, h))
  inside-cases (expired c) h = absurd (ground (arith, h))

  wake-inside : (p : Pc C S) → is_inside (wake p) ≡ is_inside p
  wake-inside outside = refl
  wake-inside (locking c) = refl
  wake-inside (testing c) = refl
  wake-inside (asleep c) = refl
  wake-inside (expired c) = refl
  wake-inside (running fs) = refl

  pub notify-inside :
      (n : Notice) (j : ℕ) (pc : ℕ → Pc C S) (i : ℕ)
      → is_inside (notify n j pc i) ≡ is_inside (pc i)
  notify-inside no_notice j pc i = refl
  notify-inside one_notice j pc i =
      update_elim (λ k p. is_inside p ≡ is_inside (pc k)) pc j (wake (pc j)) (wake-inside (pc j))
        (λ k. refl) i
  notify-inside all_notice j pc i = wake-inside (pc i)

module _ {ℓ} {C S : Type ℓ} {code : C → Section S} where
  Step-Owned : {s t : System C S} → Step code s t → Owned s → Owned t
  Step-Owned (enters i c e) h k into = ground (arith, h k)
  Step-Owned (locks i c e free) h k into = ground (arith, h k)
  Step-Owned {s} (tests i j c e) h k into =
      ground (arith, h k, h i, notify-inside ((code c).notice s.shared) j s.pc k)
  Step-Owned (moves i f fs e) h k into = ground (arith, h k)
  Step-Owned (unlocks i e) h k into = ground (arith, h k, h i)
  Step-Owned (stirs i c e) h k into = ground (arith, h k)
  Step-Owned (expires i c e timed) h k into = ground (arith, h k)
  Step-Owned (gives_up i c e free) h k into = ground (arith, h k)

  pub Steps-Owned : {shared : S} {s : System C S} → Steps code (start shared) s → Owned s
  Steps-Owned here i into = absurd (ground arith)
  Steps-Owned (then_ r st) i into = Step-Owned st (Steps-Owned r) i into

  Step-OwnerInside : {s t : System C S} → Step code s t → OwnerInside s → OwnerInside t
  Step-OwnerInside (enters i c e) h k mine = ground (arith, h k)
  Step-OwnerInside (locks i c e free) h k mine = ground (arith, h k)
  Step-OwnerInside {s} (tests i j c e) h k mine =
      ground (arith, h k, notify-inside ((code c).notice s.shared) j s.pc k)
  Step-OwnerInside (moves i f fs e) h k mine = ground (arith, h k)
  Step-OwnerInside (unlocks i e) h k mine = ground (arith, h k)
  Step-OwnerInside (stirs i c e) h k mine = ground (arith, h k)
  Step-OwnerInside (expires i c e timed) h k mine = ground (arith, h k)
  Step-OwnerInside (gives_up i c e free) h k mine = ground (arith, h k)

  pub Steps-OwnerInside :
      {shared : S} {s : System C S} → Steps code (start shared) s → OwnerInside s
  Steps-OwnerInside here i mine = absurd (ground arith)
  Steps-OwnerInside (then_ r st) i mine = Step-OwnerInside st (Steps-OwnerInside r) i mine

  pub mutual_exclusion :
      {shared : S} {s : System C S}
      → Steps code (start shared) s
      → (i j : ℕ) → i ≢ j
      → is_inside (s.pc i) ≡ true
      → is_inside (s.pc j) ≡ false
  mutual_exclusion {s} r i j ne p = elim (Bool-cases (is_inside (s.pc j))) [
    | inl q ↦ absurd (ground (arith, Steps-Owned r i p, Steps-Owned r j q))
    | inr q ↦ q
  ]
