-- ===== src/Lock/Examples.antt =====
-- Two threads that set both halves of a pair, one after the other.
use empool.Base.{◌≢◌, true, false, ℕ, ◌≡◌, refl, some, none, [], ◌∷◌, update, ℕ_discrete, Option}
use empool.Lock.{Section, mutex_locker}
use empool.Lock.System.{
  Pc, testing, locking, outside, running, System, enters, locks, tests, moves, unlocks, Steps, here,
  then_, start,
}
use empool.Lock.Atomic
use empool.Lock.Exclusion.{is_inside}
use empool.Lock.Progress.{exclusive_and_freed}
use empool.Lock.Refinement.{abs, refines_atomic}
use empool.Lock.Between.{seen_between}

abbrev set_first : ℕ → ℕ × ℕ → ℕ × ℕ
set_first v p = (v, p.1)

abbrev set_second : ℕ → ℕ × ℕ → ℕ × ℕ
set_second v p = (p.0, v)

abbrev set_both : ℕ → Section (ℕ × ℕ)
set_both v = mutex_locker (set_first v ∷ set_second v ∷ [])

abbrev State : Type 0
State = System ℕ (ℕ × ℕ)

-- Thread `i` moves to `p`, and leaves these halves and this owner.
abbrev next : State → ℕ → Pc ℕ (ℕ × ℕ) → ℕ × ℕ → Option ℕ → State
next s i p halves owner = record { shared = halves; owner = owner; pc = update s.pc i p }

abbrev entered : State
entered = next (start (0, 0)) 0 (locking 7) (0, 0) none

entered-Steps : Steps set_both (start (0, 0)) entered
entered-Steps = then_ here (enters 0 7 refl)

-- Thread 0 has set the first half when thread 1 comes to `Lock`.
abbrev half_done : State
half_done =
    next
      (next
        (next (next entered 0 (testing 7) (0, 0) (some 0)) 0 (running (set_both 7).body) (0, 0)
          (some 0))
        0 (running (set_second 7 ∷ [])) (7, 0) (some 0))
      1 (locking 8) (7, 0) (some 0)

half_done-Steps : Steps set_both (start (0, 0)) half_done
unfolding ℕ_discrete
half_done-Steps =
    then_
      (then_ (then_ (then_ entered-Steps (locks 0 7 refl refl)) (tests 0 0 7 refl))
        (moves 0 (set_first 7) (set_second 7 ∷ []) refl))
      (enters 1 8 refl)

exclusive_and_freed_example :
    ((i j : ℕ) → i ≢ j → is_inside (half_done.pc i) ≡ true → is_inside (half_done.pc j) ≡ false)
    × ((t : State) × Steps set_both half_done t × (t.owner ≡ none))
exclusive_and_freed_example = exclusive_and_freed half_done-Steps

refines_atomic_example : Atomic.Steps set_both (abs (start (0, 0))) (abs half_done)
refines_atomic_example = refines_atomic half_done-Steps

-- Thread 0 is through, and thread 1 has the mutex.
abbrev handed_over : State
handed_over =
    next (next (next half_done 0 (running []) (7, 7) (some 0)) 0 outside (7, 7) none) 1 (testing 8)
      (7, 7) (some 1)

handed_over-Steps : Steps set_both (start (0, 0)) handed_over
unfolding ℕ_discrete
handed_over-Steps =
    then_ (then_ (then_ half_done-Steps (moves 0 (set_second 7) [] refl)) (unlocks 0 refl))
      (locks 1 8 refl refl)

-- A thread never sees halves that differ, although they do in `half_done`.
abbrev AreEqual : ℕ × ℕ → Type 0
AreEqual p = p.0 ≡ p.1

seen_between_example :
    (handed_over.owner ≡ none → AreEqual handed_over.shared)
    × ((i c : ℕ) → handed_over.pc i ≡ testing c → AreEqual handed_over.shared)
seen_between_example = seen_between AreEqual (λ c x v. ((λ _. refl), v)) refl handed_over-Steps
