-- ===== src/Future/Examples.antt =====
-- The theorems on results at concrete runs.
use empool.Base.{arith, ℕ, ◌≡◌, refl, true, false, Option, none, some, [], ◌∷◌, update, ℕ_discrete}
use empool.Lock.System.{
  Pc, outside, locking, testing, asleep, running, wake, System, Steps, here, then_, enters, locks,
  tests, moves, unlocks, start,
}
use empool.Lock.Refinement.{abs}
use empool.Future.{
  Call, get_result, do_run, value, Future, new_future, set_result, set_returned, code, do_run_body,
  value,
}
use empool.Future.Result.{AllGenuine}
use empool.Future.Waiting.{results_reach_callers, result_roundtrip}

abbrev State : Type 0
State = System (Call ℕ) (Future ℕ)

-- Thread `i` moves to `p`, and leaves this task and this owner.
abbrev next : State → ℕ → Pc (Call ℕ) (Future ℕ) → Future ℕ → Option ℕ → State
next s i p f owner = record { shared = f; owner = owner; pc = update s.pc i p }

-- Thread 1 waits for the result.
abbrev one_waits : State
one_waits =
    next
      (next (next (start (new_future 0)) 1 (locking (get_result 1)) (new_future 0) none) 1
        (testing (get_result 1)) (new_future 0) (some 1))
      1 (asleep (get_result 1)) (new_future 0) none

one_waits-Steps : Steps code (start (new_future 0)) one_waits
unfolding ℕ_discrete
one_waits-Steps =
    then_ (then_ (then_ here (enters 1 (get_result 1) refl)) (locks 1 (get_result 1) refl refl))
      (tests 1 1 (get_result 1) refl)

-- Thread 0 runs the task, whose `Call()` gives 7, and wakes thread 1.
abbrev computed : Future ℕ
computed = record { result = 7; is_result_returned = true; computed = 7 ∷ []; answers = [] }

-- Thread 0 comes to run the task, and then has run it and woken thread 1.
abbrev to_run : State
to_run = next one_waits 0 (locking (do_run (some 7))) (new_future 0) none

to_run-Steps : Steps code (start (new_future 0)) to_run
unfolding ℕ_discrete
to_run-Steps = then_ one_waits-Steps (enters 0 (do_run (some 7)) refl)

abbrev testing_0 : State
testing_0 = next to_run 0 (testing (do_run (some 7))) (new_future 0) (some 0)

abbrev woken : State
woken =
    next
      (next
        (next
          (record testing_0 {
            pc = update (λ i. wake (testing_0.pc i)) 0 (running (do_run_body (some 7)));
          })
          0 (running (set_returned ∷ [])) (set_result 7 (new_future 0)) (some 0))
        0 (running []) computed (some 0))
      0 outside computed none

woken-Steps : Steps code (start (new_future 0)) woken
unfolding ℕ_discrete
woken-Steps =
    then_
      (then_
        (then_
          (then_ (then_ to_run-Steps (locks 0 (do_run (some 7)) refl refl))
            (tests 0 0 (do_run (some 7)) refl))
          (moves 0 (set_result 7) (set_returned ∷ []) refl))
        (moves 0 set_returned [] refl))
      (unlocks 0 refl)

results_reach_callers_example :
    AllGenuine (abs woken).shared
    × ((i : ℕ) (c : Call ℕ)
        → woken.pc i ≡ asleep c
        → woken.owner ≡ none
        → woken.shared.is_result_returned ≡ false)
results_reach_callers_example = results_reach_callers woken-Steps

result_roundtrip_example :
    (t : State) × Steps code to_run t
    × (t.pc 1 ≡ outside)
    × (t.owner ≡ none)
    × (t.shared.answers ≡ (1, value 7) ∷ [])
unfolding ℕ_discrete
result_roundtrip_example =
    result_roundtrip to_run-Steps 0 1 1 7 (λ e. absurd (omega (arith, e))) refl refl refl
