-- ===== src/Scaling/EndingExamples.antt =====
-- The end of a fixed pool at a concrete run.
use empool.Base.{ℕ, zero, suc, ◌*◌, ◌≤◌, ◌≡◌, refl, true, false, [], ◌∷◌, arith, update, ℕ_discrete}
use empool.Closeable.{request_close}
use empool.Scaling.{close_all, insert_all, new_pool, new_fixed_pool, has, is_shut_down, shut_step}
use empool.Scaling.Worker.{Input, counted, worker_step}
use empool.Scaling.System.{System, step_worker, shuts, Steps, here, then_, start}
use empool.Scaling.Leaving.{after_loops}
use empool.Scaling.Moving.{Run, begins, moves}
use empool.Scaling.Ending.{GoesOn, fixed_pool_ends}

-- Thread 4 has come to the loops of `ShutDown`.
abbrev shuts_on : ℕ → System → System
shuts_on zero s = s
shuts_on (suc n) s = record (shuts_on n s) {
  pool = (shut_step (λ _. false) (shuts_on n s).pool ((shuts_on n s).shut 4)).0;
  shut =
      update (shuts_on n s).shut 4
        (shut_step (λ _. false) (shuts_on n s).pool ((shuts_on n s).shut 4)).1;
}

abbrev one : System
one = start 1 1 (7 ∷ [])

abbrev in_shut_down : System
in_shut_down = shuts_on 2 one

in_shut_down-Steps : Steps one in_shut_down
unfolding new_pool ℕ_discrete shut_step
in_shut_down-Steps = then_ (then_ here (shuts (λ _. false) 4 refl)) (shuts (λ _. false) 4 refl)

abbrev goes_on : Input
goes_on = record { expires = false; escapes = false; fails = false }

-- Its worker ends after them.
abbrev ended : ℕ → System
ended zero = after_loops in_shut_down 4
ended (suc n) = step_worker goes_on (ended n) 7

ended-Run : Run (after_loops in_shut_down 4) 4 (ended 4)
unfolding worker_step new_pool ℕ_discrete shut_step close_all request_close insert_all
ended-Run =
    moves
      (moves (moves (moves begins goes_on 7 refl (λ e. cc e)) goes_on 7 refl (λ e. cc e)) goes_on 7
        refl (λ e. cc e))
      goes_on 7 refl (λ e. cc e)

fixed_pool_ends_example :
    ((ended 4).pool.threads ≡ (new_fixed_pool 1 (7 ∷ [])).threads)
    × (4 ≤ 6 * 1)
    × ((i : ℕ) → has (ended 4).pool.threads i ≡ true → GoesOn (ended 4) i)
    × (((i : ℕ) → has (ended 4).pool.threads i ≡ true → (ended 4).worker i ≡ counted)
        → is_shut_down (ended 4).pool.state ≡ true)
unfolding new_pool shut_step ℕ_discrete
fixed_pool_ends_example =
    fixed_pool_ends 1 (7 ∷ []) 4 refl refl (omega arith) in_shut_down-Steps refl refl ended-Run
