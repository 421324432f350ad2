-- ===== src/Closeable/Examples.antt =====
-- The theorems on closeable threads at concrete runs.
use empool.Base.{◌≡◌, refl, ◌⊎◌, inl, true, false, ℕ_discrete, update}
use empool.Closeable.{
  init, running, finished, is_finished, request_close, Work, returns, throws, born, notifying, lost,
  thread_step,
}
use empool.Closeable.System.{
  System, Step, advance, close, sleep, Steps, here, then_, start, asked, waiting, woken,
}
use empool.Closeable.Closing.{no_lost_close}

-- Thread 3 is in `Close` before the thread has begun.
abbrev closing : System
closing = record {
  thread = record { state = init; is_request_close = true };
  pc = born;
  finish_calls = 0;
  closer = update start.closer 3 asked;
}

closing-Steps : Steps start closing
unfolding request_close
closing-Steps = then_ here (close 3 false (inl refl))

-- It sleeps, the thread ends without having worked, and the notification is still to come.
abbrev closed : System
closed = record {
  thread = record { state = finished; is_request_close = true };
  pc = notifying;
  finish_calls = 1;
  closer = update closing.closer 3 waiting;
}

closing-closed : Steps closing closed
unfolding thread_step ℕ_discrete
closing-closed =
    then_
      (then_
        (then_ (then_ (then_ here (sleep 3 (inl refl) refl)) (advance returns)) (advance returns))
        (advance returns))
      (advance returns)

closed-Steps : Steps start closed
unfolding thread_step request_close ℕ_discrete
closed-Steps =
    then_
      (then_
        (then_ (then_ (then_ closing-Steps (sleep 3 (inl refl) refl)) (advance returns))
          (advance returns))
        (advance returns))
      (advance returns)

no_lost_close_example :
    (is_finished closed.thread.state ≡ false)
    ⊎ ((closed.pc ≡ notifying) × ((w : Work) → (t : System) × Step closed t × (t.closer 3 ≡ woken)))
unfolding ℕ_discrete
no_lost_close_example = no_lost_close closed-Steps 3 refl

-- The work function throws; then thread 3 calls `Close` and sleeps.
abbrev crashed : System
crashed = record {
  thread = record { state = running; is_request_close = true };
  pc = lost;
  finish_calls = 0;
  closer = update (update start.closer 3 asked) 3 waiting;
}

crashed-Steps : Steps start crashed
unfolding thread_step request_close ℕ_discrete
crashed-Steps =
    then_
      (then_ (then_ (then_ (then_ here (advance returns)) (advance returns)) (advance throws))
        (close 3 false (inl refl)))
      (sleep 3 (inl refl) refl)

-- An exchange that fails for no reason makes no request.
close_request_lost :
    (request_close true (record { state = running; is_request_close = false })).1 ≡ false
unfolding request_close
close_request_lost = refl
