-- ===== src/Scheduled/Examples.antt =====
-- The theorems on the threads of a pool at concrete runs.
use empool.Base.{
  ℕ, ◌+◌, ◌*◌, ◌≤◌, ◌<◌, ◌≡◌, ◌⊎◌, refl, inl, true, false, Option, none, some, [], ◌∷◌, arith,
  one_if, ltb, length, update, ℕ_discrete,
}
use empool.Heap.{count}
use empool.Heap.Scan.{scanning}
use empool.Closeable.{finished}
use empool.Timer.{Store, new_timer_task}
use empool.Timer.Handler.{push_end, close_thread}
use empool.Timer.Racing.{Request, cron, AddPc, asking, returned, add_step}
use empool.Scheduled.{stop, shutdown, fetch_add}
use empool.Scheduled.Shutdown.{Closed}
use empool.Scheduled.System.{
  checked, adding, answered, stopping, at_handler_number, closing, joining, shut, System, handler,
  put, go_to, finishes, after_tests, Step, begins, draws, asks, stops, pushes_end, closes, joins,
  ends, turns, start, Reach, first, later,
}
use empool.Scheduled.Dealing.{dealt_in_turn}
use empool.Scheduled.Final.{shut_down_final}
use empool.Scheduled.Ending.{Call, enters, moves, others, Joins, CanMove, shut_down_ends}
use empool.Scheduled.Moves.{is_inside}

abbrev tasks : Store
tasks _ = new_timer_task false

-- Threads 5 and 6 are in calls at once, and each draws a handler, thread 6 first.
abbrev both_in : System
both_in = go_to (go_to (start 2 tasks) 5 (checked (cron 50) 1)) 6 (checked (cron 50) 2)

abbrev drawn : System
drawn = record both_in {
  pool = fetch_add (fetch_add both_in.pool);
  pc =
      update (update both_in.pc 6 (adding 100 (cron 50) 2 0 asking)) 5
        (adding 101 (cron 50) 1 1 asking);
  dealt = 1 ∷ 0 ∷ [];
}

drawn-Reach : Reach scanning true 2 tasks drawn
unfolding ℕ_discrete
drawn-Reach =
    later
      (later
        (later (later first (begins 5 (cron 50) (some 1) (inl refl)))
          (begins 6 (cron 50) (some 2) (inl refl)))
        (draws 6 100 (cron 50) 2 refl))
      (draws 5 101 (cron 50) 1 refl)

dealt_in_turn_example :
    ((q : ℕ) × (r : ℕ) × (r < 2)
      × (length drawn.dealt ≡ q * 2 + r)
      × ((i : ℕ) → i < 2 → count i drawn.dealt ≡ q + one_if (ltb i r)))
    × ((j now x i : ℕ) (req : Request) (p : AddPc) → drawn.pc j ≡ adding now req x i p → i < 2)
dealt_in_turn_example = dealt_in_turn (omega arith) drawn-Reach (omega arith)

-- Thread 3 runs `ShutDownNow` on a pool with one handler.
abbrev won : System
won = record (start 1 tasks) {
  pool = record ((start 1 tasks).pool) { is_request_shut_down = true; state = stop };
  pc = update (update (start 1 tasks).pc 3 (stopping true)) 3 (at_handler_number true 0);
}

abbrev pushed : System
pushed = go_to (put won 0 (push_end false (handler won 0) 9).0) 3 (closing true 0)

abbrev asked : System
asked = go_to (put pushed 0 (close_thread true false (handler pushed 0)).0) 3 (joining true 0)

abbrev ended : System
ended = put asked 0 (record (handler asked 0) {
  handler = record ((handler asked 0).handler) {
    thread = record ((handler asked 0).handler.thread) { state = finished };
  };
})

abbrev done : System
done = record ended {
  pool = record (ended.pool) { state = shutdown };
  pc = update (update ended.pc 3 (at_handler_number true 1)) 3 (shut true true);
}

done-Reach : Reach scanning false 1 tasks done
unfolding ℕ_discrete push_end close_thread
done-Reach =
    later
      (later
        (later
          (later
            (later (later (later first (asks 3 true false (inl refl) (λ e. e))) (stops 3 true refl))
              (pushes_end 3 true false 0 9 refl (omega arith) (λ e. e)))
            (closes 3 true false 0 refl (λ e. e)))
          (turns 0 finishes))
        (joins 3 true 0 refl refl))
      (ends 3 true 1 refl refl)

shut_down_final_example :
    ((i : ℕ) → i < 1 → Closed (done.pool.handlers i))
    × ((j : ℕ)
        → done.pc j ≡ shut true true
        → (i : ℕ) → i < 1
        → (done.pool.handlers i).thread.state ≡ finished)
    × ((req : Request) (task : Option ℕ) → after_tests done.pool req task ≡ answered none)
    × ((now x i : ℕ) (req : Request)
        → i < 1
        → add_step now req x (handler done i) asking ≡ (handler done i, returned false))
    × ((t : System) → Step scanning false done t → t.pool.state ≡ shutdown)
shut_down_final_example = shut_down_final done-Reach refl

-- The same call from the state after its exchange on.
abbrev entered : System
entered = record (start 1 tasks) {
  pool = record ((start 1 tasks).pool) { is_request_shut_down = true };
  pc = update (start 1 tasks).pc 3 (stopping true);
}

done-Call : Call scanning true 3 entered 5 done
unfolding ℕ_discrete push_end close_thread
done-Call =
    moves
      (moves
        (others
          (moves
            (moves (moves enters refl (stops 3 true refl) (λ e. cc e)) refl
              (pushes_end 3 true false 0 9 refl (omega arith) (λ _. refl)) (λ e. cc e))
            refl (closes 3 true false 0 refl (λ _. refl)) (λ e. cc e))
          refl (turns 0 finishes) refl)
        refl (joins 3 true 0 refl refl) (λ e. cc e))
      refl (ends 3 true 1 refl refl) (λ e. cc e)

shut_down_ends_example :
    (5 ≤ 3 * 1 + 2)
    × (is_inside (done.pc 3) ≡ false → (done.pc 3 ≡ shut true true) × (done.pool.state ≡ shutdown))
    × (is_inside (done.pc 3) ≡ true → Joins 3 true done ⊎ CanMove scanning true 3 done)
unfolding ℕ_discrete
shut_down_ends_example = shut_down_ends refl done-Call
