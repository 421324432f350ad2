-- ===== src/Timer/Shutdown.antt =====
-- What shutting a handler down does to the tasks that are still in its queue.
use empool.Base.{ℕ, some, ◌<◌, ◌≡◌, refl, Bool, true, false, arith, update, ap}
use empool.Heap.{PopHeap, PriorityQueue, empty, heap, count, contents, top}
use empool.Task.{Work}
use empool.Timer.{Store, deadline_of, push_task, new_timer_task}
use empool.Timer.Handler.{
  State, do_add_cron_timer_task, do_add_cycle_timer_task, push_end, shut_down_helper, pass,
  pass_min, closed, fires, ends, fire,
}
use empool.Timer.Invariant.{Inv}
use empool.Timer.Adding.{Refuses}

-- The tasks in the queue are the users'.
abbrev pub OnlyUsers : State → Type 0
OnlyUsers s = (x : ℕ) → 0 < count x (contents s.handler.queue) → (s.tasks x).is_end ≡ false

-- The `EndTimerTask`, whose deadline is 0, goes to the root.
push_end_root :
    (tasks : Store) (end : ℕ) (q : PriorityQueue)
    → ((x : ℕ) → 0 < count x (contents q) → 0 < deadline_of tasks x)
    → count end (contents q) ≡ 0
    → top (push_task (update tasks end (new_timer_task true)) q end) ≡ some end
unfolding push_task
push_end_root tasks end empty dated absent = refl
push_end_root tasks end (heap r rest) dated absent = ground (arith, dated r)

-- A pass with an `EndTimerTask` at the root that nobody has cancelled fires it.
pass_end :
    (lib : PopHeap) (now : ℕ) (s : State) (end : ℕ)
    → s.handler.thread.is_request_close ≡ false
    → top s.handler.queue ≡ some end
    → s.tasks end ≡ new_timer_task true
    → ((pass lib now s).1 ≡ fires end) × ((w : Work) → (fire w (pass lib now s).0 end).1 ≡ ends)
unfolding pass pass_min fire
pass_end lib now s end running root new = (
  ground (arith, ap (λ t. t.task) new, ap (λ t. t.deadline) new),
  λ w. ground (arith, ap (λ t. t.is_end) new, ap (λ t. t.interval) new, ap (λ t. t.task) new),
)

pass-closed :
    (lib : PopHeap) (now : ℕ) (t : State)
    → t.handler.thread.is_request_close ≡ true
    → pass lib now t ≡ (t, closed)
unfolding pass
pass-closed lib now t c = ground arith

Refuses-closed : (t : State) (x : ℕ) → t.handler.thread.is_request_close ≡ true → Refuses t x
unfolding do_add_cron_timer_task do_add_cycle_timer_task
Refuses-closed t x c now time run_now = (ground arith, ground arith)

shut_again :
    (t : State)
    → t.handler.is_request_shut_down ≡ true
    → (now fails fails_close : Bool) (e : ℕ)
    → shut_down_helper now fails fails_close t e ≡ (t, false)
unfolding shut_down_helper
shut_again t e now fails fails_close x = ground arith

over_flags :
    (s : State) (end : ℕ)
    → s.handler.is_request_shut_down ≡ false
    → s.handler.thread.is_request_close ≡ false
    → ((shut_down_helper false false false s end).0.handler.thread.is_request_close ≡ true)
      × ((shut_down_helper false false false s end).0.handler.is_request_shut_down ≡ true)
unfolding shut_down_helper
over_flags s end first open_ = (ground arith, ground arith)

-- The first `ShutDown` of a handler, when no exchange fails for no reason, gives up the tasks that
-- are still in the queue, due or not: if the thread makes its next pass before it is asked to
-- close, it fires the `EndTimerTask`, and ends; if it makes it later, it ends by the exception.
-- From then on no task is taken, and shutting down again does nothing.
pub shut_down_drops :
    (lib : PopHeap) (s : State) (end : ℕ)
    → Inv s
    → OnlyUsers s
    → count end (contents s.handler.queue) ≡ 0
    → s.handler.is_request_shut_down ≡ false
    → s.handler.thread.is_request_close ≡ false
    → let mid = (push_end false s end).0 in
      let over = (shut_down_helper false false false s end).0 in
      ((now : ℕ)
        → ((pass lib now mid).1 ≡ fires end)
          × ((w : Work) → (fire w (pass lib now mid).0 end).1 ≡ ends))
      × ((now : ℕ) → pass lib now over ≡ (over, closed))
      × ((x : ℕ) → Refuses over x)
      × ((now fails fails_close : Bool) (e : ℕ)
          → shut_down_helper now fails fails_close over e ≡ (over, false))
unfolding push_end
shut_down_drops lib s end v users absent first open_ =
    let flags = over_flags s end first open_ in
    (
      λ now.
          pass_end lib now (push_end false s end).0 end (ground arith) (ground (arith, root))
            (ground arith),
      λ now. pass-closed lib now _ flags.0,
      λ x. Refuses-closed _ x flags.0,
      shut_again _ flags.1,
    )
  where
    root : top (push_task (update s.tasks end (new_timer_task true)) s.handler.queue end) ≡ some end
    root = push_end_root s.tasks end s.handler.queue (λ x h. v.dated x h (users x h)) absent
