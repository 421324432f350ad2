-- ===== src/Scheduled/Shutdown.antt =====
-- What `ShutDown` and `ShutDownNow` leave.
use empool.Base.{
  ℕ, zero, suc, ◌≤◌, ◌<◌, ◌≡◌, refl, Bool, true, false, Option, some, none, arith, update_cases,
  subst, sym,
}
use empool.Timer.{Store}
use empool.Timer.Handler.{State, Handler, shut_down_helper}
use empool.Scheduled.{
  stop, Pool, is_shut_down, at_handler, do_add_cron, do_add_cycle, shut_down_handlers, shut_down,
}

-- Handler `i` is shut down: it takes no more tasks, and its thread is asked to close.
pub record Closed (h : Handler) : Type 0 where
  pub shut : h.is_request_shut_down ≡ true
  pub close : h.thread.is_request_close ≡ true

-- A handler that is shut down only if its thread is asked to close.
abbrev pub Sound : Handler → Type 0
Sound h = h.is_request_shut_down ≡ true → h.thread.is_request_close ≡ true

helper-Closed :
    (now : Bool) (s : State) (end : ℕ)
    → Sound s.handler
    → Closed (shut_down_helper now false false s end).0.handler
unfolding shut_down_helper
helper-Closed now s end h = record { shut = ground arith; close = ground (arith, h) }

handlers-Closed :
    (now : Bool) (end : ℕ → ℕ) (n : ℕ) (tasks : Store) (p : Pool)
    → ((i : ℕ) → Sound (p.handlers i))
    → ((i : ℕ) → i < n → Closed ((shut_down_handlers now end n tasks p).1.handlers i))
      × ((i : ℕ) → n ≤ i → (shut_down_handlers now end n tasks p).1.handlers i ≡ p.handlers i)
      × ((shut_down_handlers now end n tasks p).1.is_request_shut_down ≡ p.is_request_shut_down)
unfolding shut_down_handlers
handlers-Closed now end zero tasks p h = (λ i lt. absurd (omega arith), λ i le. refl, refl)
handlers-Closed now end (suc n) tasks p h =
    let (closed, others, flag) = handlers-Closed now end n tasks p h in
    (
      update_cases (λ j c. j < suc n → Closed c) _ n _
          (λ lt.
            helper-Closed now
              (at_handler (shut_down_handlers now end n tasks p).0
                (shut_down_handlers now end n tasks p).1 n)
              (end n) (subst Sound (sym (others n (omega arith))) (h n)))
          (λ j ne lt. closed j (omega arith)),
      λ i le. ground (arith, others i (omega arith)),
      flag,
    )

cron_refused :
    (time : ℕ) (tasks : Store) (p : Pool) (x : Option ℕ) (delay : ℕ)
    → p.is_request_shut_down ≡ true
    → do_add_cron time tasks p x delay ≡ (tasks, p, none)
unfolding do_add_cron
cron_refused time tasks p none delay h = refl
cron_refused time tasks p (some x) delay h = ground arith

cycle_refused :
    (time : ℕ) (tasks : Store) (p : Pool) (x : Option ℕ) (period : ℕ) (run_now : Bool)
    → p.is_request_shut_down ≡ true
    → do_add_cycle time tasks p x period run_now ≡ (tasks, p, none)
unfolding do_add_cycle
cycle_refused time tasks p none period run_now h = refl
cycle_refused time tasks p (some x) period run_now h = ground arith

-- The first `ShutDown` or `ShutDownNow` of a pool whose handlers are not shut down, when no exchange
-- fails for no reason, shuts down every handler and leaves the pool in the state `SHUTDOWN`. After
-- that, a call that adds a task returns the null pointer, and it and a second shutting down change
-- nothing.
pub shut_down_all :
    (now : Bool) (end : ℕ → ℕ) (tasks : Store) (p : Pool)
    → p.is_request_shut_down ≡ false
    → ((i : ℕ) → Sound (p.handlers i))
    → let (tasks', p') = shut_down now false end tasks p in
      (is_shut_down p'.state ≡ true)
      × ((i : ℕ) → i < p.thread_num → Closed (p'.handlers i))
      × ((time delay : ℕ) (x : Option ℕ) → do_add_cron time tasks' p' x delay ≡ (tasks', p', none))
      × ((time period : ℕ) (x : Option ℕ) (run_now : Bool)
          → do_add_cycle time tasks' p' x period run_now ≡ (tasks', p', none))
      × ((again fails : Bool) (end' : ℕ → ℕ) → shut_down again fails end' tasks' p' ≡ (tasks', p'))
unfolding shut_down
shut_down_all now end tasks p first sound =
    let (closed, others, flag) =
      handlers-Closed now end p.thread_num tasks
        (record p { is_request_shut_down = true; state = stop }) sound in
    (
      ground arith,
      λ i lt. rw first (closed i lt),
      λ time delay x. cron_refused time _ _ x delay (ground (arith, flag)),
      λ time period x run_now. cycle_refused time _ _ x period run_now (ground (arith, flag)),
      λ again fails end'. ground (arith, flag),
    )
