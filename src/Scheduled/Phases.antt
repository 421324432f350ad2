-- ===== src/Scheduled/Phases.antt =====
-- How far the shutting down of a pool is, when no exchange fails for no reason.
use empool.Base.{ℕ, ◌≤◌, ◌<◌, ◌≡◌, Bool, true, false, arith}
use empool.Closeable.{finished}
use empool.Timer.Handler.{Handler}
use empool.Scheduled.{running, shutdown}
use empool.Scheduled.Shutdown.{Closed}
use empool.Scheduled.System.{
  Pc, outside, checked, adding, answered, stopping, at_handler_number, closing, joining, shut,
  System,
}

-- Nobody has shut handler `h` down.
pub record Fresh (h : Handler) : Type 0 where
  pub not_shut : h.is_request_shut_down ≡ false
  pub not_closed : h.thread.is_request_close ≡ false

-- Handler `h` is shut down, and its thread is at its end if `ShutDownNow` has done it.
pub record Done (now : Bool) (h : Handler) : Type 0 where
  pub closed : Closed h
  pub ended : now ≡ true → h.thread.state ≡ finished

-- How far the thread in `ShutDownHelper` is.
abbrev pub Progress : (n : ℕ) → (ℕ → Handler) → Pc → Type 0
Progress n h (stopping now) = (i : ℕ) → Fresh (h i)
Progress n h (at_handler_number now k) =
    (k ≤ n) × ((i : ℕ) → i < k → Done now (h i)) × ((i : ℕ) → k ≤ i → Fresh (h i))
Progress n h (closing now k) =
    (k < n)
    × ((i : ℕ) → i < k → Done now (h i))
    × ((i : ℕ) → k < i → Fresh (h i))
    × ((h k).is_request_shut_down ≡ true)
    × ((h k).thread.is_request_close ≡ false)
Progress n h (joining now k) =
    (k < n) × ((i : ℕ) → i < k → Done now (h i)) × ((i : ℕ) → k < i → Fresh (h i)) × Closed (h k)
Progress n h _ = ⊥

-- A thread that is not in `ShutDownHelper`, and has not been the one to shut the pool down.
abbrev pub Quiet : Pc → Type 0
Quiet outside = Unit {0}
Quiet (checked req x) = Unit
Quiet (adding now req x i p) = Unit
Quiet (answered r) = Unit
Quiet (shut now false) = Unit
Quiet _ = ⊥

-- The same once the pool is shut down, by `ShutDownNow` if `now` is true.
abbrev pub Over : Bool → Pc → Type 0
Over now (shut now' true) = now' ≡ now
Over now p = Quiet p

pub data Phase (n : ℕ) (s : System) : Type 0 where
  open_ :
      s.pool.is_request_shut_down ≡ false
      → s.pool.state ≡ running
      → ((i : ℕ) → Fresh (s.pool.handlers i))
      → ((j : ℕ) → Quiet (s.pc j))
      → Phase n s
  shutting :
      (j : ℕ)
      → s.pool.is_request_shut_down ≡ true
      → (s.pool.state ≡ shutdown → ⊥)
      → Progress n s.pool.handlers (s.pc j)
      → ((k : ℕ) → ¬ (j ≡ k) → Quiet (s.pc k))
      → Phase n s
  over :
      (now : Bool)
      → s.pool.is_request_shut_down ≡ true
      → s.pool.state ≡ shutdown
      → ((i : ℕ) → i < n → Done now (s.pool.handlers i))
      → ((j : ℕ) → Over now (s.pc j))
      → Phase n s

-- What the steps of a handler's thread, and calls that add to it, keep of its flags.
pub record Keeps (h h' : Handler) : Type 0 where
  pub same_shut : h'.is_request_shut_down ≡ h.is_request_shut_down
  pub same_close : h'.thread.is_request_close ≡ h.thread.is_request_close
  pub still_ended : h.thread.state ≡ finished → h'.thread.state ≡ finished

pub Fresh-Keeps : {h h' : Handler} → Keeps h h' → Fresh h → Fresh h'
Fresh-Keeps k f = record {
  not_shut = ground (arith, k.same_shut, f.not_shut);
  not_closed = ground (arith, k.same_close, f.not_closed);
}

pub Closed-Keeps : {h h' : Handler} → Keeps h h' → Closed h → Closed h'
Closed-Keeps k c = record {
  shut = ground (arith, k.same_shut, c.shut);
  close = ground (arith, k.same_close, c.close);
}

pub Done-Keeps : {now : Bool} {h h' : Handler} → Keeps h h' → Done now h → Done now h'
Done-Keeps k d = record { closed = Closed-Keeps k d.closed; ended = λ e. k.still_ended (d.ended e) }
