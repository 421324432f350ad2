-- ===== src/Closeable/Lifetime.antt =====
-- From the start of a closeable thread to its end.
use empool.Base.{ℕ, ◌≤◌, ◌≡◌, refl, ◌⊎◌, inl, true, false, arith}
use empool.Closeable.{
  ThreadState, init, running, finished, is_finished, request_close, ThreadPc, born, checking,
  working, leaving, finishing, notifying, ended, lost, thread_step,
}
use empool.Closeable.System.{
  System, Step, advance, async_close, close, sleep, done, stir, Steps, here, then_, start, waiting,
  woken,
}

-- The state and the number of calls of the finish action, at each place of the thread.
record At (x : ThreadState) (calls : ℕ) (s : System) : Type 0 where
  state : s.thread.state ≡ x
  called : s.finish_calls ≡ calls

abbrev LifeAt : ThreadPc → System → Type 0
LifeAt born s = At init 0 s
LifeAt checking s = At running 0 s
LifeAt working s = At running 0 s
LifeAt leaving s = At running 0 s
LifeAt finishing s = At running 1 s
LifeAt notifying s = At finished 1 s
LifeAt ended s = At finished 1 s
LifeAt lost s = At running 0 s

abbrev Life : System → Type 0
Life s = LifeAt s.pc s

Step-Life : {s t : System} → Step s t → Life s → Life t
unfolding thread_step request_close
Step-Life (advance w) h = ground arith
Step-Life (async_close fails) h = ground arith
Step-Life (close k fails idle) h = ground arith
Step-Life (sleep k p e) h = ground arith
Step-Life (done k p e) h = ground arith
Step-Life (stir k p) h = ground arith

Steps-Life : {s t : System} → Life s → Steps s t → Life t
Steps-Life h here = h
Steps-Life h (then_ r st) = Step-Life st (Steps-Life h r)

-- The finish action is called at most once; a thread that has finished has called it, and one
-- whose work function has thrown never has.
finish_action_once :
    {s : System}
    → Steps start s
    → (s.finish_calls ≤ 1)
      × (is_finished s.thread.state ≡ true → s.finish_calls ≡ 1)
      × (s.pc ≡ lost → s.finish_calls ≡ 0)
finish_action_once {s} r =
    let h : Life s = Steps-Life (record { state = refl; called = refl }) r in
    (ground (arith, h), λ e. ground (arith, h), λ e. ground (arith, h))

-- What a thread that waits in `Close` has come to while the thread is lost.
record Stuck (s t : System) : Type 0 where
  gone : t.pc ≡ lost
  unfinished : is_finished t.thread.state ≡ false
  waits : (i : ℕ) → s.closer i ≡ waiting → (t.closer i ≡ waiting) ⊎ (t.closer i ≡ woken)

Step-Stuck : {s t u : System} → Step t u → Stuck s t → Stuck s u
unfolding thread_step request_close
Step-Stuck (advance w) h = record {
  gone = ground (arith, h.gone);
  unfinished = ground (arith, h.gone, h.unfinished);
  waits = λ i e. ground (arith, h.waits i);
}
Step-Stuck (async_close fails) h = record {
  gone = h.gone;
  unfinished = h.unfinished;
  waits = h.waits;
}
Step-Stuck (close k fails idle) h = record {
  gone = h.gone;
  unfinished = h.unfinished;
  waits = λ i e. ground (arith, h.waits i);
}
Step-Stuck (sleep k q e) h = record {
  gone = h.gone;
  unfinished = h.unfinished;
  waits = λ i e. ground (arith, h.waits i);
}
Step-Stuck (done k q e) h = absurd (ground (arith, h.unfinished))
Step-Stuck (stir k q) h = record {
  gone = h.gone;
  unfinished = h.unfinished;
  waits = λ i e. ground (arith, h.waits i);
}

Steps-Stuck : {s t : System} → Stuck s s → Steps s t → Stuck s t
Steps-Stuck h here = h
Steps-Stuck h (then_ r st) = Step-Stuck st (Steps-Stuck h r)

-- A thread whose work function throws never finishes: whoever waits for it in `Close` never
-- returns.
pub lost_never_finishes :
    {s t : System}
    → Steps start s
    → s.pc ≡ lost
    → Steps s t
    → (is_finished t.thread.state ≡ false)
      × ((i : ℕ) → s.closer i ≡ waiting → (t.closer i ≡ waiting) ⊎ (t.closer i ≡ woken))
lost_never_finishes {s} r e later =
    let h : Life s = Steps-Life (record { state = refl; called = refl }) r in
    let stuck : Stuck s s = record {
      gone = e;
      unfinished = ground (arith, h);
      waits = λ i w. inl w;
    } in
    let after = Steps-Stuck stuck later in (after.unfinished, after.waits)
