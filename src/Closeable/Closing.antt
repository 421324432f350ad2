-- ===== src/Closeable/Closing.antt =====
-- What a thread in `Close` can rely on.
use empool.Base.{ℕ, ◌≡◌, ◌⊎◌, inl, inr, Bool, true, false, arith, Bool-cases}
use empool.Closeable.{is_finished, request_close, Work, notifying, thread_step}
use empool.Closeable.System.{
  System, Step, advance, async_close, close, sleep, done, stir, Steps, here, then_, start, ClosePc,
  asked, waiting, woken,
}

-- A thread that has won the exchange in `Close` and has not returned.
abbrev pub in_close : ClosePc → Bool
in_close asked = true
in_close waiting = true
in_close woken = true
in_close _ = false

record Inv (s : System) : Type 0 where
  made : (i : ℕ) → in_close (s.closer i) ≡ true → s.thread.is_request_close ≡ true
  single : (i j : ℕ) → in_close (s.closer i) ≡ true → in_close (s.closer j) ≡ true → i ≡ j
  served : (i : ℕ) → s.closer i ≡ waiting → is_finished s.thread.state ≡ true → s.pc ≡ notifying

Step-Inv : {s t : System} → Step s t → Inv s → Inv t
unfolding thread_step request_close
Step-Inv (advance w) v = record {
  made = λ i. ground (arith, v.made i);
  single = λ i j. ground (arith, v.single i j);
  served = λ i. ground (arith, v.served i, v.made i);
}
Step-Inv (async_close fails) v = record {
  made = λ i. ground (arith, v.made i);
  single = v.single;
  served = v.served;
}
Step-Inv (close k fails idle) v = record {
  made = λ i. ground (arith, v.made i);
  single = λ i j. ground (arith, v.single i j, v.made i, v.made j);
  served = λ i. ground (arith, v.served i);
}
Step-Inv (sleep k p e) v = record {
  made = λ i. ground (arith, v.made i, v.made k);
  single = λ i j. ground (arith, v.single i j, v.single k j, v.single i k);
  served = λ i. ground (arith, v.served i);
}
Step-Inv (done k p e) v = record {
  made = λ i. ground (arith, v.made i);
  single = λ i j. ground (arith, v.single i j);
  served = λ i. ground (arith, v.served i);
}
Step-Inv (stir k p) v = record {
  made = λ i. ground (arith, v.made i, v.made k);
  single = λ i j. ground (arith, v.single i j, v.single k j, v.single i k);
  served = λ i. ground (arith, v.served i);
}

Steps-Inv : {s t : System} → Inv s → Steps s t → Inv t
Steps-Inv v here = v
Steps-Inv v (then_ r st) = Step-Inv st (Steps-Inv v r)

start-Inv : Inv start
start-Inv = record {
  made = λ i. ground arith;
  single = λ i j. ground arith;
  served = λ i. ground arith;
}

-- No wake-up is lost: in every state that a new thread can come to, one that sleeps in `Close`
-- waits for a thread that has not finished, or the next step of that thread wakes it.
pub no_lost_close :
    {s : System}
    → Steps start s
    → (i : ℕ) → s.closer i ≡ waiting
    → (is_finished s.thread.state ≡ false)
      ⊎ ((s.pc ≡ notifying) × ((w : Work) → (t : System) × Step s t × (t.closer i ≡ woken)))
unfolding thread_step
no_lost_close {s} r i e = elim (Bool-cases (is_finished s.thread.state)) [
  | inl over ↦ inr (v.served i e over, λ w. (_, advance w, ground (arith, v.served i, v.made i)))
  | inr not_yet ↦ inl not_yet
]
  where
    v : Inv s
    v = Steps-Inv start-Inv r
