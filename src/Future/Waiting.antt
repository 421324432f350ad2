-- ===== src/Future/Waiting.antt =====
-- Threads that wait for a result.
use empool.Base.{refl, not, ◌∷◌, ◌∙◌, ◌≢◌, ℕ, ◌≡◌, ap, subst, false, none, some, arith}
use empool.Lock.{notice_if, all_notice}
use empool.Lock.System.{notify, wake, outside, locking, asleep, System, Steps, start}
use empool.Lock.Atomic
use empool.Lock.Refinement.{abs, view, settled-free, refines_atomic}
use empool.Lock.Progress.{Steps-append, section_runs}
use empool.Future.Result.{AllGenuine, answers_computed}
use empool.Future.{
  Call, get_result, try_get_result, do_run, Future, new_future, code, get_result_body, value,
  is_not_returned,
}

module _ {ℓ} {T : Type ℓ} where
  abbrev Awaits : Atomic.System (Call T) (Future T) → Type ℓ
  Awaits s = (i : ℕ) (c : Call T) → s.pc i ≡ Atomic.asleep c → s.shared.is_result_returned ≡ false

  Step-Awaits :
      {s t : Atomic.System (Call T) (Future T)} → Atomic.Step code s t → Awaits s → Awaits t
  Step-Awaits (Atomic.enters i c e) h k d p = ground (arith, h k d)
  Step-Awaits (Atomic.performs i j (get_result n) e) h k d p = ground (arith, h k d)
  Step-Awaits (Atomic.performs i j (try_get_result n) e) h k d p = ground (arith, h k d)
  Step-Awaits (Atomic.performs i j (do_run none) e) h k d p = ground (arith, h k d)
  Step-Awaits (Atomic.performs i j (do_run (some v)) e) h k d p = ground (arith, h k d)
  Step-Awaits (Atomic.stirs i c e) h k d p = ground (arith, h k d)
  Step-Awaits (Atomic.expires i c e timed) h k d p = ground (arith, h k d)
  Step-Awaits (Atomic.gives_up i c e) h k d p = ground (arith, h k d)

  Steps-Awaits :
      {blank : T} {s : Atomic.System (Call T) (Future T)}
      → Atomic.Steps code (abs (start (new_future blank))) s
      → Awaits s
  Steps-Awaits Atomic.here i c e = absurd (ground arith)
  Steps-Awaits (Atomic.then_ r st) i c e = Step-Awaits st (Steps-Awaits r) i c e

  no_lost_result :
      {blank : T} {s : System (Call T) (Future T)}
      → Steps code (start (new_future blank)) s
      → (i : ℕ) (c : Call T) → s.pc i ≡ asleep c
      → s.owner ≡ none
      → s.shared.is_result_returned ≡ false
  no_lost_result {s} r i c e free =
      subst (λ f. Future.is_result_returned f ≡ false) (settled-free s.pc s.shared free)
        (Steps-Awaits (refines_atomic r) i c (ap view e))

  -- Whatever threads call `GetResult`, `TryGetResult` and `DoRun`, and however their statements
  -- interleave: each value that a caller has got, or the caller in the lock is about to get, is one
  -- that `Call()` gave, never what the result was made with; and no result is missed: when no
  -- thread is in the lock and one still sleeps in a wait, no result has been set.
  pub results_reach_callers :
      {blank : T} {s : System (Call T) (Future T)}
      → Steps code (start (new_future blank)) s
      → AllGenuine (abs s).shared
        × ((i : ℕ) (c : Call T)
            → s.pc i ≡ asleep c
            → s.owner ≡ none
            → s.shared.is_result_returned ≡ false)
  results_reach_callers r = (answers_computed r, no_lost_result r)

  -- A result goes from `DoRun` to `GetResult` unchanged: let thread `i` come to the free mutex
  -- to run the task, whose `Call()` gives `v`, while thread `k` sleeps in `GetResult`. Then `i` can
  -- run the task, `k` is woken and gets the mutex, and both return, `k` with `v`.
  pub result_roundtrip :
      {blank : T} {s : System (Call T) (Future T)}
      → Steps code (start (new_future blank)) s
      → (i k caller : ℕ) (v : T) → i ≢ k
      → s.owner ≡ none
      → s.pc i ≡ locking (do_run (some v))
      → s.pc k ≡ asleep (get_result caller)
      → (t : System (Call T) (Future T)) × Steps code s t
        × (t.pc k ≡ outside)
        × (t.owner ≡ none)
        × (t.shared.answers ≡ (caller, value v) ∷ s.shared.answers)
  result_roundtrip {s} r i k caller v ne free e sleeps =
      let ran = section_runs {code = code} s i i (do_run (some v)) free e refl in
      let got =
        section_runs {code = code} ran.0 k k (get_result caller) ran.3
          (ran.5 k ne
            ∙ ap (λ b. notify (notice_if (not b) all_notice) i s.pc k)
                (no_lost_result r k _ sleeps free)
            ∙ ap wake sleeps)
          (ap (λ f. is_not_returned f) ran.4) in
      (
        got.0,
        Steps-append ran.1 got.1,
        got.2,
        got.3,
        ap Future.answers got.4 ∙ ap (λ f. (get_result_body caller f).answers) ran.4,
      )
