-- ===== src/Thread/Examples.antt =====
-- The theorems on threads at concrete runs.
use empool.Base.{◌==◌, ◌≤◌, length, ℕ, zero, suc, ◌≡◌, ◌≢◌, refl, true, arith}
use empool.Thread.{CreateResult, created, eagain, init, not_launched, tid, construct, create_error}
use empool.Thread.System.{
  created_, answered, destroyed, ended, working, crashed, System, start, creates, marks, resets,
  asks, gets, stores, Steps, here, then_,
}
use empool.Thread.Safety.{is_object, thread_object_safe}
use empool.Thread.Locals.{new_locals, cache_tid, tid_of, is_main_thread}
use empool.Thread.TidString.{read_number, tid_string_roundtrip}
use empool.Thread.Race.{is_constructing, is_past_reset, CanCrash, null_before_reset}
use empool.Thread.Creation.{launched}

-- The thread with id 42 has begun its work before `m_thread` is set.
abbrev begun : System
begun = record (start) { thread_id = 42; parent = created_; child = working }

begun-Steps : Steps 42 start begun
unfolding tid
begun-Steps = then_ (then_ here (creates refl refl)) (stores refl)

-- `Init` has returned, and `GetThreadId` too.
abbrev asked : System
asked = record begun { is_start = true; has_pointer = true; parent = answered 42 }

asked-Steps : Steps 42 start asked
unfolding tid construct create_error
asked-Steps =
    then_ (then_ (then_ (then_ begun-Steps (marks refl)) (resets refl)) (asks refl))
      (gets refl (λ e. absurd (omega (arith, e))))

thread_object_safe_example :
    ((n : ℕ) → asked.parent ≡ answered n → (n ≡ 42) × (n ≢ 0))
    × (asked.parent ≡ destroyed → asked.child ≡ ended)
    × (is_object asked.parent ≡ true → asked.is_start ≡ true)
thread_object_safe_example = thread_object_safe (λ e. absurd (omega (arith, e))) asked-Steps

null_before_reset_example :
    (is_constructing begun.parent ≡ true → CanCrash 42 begun)
    × (is_past_reset begun.parent ≡ true
        → begun.child ≢ crashed
        → (t : System) → Steps 42 begun t
        → t.child ≢ crashed)
null_before_reset_example = null_before_reset begun-Steps

-- Two attempts fail for want of resources.
abbrev third_time : ℕ → CreateResult
third_time zero = eagain
third_time (suc zero) = eagain
third_time _ = created

third_try : init 5 third_time not_launched ≡ launched 2
unfolding init construct create_error
third_try = refl

tid_string_roundtrip_example :
    let t = cache_tid 4711 new_locals in
    (t.cached_tid ≡ 4711)
    × (read_number 0 t.tid_string ≡ 4711)
    × (length t.tid_string ≡ t.tid_string_length)
    × (6 ≤ t.tid_string_length)
    × (t.tid_string_length ≤ 11)
    × ((other : ℕ)
        → (cache_tid other t ≡ t)
          × (tid_of other t ≡ (t, 4711))
          × ((getpid : ℕ) → is_main_thread getpid other t ≡ (t, 4711 == getpid)))
tid_string_roundtrip_example = tid_string_roundtrip 4711 (omega arith) (omega arith)
