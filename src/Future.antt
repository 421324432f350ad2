-- ===== src/Future.antt =====
-- include/empool/FutureTask.h: a task whose result threads wait for. Its three calls are sections
-- under `m_mutex`, with the condition `m_resultCondition`.
pub mod Result
pub mod Waiting
mod Examples
use empool.Base.{ℕ, Bool, true, false, not, Option, none, some, List, [], ◌∷◌, if◌then◌else◌}
use empool.Lock.{Section, mutex_locker, condition_wait_locker, condition_notify_all_locker}

-- The calls, with the number of the caller that is answered; `DoRun` comes with what its `Call()`
-- gives, `none` for an exception.
pub data Call {ℓ} (T : Type ℓ) : Type ℓ where
  get_result try_get_result : (caller : ℕ) → Call T
  do_run : Option T → Call T

-- What a caller gets: a value, or `ResultNotReadyException`.
pub data Answer {ℓ} (T : Type ℓ) : Type ℓ where
  value : T → Answer T
  not_ready : Answer T

-- `m_result` and `m_isResultReturned`; `computed` and `answers` record, newest first, what `Call()`
-- has given and what callers have got.
pub record Future {ℓ} (T : Type ℓ) : Type ℓ where
  pub result : T
  pub is_result_returned : Bool
  pub computed : List T
  pub answers : List (ℕ × Answer T)

module _ {ℓ} {T : Type ℓ} where
  -- The constructor leaves `m_result` as the default constructor of its type makes it.
  abbrev pub new_future : T → Future T
  new_future blank = record {
    result = blank;
    is_result_returned = false;
    computed = [];
    answers = [];
  }

  abbrev pub is_not_returned : Future T → Bool
  is_not_returned f = not f.is_result_returned

  abbrev pub answer : ℕ → Answer T → Future T → Future T
  answer caller a f = record f { answers = (caller, a) ∷ f.answers }

  -- The two statements of `DoRun` under the lock.
  abbrev pub set_result : T → Future T → Future T
  set_result v f = record f { result = v; computed = v ∷ f.computed }

  abbrev pub set_returned : Future T → Future T
  set_returned f = record f { is_result_returned = true }

  abbrev pub do_run_body : Option T → List (Future T → Future T)
  do_run_body none = []
  do_run_body (some v) = set_result v ∷ set_returned ∷ []

  abbrev pub get_result_body : ℕ → Future T → Future T
  get_result_body caller f = answer caller (value f.result) f

  abbrev pub try_get_result_body : ℕ → Future T → Future T
  try_get_result_body caller f =
      if is_not_returned f then answer caller not_ready f else answer caller (value f.result) f

  abbrev pub code : Call T → Section (Future T)
  code (get_result caller) =
      condition_wait_locker false is_not_returned (get_result_body caller ∷ []) []
  code (try_get_result caller) = mutex_locker (try_get_result_body caller ∷ [])
  code (do_run outcome) = condition_notify_all_locker is_not_returned (do_run_body outcome)
