-- ===== src/Lock/Mutex.antt =====
-- src/Mutex.cpp, operation by operation; `owner` is what POSIX keeps of the mutex.
use empool.Base.{
  ℕ, ◌≡◌, refl, ◌⊎◌, inl, inr, Bool, true, false, Option, none, some, if_elim, arith, if◌then◌else◌,
}
use empool.Lock.{Section}
use empool.Lock.System.{
  System, Step, enters, locks, tests, moves, unlocks, stirs, expires, gives_up,
}

pub record Mutex : Type 0 where
  pub is_init : Bool
  pub owner : Option ℕ

-- `Init`; `fails` says that `pthread_mutex_init` does, and `none` is the exception.
abbrev pub init : (fails : Bool) → Mutex → Option Mutex
init fails m =
    if m.is_init
    then some m
    else if fails
    then none
    else some (record { is_init = true; owner = none })

-- The constructor.
abbrev pub new_mutex : (fails : Bool) → Option Mutex
new_mutex fails = init fails (record { is_init = false; owner = none })

-- `pthread_mutex_lock`, `none` where it waits, and `pthread_mutex_trylock`.
abbrev pub take : ℕ → Mutex → Option ℕ → Option Mutex
take i m none = some (record m { owner = some i })
take i m (some k) = none

abbrev pub try_take : ℕ → Mutex → Option ℕ → Mutex × Bool
try_take i m none = (record m { owner = some i }, true)
try_take i m (some k) = (m, false)

-- `Lock`, `Unlock` and `TryLock`; on a mutex that is not initialised they print a warning.
abbrev pub lock : ℕ → Mutex → Option Mutex
lock i m = if m.is_init then take i m m.owner else some m

abbrev pub unlock : Mutex → Mutex
unlock m = if m.is_init then record m { owner = none } else m

abbrev pub try_lock : ℕ → Mutex → Mutex × Bool
try_lock i m = if m.is_init then try_take i m m.owner else (m, false)

taken :
    {o : Option ℕ} (i : ℕ)
    → o ≡ none
    → (lock i (record { is_init = true; owner = o })
        ≡ some (record { is_init = true; owner = some i }))
      × (try_lock i (record { is_init = true; owner = o })
          ≡ (record { is_init = true; owner = some i }, true))
taken i free = (ground (arith, free), ground (arith, free))

module _ {ℓ} {C S : Type ℓ} where
  -- The mutex of the threads, which its constructor has initialised.
  abbrev mutex_of : System C S → Mutex
  mutex_of s = record { is_init = true; owner = s.owner }

  -- Nothing is done with the mutex, or it is taken, or given up.
  abbrev Follows : System C S → System C S → Type 0
  Follows s t =
      (mutex_of t ≡ mutex_of s)
      ⊎ ((i : ℕ) × (lock i (mutex_of s) ≡ some (mutex_of t))
          × (try_lock i (mutex_of s) ≡ (mutex_of t, true)))
      ⊎ (mutex_of t ≡ unlock (mutex_of s))

  -- Each step of the threads does with the mutex what one of its operations does.
  Step-Follows : {code : C → Section S} {s t : System C S} → Step code s t → Follows s t
  Step-Follows (enters i c e) = inl refl
  Step-Follows {s} (locks i c e free) = inr (inl (i, (taken i free).0, (taken i free).1))
  Step-Follows {code} {s} (tests i j c e) =
      if_elim (λ t. Follows s t) ((code c).waits s.shared) (λ w. inr (inr refl)) (λ w. inl refl)
  Step-Follows (moves i f fs e) = inl refl
  Step-Follows (unlocks i e) = inr (inr refl)
  Step-Follows (stirs i c e) = inl refl
  Step-Follows (expires i c e timed) = inl refl
  Step-Follows {s} (gives_up i c e free) = inr (inl (i, (taken i free).0, (taken i free).1))
