-- ===== src/Lock/Between.antt =====
-- Predicates that every section keeps.
use empool.Base.{ℕ, ◌≡◌, ap, subst, false, none, if_elim}
use empool.Lock.{Section, run}
use empool.Lock.System.{testing, System, Steps, start}
use empool.Lock.Atomic
use empool.Lock.Exclusion.{is_inside, Steps-Owned}
use empool.Lock.Refinement.{abs, settled-free, settled-owner, refines_atomic}

-- Every section of the program keeps `I`, run from its test to its end where it need not wait, and
-- run from its end of time.
abbrev pub Keeps {ℓ κ} : {C S : Type ℓ} → (C → Section S) → (S → Type κ) → Type (ℓ ⊔ κ)
Keeps {C} {S} code I =
    (c : C) (x : S)
    → I x
    → ((code c).waits x ≡ false → I (run (code c).body x)) × I (run (code c).late x)

module _ {ℓ κ} {C S : Type ℓ} {code : C → Section S} (I : S → Type κ) where
  Atomic_Step-keeps :
      Keeps code I → {s t : Atomic.System C S} → Atomic.Step code s t → I s.shared → I t.shared
  Atomic_Step-keeps k {s} (Atomic.enters i c e) v = v
  Atomic_Step-keeps k {s} (Atomic.performs i j c e) v =
      if_elim (λ t. I (Atomic.System.shared t)) ((code c).waits s.shared) (λ e. v)
        (k c s.shared v).0
  Atomic_Step-keeps k {s} (Atomic.stirs i c e) v = v
  Atomic_Step-keeps k {s} (Atomic.expires i c e timed) v = v
  Atomic_Step-keeps k {s} (Atomic.gives_up i c e) v = (k c s.shared v).1

  Atomic_Steps-keeps :
      Keeps code I → {s t : Atomic.System C S} → Atomic.Steps code s t → I s.shared → I t.shared
  Atomic_Steps-keeps k Atomic.here v = v
  Atomic_Steps-keeps k (Atomic.then_ r st) v = Atomic_Step-keeps k st (Atomic_Steps-keeps k r v)

  -- What every section keeps holds, in each state that threads come to, of the state in which
  -- the owner of the mutex will leave what they share.
  pub Steps-keeps :
      Keeps code I
      → {shared : S} {s : System C S} → I shared
      → Steps code (start shared) s
      → I (abs s).shared
  Steps-keeps k v r = Atomic_Steps-keeps k (refines_atomic r) v

  -- If what the threads share starts in `I`, and every section keeps `I`, both when it is run from
  -- its test to its end without a wait, and when it is run after its time is over, then what they share is in `I` whenever the mutex is free,
  -- and when a thread that has just got the mutex is about to test its condition: no thread sees
  -- the work of another half done.
  pub seen_between :
      Keeps code I
      → {shared : S} {s : System C S} → I shared
      → Steps code (start shared) s
      → (s.owner ≡ none → I s.shared) × ((i : ℕ) (c : C) → s.pc i ≡ testing c → I s.shared)
  seen_between k {s} v r = (
    λ free. subst I (settled-free s.pc s.shared free) (Steps-keeps k v r),
    λ i c e.
        subst I (settled-owner s.pc s.shared (Steps-Owned r i (ap is_inside e)) e)
          (Steps-keeps k v r),
  )
