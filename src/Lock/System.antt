-- ===== src/Lock/System.antt =====
-- Threads that run sections, one statement at a time.
use empool.Base.{ℕ, ◌≡◌, true, Option, none, some, List, [], ◌∷◌, update, if◌then◌else◌}
use empool.Lock.{Notice, no_notice, one_notice, all_notice, Section}

-- The calls of a program are of type `C`, and `code` says which section each runs. Where a thread
-- stands: outside, in `Lock`, with the mutex before its test, in `Wait`, in a
-- `TimeWait` whose time has run out, or with the mutex before the statements that are left.
pub data Pc {ℓ} (C S : Type ℓ) : Type ℓ where
  outside : Pc C S
  locking testing asleep expired : C → Pc C S
  running : List (S → S) → Pc C S

pub record System {ℓ} (C S : Type ℓ) : Type ℓ where
  pub shared : S
  pub owner : Option ℕ
  pub pc : ℕ → Pc C S

module _ {ℓ} {C S : Type ℓ} where
  abbrev pub wake : Pc C S → Pc C S
  wake (asleep c) = locking c
  wake p = p

  -- The effect of a notice on the threads; `j` is the one that `pthread_cond_signal` picks.
  abbrev pub notify : Notice → (j : ℕ) → (ℕ → Pc C S) → ℕ → Pc C S
  notify no_notice j pc = pc
  notify one_notice j pc = update pc j (wake (pc j))
  notify all_notice j pc = λ i. wake (pc i)

  -- The test of a locker that has the mutex: it waits, and gives the mutex up, or goes on.
  abbrev pub test : (C → Section S) → System C S → (i j : ℕ) → C → System C S
  test code s i j c =
      if (code c).waits s.shared
      then record s { owner = none; pc = update s.pc i (asleep c) }
      else record s {
        pc = update (notify ((code c).notice s.shared) j s.pc) i (running (code c).body);
      }

pub data Step {ℓ} {C S : Type ℓ} (code : C → Section S) (s : System C S) : System C S → Type ℓ where
  enters :
      (i : ℕ) (c : C) → s.pc i ≡ outside → Step code s (record s { pc = update s.pc i (locking c) })
  locks :
      (i : ℕ) (c : C)
      → s.pc i ≡ locking c
      → s.owner ≡ none
      → Step code s (record s { owner = some i; pc = update s.pc i (testing c) })
  tests : (i j : ℕ) (c : C) → s.pc i ≡ testing c → Step code s (test code s i j c)
  moves :
      (i : ℕ) (f : S → S) (fs : List (S → S))
      → s.pc i ≡ running (f ∷ fs)
      → Step code s (record s { shared = f s.shared; pc = update s.pc i (running fs) })
  unlocks :
      (i : ℕ)
      → s.pc i ≡ running []
      → Step code s (record s { owner = none; pc = update s.pc i outside })
  stirs :
      (i : ℕ) (c : C)
      → s.pc i ≡ asleep c
      → Step code s (record s { pc = update s.pc i (locking c) })
  expires :
      (i : ℕ) (c : C)
      → s.pc i ≡ asleep c
      → (code c).timed ≡ true
      → Step code s (record s { pc = update s.pc i (expired c) })
  -- `TimeWait` returns false with the mutex locked.
  gives_up :
      (i : ℕ) (c : C)
      → s.pc i ≡ expired c
      → s.owner ≡ none
      → Step code s (record s { owner = some i; pc = update s.pc i (running (code c).late) })

pub data Steps {ℓ} {C S : Type ℓ} (code : C → Section S) (s : System C S)
    : System C S → Type ℓ where
  here : Steps code s s
  then_ : {t u : System C S} → Steps code s t → Step code t u → Steps code s u

abbrev pub start {ℓ} : {C S : Type ℓ} → S → System C S
start shared = record { shared = shared; owner = none; pc = λ _. outside }
