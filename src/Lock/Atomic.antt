-- ===== src/Lock/Atomic.antt =====
-- The same threads with each section in one step. The other modules take this view of the lockers.
use empool.Base.{ℕ, ◌≡◌, true, update, if◌then◌else◌}
use empool.Lock.{Notice, no_notice, one_notice, all_notice, Section, run}

pub data Pc {ℓ} (C : Type ℓ) : Type ℓ where
  outside : Pc C
  entering asleep expired : C → Pc C

pub record System {ℓ} (C S : Type ℓ) : Type ℓ where
  pub shared : S
  pub pc : ℕ → Pc C

abbrev pub wake {ℓ} : {C : Type ℓ} → Pc C → Pc C
wake (asleep c) = entering c
wake p = p

abbrev pub notify {ℓ} : {C : Type ℓ} → Notice → (j : ℕ) → (ℕ → Pc C) → ℕ → Pc C
notify no_notice j pc = pc
notify one_notice j pc = update pc j (wake (pc j))
notify all_notice j pc = λ i. wake (pc i)

module _ {ℓ} {C S : Type ℓ} where
  -- The whole section, or the wait.
  abbrev pub perform : (C → Section S) → System C S → (i j : ℕ) → C → System C S
  perform code s i j c =
      if (code c).waits s.shared then record s { pc = update s.pc i (asleep c) } else record {
        shared = run (code c).body s.shared;
        pc = update (notify ((code c).notice s.shared) j s.pc) i outside;
      }

pub data Step {ℓ} {C S : Type ℓ} (code : C → Section S) (s : System C S) : System C S → Type ℓ where
  enters :
      (i : ℕ) (c : C)
      → s.pc i ≡ outside
      → Step code s (record s { pc = update s.pc i (entering c) })
  performs : (i j : ℕ) (c : C) → s.pc i ≡ entering c → Step code s (perform code s i j c)
  stirs :
      (i : ℕ) (c : C)
      → s.pc i ≡ asleep c
      → Step code s (record s { pc = update s.pc i (entering c) })
  expires :
      (i : ℕ) (c : C)
      → s.pc i ≡ asleep c
      → (code c).timed ≡ true
      → Step code s (record s { pc = update s.pc i (expired c) })
  gives_up :
      (i : ℕ) (c : C)
      → s.pc i ≡ expired c
      → Step code s (record { shared = run (code c).late s.shared; pc = update s.pc i outside })

pub data Steps {ℓ} {C S : Type ℓ} (code : C → Section S) (s : System C S)
    : System C S → Type ℓ where
  here : Steps code s s
  then_ : {t u : System C S} → Steps code s t → Step code t u → Steps code s u
