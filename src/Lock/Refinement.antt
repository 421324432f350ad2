-- ===== src/Lock/Refinement.antt =====
-- Sections run statement by statement, and in one step each.
use empool.Base.{
  ℕ, ◌≡◌, refl, sym, ap, ◌∙◌, subst, fun_ext, ◌⊎◌, inl, inr, Bool, true, false, Option, none, some,
  List, [], arith, update, update_elim, update-at, if◌then◌else◌,
}
use empool.Lock.{Notice, no_notice, one_notice, all_notice, Section, run}
use empool.Lock.System.{
  Pc, outside, locking, testing, asleep, expired, running, System, wake, notify, test, Step, enters,
  locks, tests, moves, unlocks, stirs, expires, gives_up, Steps, here, then_, start,
}
use empool.Lock.Atomic
use empool.Lock.Exclusion.{is_inside, Owned, Steps-Owned}

module _ {ℓ} {C S : Type ℓ} where
  abbrev pub view : Pc C S → Atomic.Pc C
  view (locking c) = Atomic.entering c
  view (testing c) = Atomic.entering c
  view (asleep c) = Atomic.asleep c
  view (expired c) = Atomic.expired c
  view _ = Atomic.outside

  -- The statements that a thread has left.
  abbrev pub rest : Pc C S → List (S → S)
  rest (running fs) = fs
  rest _ = []

  -- The shared state once the owner of the mutex is through.
  abbrev pub settled : Option ℕ → (ℕ → Pc C S) → S → S
  settled none pc shared = shared
  settled (some i) pc shared = run (rest (pc i)) shared

  abbrev pub abs : System C S → Atomic.System C S
  abs s = record { shared = settled s.owner s.pc s.shared; pc = λ i. view (s.pc i) }

  view-wake : (p : Pc C S) → view (wake p) ≡ Atomic.wake (view p)
  view-wake outside = refl
  view-wake (locking c) = refl
  view-wake (testing c) = refl
  view-wake (asleep c) = refl
  view-wake (expired c) = refl
  view-wake (running fs) = refl

  rest-wake : (p : Pc C S) → rest (wake p) ≡ rest p
  rest-wake outside = refl
  rest-wake (locking c) = refl
  rest-wake (testing c) = refl
  rest-wake (asleep c) = refl
  rest-wake (expired c) = refl
  rest-wake (running fs) = refl

  view-update :
      (pc : ℕ → Pc C S) (i : ℕ) (p : Pc C S) (q : Atomic.Pc C)
      → view p ≡ q
      → (λ k. view (update pc i p k)) ≡ update (λ k. view (pc k)) i q
  view-update pc i p q e = fun_ext (λ k. ground (arith, e))

  view-notify :
      (n : Notice) (j : ℕ) (pc : ℕ → Pc C S)
      → (λ k. view (notify n j pc k)) ≡ Atomic.notify n j (λ k. view (pc k))
  view-notify no_notice j pc = refl
  view-notify one_notice j pc = view-update pc j (wake (pc j)) _ (view-wake (pc j))
  view-notify all_notice j pc = fun_ext (λ k. view-wake (pc k))

  settled-update :
      (o : Option ℕ) (pc : ℕ → Pc C S) (i : ℕ) (p : Pc C S) (shared : S)
      → rest p ≡ rest (pc i)
      → settled o (update pc i p) shared ≡ settled o pc shared
  settled-update none pc i p shared e = refl
  settled-update (some k) pc i p shared e =
      update_elim (λ j q. run (rest q) shared ≡ run (rest (pc j)) shared) pc i p
        (ap (λ fs. run fs shared) e) (λ j. refl) k

  System-eq :
      {x y : S} {p q : ℕ → Atomic.Pc C}
      → x ≡ y
      → p ≡ q
      → ◌≡◌ {A = Atomic.System C S} (record { shared = x; pc = p }) (record { shared = y; pc = q })
  System-eq e h = cc

  update-same :
      (pc : ℕ → Pc C S) (i : ℕ) (p : Pc C S)
      → view p ≡ view (pc i)
      → ◌≡◌ {A = ℕ → Atomic.Pc C} (λ k. view (update pc i p k)) (λ k. view (pc k))
  update-same pc i p e = fun_ext (update_elim (λ k q. view q ≡ view (pc k)) pc i p e (λ k. refl))

  pub settled-owner :
      {o : Option ℕ} {i : ℕ} {p : Pc C S} (pc : ℕ → Pc C S) (shared : S)
      → o ≡ some i
      → pc i ≡ p
      → settled o pc shared ≡ run (rest p) shared
  settled-owner {i} pc shared mine e =
      ap (λ o. settled o pc shared) mine ∙ ap (λ p. run (rest p) shared) e

  pub settled-free :
      {o : Option ℕ} (pc : ℕ → Pc C S) (shared : S) → o ≡ none → settled o pc shared ≡ shared
  settled-free pc shared free = ap (λ o. settled o pc shared) free

  settled-mine :
      (pc : ℕ → Pc C S) (i : ℕ) (p : Pc C S) (shared : S)
      → settled (some i) (update pc i p) shared ≡ run (rest p) shared
  settled-mine pc i p shared = settled-owner (update pc i p) shared refl (update-at pc i p)

  -- A step that moves one thread by itself.
  moved :
      (s : System C S) (i : ℕ) {from : Pc C S} (p : Pc C S)
      → s.pc i ≡ from
      → rest p ≡ rest from
      → abs (record s { pc = update s.pc i p })
        ≡ record { shared = (abs s).shared; pc = update (abs s).pc i (view p) }
  moved s i p e h =
      System-eq (settled-update s.owner s.pc i p s.shared (h ∙ ap rest (sym e)))
        (view-update s.pc i p (view p) refl)

  test-perform_on :
      (code : C → Section S) (b : Bool) (s : System C S) (i j : ℕ) (c : C)
      → s.owner ≡ some i
      → abs (
          if b then record s { owner = none; pc = update s.pc i (asleep c) } else record s {
            pc = update (notify ((code c).notice s.shared) j s.pc) i (running (code c).body);
          })
        ≡ (if b
            then record { shared = s.shared; pc = update (abs s).pc i (Atomic.asleep c) }
            else record {
              shared = run (code c).body s.shared;
              pc = update (Atomic.notify ((code c).notice s.shared) j (abs s).pc) i Atomic.outside;
            })
  test-perform_on code true s i j c mine = System-eq refl (view-update s.pc i (asleep c) _ refl)
  test-perform_on code false s i j c mine =
      System-eq
        (ap
            (λ o.
              settled o
                (update (notify ((code c).notice s.shared) j s.pc) i (running (code c).body))
                s.shared)
            mine
          ∙ settled-mine (notify ((code c).notice s.shared) j s.pc) i (running (code c).body)
              s.shared)
        (view-update (notify ((code c).notice s.shared) j s.pc) i (running (code c).body) _ refl
          ∙ ap (λ f. update f i Atomic.outside) (view-notify ((code c).notice s.shared) j s.pc))

  test-perform :
      (code : C → Section S) (s : System C S) (i j : ℕ) (c : C)
      → s.owner ≡ some i
      → s.pc i ≡ testing c
      → abs (test code s i j c) ≡ Atomic.perform code (abs s) i j c
  test-perform code s i j c mine e =
      test-perform_on code ((code c).waits s.shared) s i j c mine
      ∙ ap (λ x. Atomic.perform code (record { shared = x; pc = (abs s).pc }) i j c)
          (sym (settled-owner s.pc s.shared mine e))

module _ {ℓ} {C S : Type ℓ} {code : C → Section S} where
  stepped :
      {a b x : Atomic.System C S} → Atomic.Step code a x → b ≡ x → (b ≡ a) ⊎ Atomic.Step code a b
  stepped {a} st e = inr (subst (Atomic.Step code a) (sym e) st)

  -- One step of the threads is no step or one step of their sections.
  Step-Simulated :
      {s t : System C S}
      → Step code s t
      → Owned s
      → (abs t ≡ abs s) ⊎ Atomic.Step code (abs s) (abs t)
  Step-Simulated {s} (enters i c e) h =
      stepped (Atomic.enters i c (ap view e)) (moved s i (locking c) e refl)
  Step-Simulated {s} (locks i c e free) h = inl (
      System-eq (settled-mine s.pc i (testing c) s.shared ∙ sym (settled-free s.pc s.shared free))
        (update-same s.pc i (testing c) (ap view (sym e))))
  Step-Simulated {s} (tests i j c e) h =
      stepped (Atomic.performs i j c (ap view e))
        (test-perform code s i j c (h i (ap is_inside e)) e)
  Step-Simulated {s} (moves i f fs e) h = inl (
      System-eq
        (settled-owner (update s.pc i (running fs)) (f s.shared) (h i (ap is_inside e))
            (update-at s.pc i (running fs))
          ∙ sym (settled-owner s.pc s.shared (h i (ap is_inside e)) e))
        (update-same s.pc i (running fs) (ap view (sym e))))
  Step-Simulated {s} (unlocks i e) h = inl (
      System-eq (sym (settled-owner s.pc s.shared (h i (ap is_inside e)) e))
        (update-same s.pc i outside (ap view (sym e))))
  Step-Simulated {s} (stirs i c e) h =
      stepped (Atomic.stirs i c (ap view e)) (moved s i (locking c) e refl)
  Step-Simulated {s} (expires i c e timed) h =
      stepped (Atomic.expires i c (ap view e) timed) (moved s i (expired c) e refl)
  Step-Simulated {s} (gives_up i c e free) h = stepped (Atomic.gives_up i c (ap view e)) (
      System-eq
        (settled-mine s.pc i (running (code c).late) s.shared
          ∙ ap (run (code c).late) (sym (settled-free s.pc s.shared free)))
        (view-update s.pc i (running (code c).late) _ refl))

  simulate :
      {a b c : Atomic.System C S}
      → Atomic.Steps code a b
      → (c ≡ b) ⊎ Atomic.Step code b c
      → Atomic.Steps code a c
  simulate {a} r (inl e) = subst (Atomic.Steps code a) (sym e) r
  simulate r (inr st) = Atomic.then_ r st

  -- The lockers make their sections atomic.
  pub refines_atomic :
      {shared : S} {s : System C S}
      → Steps code (start shared) s
      → Atomic.Steps code (abs (start shared)) (abs s)
  refines_atomic here = Atomic.here
  refines_atomic (then_ r st) = simulate (refines_atomic r) (Step-Simulated st (Steps-Owned r))
