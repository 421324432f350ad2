-- ===== src/Lock/Progress.antt =====
-- The run of one section.
use empool.Base.{
  Bool-cases, Option-cases, inl, inr, true, arith, ℕ, ◌≡◌, ◌≢◌, ◌∙◌, refl, ap, subst, false, none,
  some, List, [], ◌∷◌, update, update-at, update-other, if◌then◌else◌,
}
use empool.Lock.{Notice, no_notice, one_notice, all_notice, Section, run}
use empool.Lock.Exclusion.{is_inside, inside-cases, mutual_exclusion, Steps-OwnerInside}
use empool.Lock.System.{
  start, outside, locking, testing, asleep, running, Pc, System, wake, notify, test, locks, tests,
  moves, unlocks, Steps, here, then_,
}

test_goes_on {ℓ} :
    {C S : Type ℓ} (code : C → Section S) (s : System C S) (i j : ℕ) (c : C)
    → (code c).waits s.shared ≡ false
    → test code s i j c ≡ record s {
      pc = update (notify ((code c).notice s.shared) j s.pc) i (running (code c).body);
    }
test_goes_on code s i j c e =
    ap
      (λ b. if b then record s { owner = none; pc = update s.pc i (asleep c) } else record s {
        pc = update (notify ((code c).notice s.shared) j s.pc) i (running (code c).body);
      })
      e

notify-other {ℓ} :
    {C S : Type ℓ} (n : Notice) (j : ℕ) (pc : ℕ → Pc C S) (i : ℕ) (p : Pc C S) (k : ℕ)
    → i ≢ k
    → notify n j (update pc i p) k ≡ notify n j pc k
notify-other no_notice j pc i p k other = update-other pc i p k other
notify-other one_notice j pc i p k other = ground (arith, other)
notify-other all_notice j pc i p k other = ap wake (update-other pc i p k other)

module _ {ℓ} {C S : Type ℓ} {code : C → Section S} where
  pub Steps-append : {s t u : System C S} → Steps code s t → Steps code t u → Steps code s u
  Steps-append r here = r
  Steps-append r (then_ q st) = then_ (Steps-append r q) st

  statements_run :
      {r : System C S} (i : ℕ) (fs : List (S → S)) (s : System C S)
      → Steps code r s
      → s.pc i ≡ running fs
      → (t : System C S) × Steps code r t
        × (t.pc i ≡ outside)
        × (t.owner ≡ none)
        × (t.shared ≡ run fs s.shared)
        × ((k : ℕ) → i ≢ k → t.pc k ≡ s.pc k)
  statements_run i [] s r e =
      (_, then_ r (unlocks i e), update-at s.pc i outside, refl, refl, update-other s.pc i outside)
  statements_run i (f ∷ fs) s r e =
      let rest =
        statements_run i fs (record s { shared = f s.shared; pc = update s.pc i (running fs) })
          (then_ r (moves i f fs e)) (update-at s.pc i (running fs)) in
      (
        rest.0,
        rest.1,
        rest.2,
        rest.3,
        rest.4,
        λ k other. rest.5 k other ∙ update-other s.pc i (running fs) k other,
      )

  -- A thread that waits for the free mutex, and whose condition to wait does not hold, can get it,
  -- runs its section and leaves the mutex free, with all statements of the section done; to the
  -- other threads only its notice has happened.
  pub section_runs :
      (s : System C S) (i j : ℕ) (c : C)
      → s.owner ≡ none
      → s.pc i ≡ locking c
      → (code c).waits s.shared ≡ false
      → (t : System C S) × Steps code s t
        × (t.pc i ≡ outside)
        × (t.owner ≡ none)
        × (t.shared ≡ run (code c).body s.shared)
        × ((k : ℕ) → i ≢ k → t.pc k ≡ notify ((code c).notice s.shared) j s.pc k)
  section_runs s i j c free e goes_on =
      let s1 : System C S = record s { owner = some i; pc = update s.pc i (testing c) } in
      let told = notify ((code c).notice s.shared) j s1.pc in
      let rest =
        statements_run i (code c).body (record s1 { pc = update told i (running (code c).body) })
          (subst (Steps code s) (test_goes_on code s1 i j c goes_on)
            (then_ (then_ here (locks i c e free)) (tests i j c (update-at s.pc i (testing c)))))
          (update-at told i (running (code c).body)) in
      (
        rest.0,
        rest.1,
        rest.2,
        rest.3,
        rest.4,
        λ k other.
            rest.5 k other
            ∙ update-other told i (running (code c).body) k other
            ∙ notify-other ((code c).notice s.shared) j s.pc i (testing c) k other,
      )

  test_frees :
      (s : System C S) (i : ℕ) (c : C)
      → s.pc i ≡ testing c
      → (t : System C S) × Steps code s t × (t.owner ≡ none)
  test_frees s i c e = elim (Bool-cases ((code c).waits s.shared)) [
    | inl waits ↦ (test code s i i c, then_ here (tests i i c e), ground (arith, waits))
    | inr goes_on ↦
        let told = notify ((code c).notice s.shared) i s.pc in
        let rest =
          statements_run i (code c).body (record s { pc = update told i (running (code c).body) })
            (subst (Steps code s) (test_goes_on code s i i c goes_on) (then_ here (tests i i c e)))
            (update-at told i (running (code c).body)) in
        (rest.0, rest.1, rest.3)
  ]

  owner_frees :
      (s : System C S) (i : ℕ)
      → is_inside (s.pc i) ≡ true
      → (t : System C S) × Steps code s t × (t.owner ≡ none)
  owner_frees s i h = elim (inside-cases (s.pc i) h) [
    | inl (c, e) ↦ test_frees s i c e
    | inr (fs, e) ↦ let rest = statements_run i fs s here e in (rest.0, rest.1, rest.3)
  ]

  -- Mutual exclusion without a deadlock, in every state that threads come to from one where all are
  -- outside, whatever sections they run: no thread is past `Lock` and not in a wait while another
  -- is, and the threads can go on to a state where the mutex is free.
  pub exclusive_and_freed :
      {shared : S} {s : System C S}
      → Steps code (start shared) s
      → ((i j : ℕ) → i ≢ j → is_inside (s.pc i) ≡ true → is_inside (s.pc j) ≡ false)
        × ((t : System C S) × Steps code s t × (t.owner ≡ none))
  exclusive_and_freed {s} r = (mutual_exclusion r, freed)
    where
      freed : (t : System C S) × Steps code s t × (t.owner ≡ none)
      freed = elim (Option-cases s.owner) [
        | inl free ↦ (s, here, free)
        | inr (i, mine) ↦ owner_frees s i (Steps-OwnerInside r i mine)
      ]
