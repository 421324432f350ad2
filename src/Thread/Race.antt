-- ===== src/Thread/Race.antt =====
-- The new thread calls through `m_thread`, which the creating thread may not have set yet.
use empool.Base.{◌∙◌, ℕ, ◌≡◌, ◌≢◌, refl, Bool, true, false, arith}
use empool.Thread.System.{
  ParentPc, initialising, created_, built, start, ChildPc, unborn, born, working, reporting, ended,
  crashed, System, Step, fails, creates, marks, resets, asks, spins, gets, goes_on, destroys, skips,
  joins, stores, works, reports, crashes, Steps, here, then_,
}

abbrev is_crashed : ChildPc → Bool
is_crashed crashed = true
is_crashed _ = false

Safe : System → Type 0
Safe s = (s.has_pointer ≡ true) × (is_crashed s.child ≡ false)

Step-Safe : {gettid : ℕ} {s t : System} → Step gettid s t → Safe s → Safe t
unfolding Safe
Step-Safe (fails r m p e) v = v
Step-Safe (creates p q) v = ground (arith, v)
Step-Safe (marks p) v = v
Step-Safe (resets p) v = ground (arith, v)
Step-Safe (asks p) v = v
Step-Safe (spins p z) v = v
Step-Safe (gets p nz) v = v
Step-Safe (goes_on n p) v = v
Step-Safe (destroys p e) v = v
Step-Safe (skips p e) v = v
Step-Safe (joins p e) v = v
Step-Safe (stores e) v = ground (arith, v)
Step-Safe (works e) v = ground (arith, v)
Step-Safe (reports e h nz) v = ground (arith, v)
Step-Safe (crashes e h) v = ground (arith, v)

Steps-Safe : {gettid : ℕ} {s t : System} → Steps gettid s t → Safe s → Safe t
Steps-Safe here v = v
Steps-Safe (then_ r st) v = Step-Safe st (Steps-Safe r v)

-- Between `pthread_create` and `m_thread.reset`, and after that.
abbrev pub is_constructing : ParentPc → Bool
is_constructing created_ = true
is_constructing built = true
is_constructing p = false

abbrev pub is_past_reset : ParentPc → Bool
is_past_reset initialising = false
is_past_reset created_ = false
is_past_reset built = false
is_past_reset p = true

abbrev is_unborn : ChildPc → Bool
is_unborn unborn = true
is_unborn c = false

abbrev is_ended : ChildPc → Bool
is_ended ended = true
is_ended c = false

abbrev Inv : System → Type 0
Inv s =
    (s.has_pointer ≡ is_past_reset s.parent)
    × (is_constructing s.parent ≡ true → is_unborn s.child ≡ false)
    × (is_ended s.child ≡ true → s.has_pointer ≡ true)

Step-Inv : {gettid : ℕ} {s t : System} → Step gettid s t → Inv s → Inv t
Step-Inv (fails r m p e) v = v
Step-Inv (creates p q) v = ground (arith, v)
Step-Inv (marks p) v = ground (arith, v)
Step-Inv (resets p) v = ground (arith, v)
Step-Inv (asks p) v = ground (arith, v)
Step-Inv (spins p z) v = v
Step-Inv (gets p nz) v = ground (arith, v)
Step-Inv (goes_on n p) v = ground (arith, v)
Step-Inv (destroys p e) v = ground (arith, v)
Step-Inv (skips p e) v = ground (arith, v)
Step-Inv (joins p e) v = ground (arith, v)
Step-Inv (stores e) v = ground (arith, v)
Step-Inv (works e) v = ground (arith, v)
Step-Inv (reports e h nz) v = ground (arith, v)
Step-Inv (crashes e h) v = ground (arith, v)

Steps-Inv : {gettid : ℕ} {s : System} → Steps gettid start s → Inv s
Steps-Inv here = (refl, λ e. absurd (cc e), λ e. absurd (cc e))
Steps-Inv (then_ r st) = Step-Inv st (Steps-Inv r)

-- A state with a call through the null pointer, to which only the new thread goes.
abbrev pub CanCrash : ℕ → System → Type 0
CanCrash gettid s = (t : System) × Steps gettid s t × (t.child ≡ crashed) × (t.parent ≡ s.parent)

crash_from :
    (gettid : ℕ) (s : System) (c : ChildPc)
    → s.child ≡ c
    → s.has_pointer ≡ false
    → is_unborn c ≡ false
    → is_ended c ≡ false
    → CanCrash gettid s
crash_from gettid s unborn e null u n = absurd (cc u)
crash_from gettid s born e null u n =
    (_, then_ (then_ (then_ here (stores e)) (works refl)) (crashes refl null), refl, refl)
crash_from gettid s working e null u n =
    (_, then_ (then_ here (works e)) (crashes refl null), refl, refl)
crash_from gettid s reporting e null u n = (_, then_ here (crashes e null), refl, refl)
crash_from gettid s ended e null u n = absurd (cc n)
crash_from gettid s crashed e null u n = (s, here, e, refl)

-- In every state that the creation of a thread comes to: as long as the creating thread is between
-- `pthread_create` and `m_thread.reset`, the new thread can come to call through the null pointer by
-- steps of its own; once the creating thread is past `m_thread.reset`, and that has not happened, it
-- never happens.
pub null_before_reset :
    {gettid : ℕ} {s : System}
    → Steps gettid start s
    → (is_constructing s.parent ≡ true → CanCrash gettid s)
      × (is_past_reset s.parent ≡ true
          → s.child ≢ crashed
          → (t : System) → Steps gettid s t
          → t.child ≢ crashed)
unfolding Safe
null_before_reset {gettid} {s} r =
    let v = Steps-Inv r in
    (
      λ c. crash_from gettid s s.child refl (ground (arith, v, c)) (v.1 c) (ground (arith, v, c)),
      λ p fine t r e. ground (arith, Steps-Safe r (v.0 ∙ p, ground (arith, fine)), e),
    )
