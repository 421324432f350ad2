-- ===== src/Scheduled/Bystanders.antt =====
-- Steps that do not shut a pool down leave its phase as it is.
use empool.Base.{
  ℕ, ◌≡◌, refl, Bool, true, false, arith, update_cases, update_elim, update-other, subst, sym,
}
use empool.Timer.Handler.{Handler, State}
use empool.Scheduled.System.{
  Pc, outside, checked, adding, answered, stopping, at_handler_number, closing, joining, shut,
  System, put, go_to,
}
use empool.Scheduled.Phases.{
  Progress, Quiet, Over, Phase, open_, shutting, over, Keeps, Fresh-Keeps, Closed-Keeps, Done-Keeps,
}

pub Keeps-refl : (h : Handler) → Keeps h h
Keeps-refl h = record { same_shut = refl; same_close = refl; still_ended = λ e. e }

-- The handlers change, but not their flags.
module _ (n : ℕ) (h h' : ℕ → Handler) (keeps : (i : ℕ) → Keeps (h i) (h' i)) where
  Progress-Keeps : (p : Pc) → Progress n h p → Progress n h' p
  Progress-Keeps (stopping now) g = λ i. Fresh-Keeps (keeps i) (g i)
  Progress-Keeps (at_handler_number now k) g =
      (g.0, λ i lt. Done-Keeps (keeps i) (g.1 i lt), λ i le. Fresh-Keeps (keeps i) (g.2 i le))
  Progress-Keeps (closing now k) g = (
    g.0,
    λ i lt. Done-Keeps (keeps i) (g.1 i lt),
    λ i lt. Fresh-Keeps (keeps i) (g.2 i lt),
    ground (arith, (keeps k).same_shut, g.3),
    ground (arith, (keeps k).same_close, g.4),
  )
  Progress-Keeps (joining now k) g = (
    g.0,
    λ i lt. Done-Keeps (keeps i) (g.1 i lt),
    λ i lt. Fresh-Keeps (keeps i) (g.2 i lt),
    Closed-Keeps (keeps k) g.3,
  )
  Progress-Keeps outside g = absurd g
  Progress-Keeps (checked req x) g = absurd g
  Progress-Keeps (adding now req x i p) g = absurd g
  Progress-Keeps (answered r) g = absurd g
  Progress-Keeps (shut now won) g = absurd g

put-Keeps :
    (s : System) (i : ℕ) (h : State)
    → Keeps (s.pool.handlers i) h.handler
    → (k : ℕ) → Keeps (s.pool.handlers k) ((put s i h).pool.handlers k)
put-Keeps s i h keeps =
    update_cases (λ k c. Keeps (s.pool.handlers k) c) s.pool.handlers i h.handler keeps
      (λ k ne. Keeps-refl (s.pool.handlers k))

pub put-Phase :
    {n : ℕ} (s : System) (i : ℕ) (h : State)
    → Keeps (s.pool.handlers i) h.handler
    → Phase n s
    → Phase n (put s i h)
put-Phase s i h keeps (open_ f r fresh q) =
    open_ f r (λ k. Fresh-Keeps (put-Keeps s i h keeps k) (fresh k)) q
put-Phase {n} s i h keeps (shutting j f r g q) =
    shutting j f r (Progress-Keeps n s.pool.handlers _ (put-Keeps s i h keeps) (s.pc j) g) q
put-Phase s i h keeps (over now f r done q) =
    over now f r (λ k lt. Done-Keeps (put-Keeps s i h keeps k) (done k lt)) q

-- A thread that is not in `ShutDownHelper` goes on.
abbrev pub Aside : Pc → Type 0
Aside (stopping now) = ⊥
Aside (at_handler_number now k) = ⊥
Aside (closing now k) = ⊥
Aside (joining now k) = ⊥
Aside _ = Unit

Progress-Aside : (n : ℕ) (h : ℕ → Handler) (p : Pc) → Progress n h p → Aside p → ⊥
Progress-Aside n h (stopping now) g a = a
Progress-Aside n h (at_handler_number now k) g a = a
Progress-Aside n h (closing now k) g a = a
Progress-Aside n h (joining now k) g a = a
Progress-Aside n h outside g a = g
Progress-Aside n h (checked req x) g a = g
Progress-Aside n h (adding now req x i p) g a = g
Progress-Aside n h (answered r) g a = g
Progress-Aside n h (shut now won) g a = g

pub Over-Quiet : (now : Bool) (p : Pc) → Quiet p → Over now p
Over-Quiet now (shut now' true) q = absurd q
Over-Quiet now (shut now' false) q = q
Over-Quiet now outside q = q
Over-Quiet now (checked req x) q = q
Over-Quiet now (adding time req x i p) q = q
Over-Quiet now (answered r) q = q
Over-Quiet now (stopping now') q = q
Over-Quiet now (at_handler_number now' k) q = q
Over-Quiet now (closing now' k) q = q
Over-Quiet now (joining now' k) q = q

pub go_to-Phase :
    {n : ℕ} (s : System) (j : ℕ) (p : Pc)
    → Aside (s.pc j)
    → Quiet p
    → Phase n s
    → Phase n (go_to s j p)
go_to-Phase s j p aside quiet (open_ f r fresh q) =
    open_ f r fresh (update_elim (λ k. Quiet) s.pc j p quiet q)
go_to-Phase {n} s j p aside quiet (shutting k f r g q) =
    shutting k f r (subst (Progress n s.pool.handlers) (sym (update-other s.pc j p k other)) g)
      (update_cases (λ i c. ¬ (k ≡ i) → Quiet c) s.pc j p (λ ne. quiet) (λ i ne. q i))
  where
    other : ¬ (j ≡ k)
    other e = Progress-Aside n s.pool.handlers (s.pc k) g (subst (λ i. Aside (s.pc i)) e aside)
go_to-Phase s j p aside quiet (over now f r done q) =
    over now f r done (update_elim (λ k. Over now) s.pc j p (Over-Quiet now p quiet) q)
