-- ===== src/Scheduled/Shutter.antt =====
-- The one thread that is in `ShutDownHelper` of a pool.
use empool.Base.{
  ℕ, ◌≡◌, Bool, true, update, update-other, update-at, subst, sym, ap, ◌∙◌, ℕ_discrete,
}
use empool.Scheduled.{shutdown}
use empool.Scheduled.System.{
  Pc, outside, checked, adding, answered, stopping, at_handler_number, closing, joining, shut,
  System,
}
use empool.Scheduled.Phases.{Progress, Quiet, Over, Phase, open_, shutting, over}
use empool.Scheduled.Bystanders.{Aside}

Aside-Quiet : (p : Pc) → Quiet p → Aside p
Aside-Quiet (stopping now) q = q
Aside-Quiet (at_handler_number now k) q = q
Aside-Quiet (closing now k) q = q
Aside-Quiet (joining now k) q = q
Aside-Quiet outside q = tt
Aside-Quiet (checked req x) q = tt
Aside-Quiet (adding now req x i p) q = tt
Aside-Quiet (answered r) q = tt
Aside-Quiet (shut now won) q = tt

Aside-Over : (now : Bool) (p : Pc) → Over now p → Aside p
Aside-Over now (stopping now') q = q
Aside-Over now (at_handler_number now' k) q = q
Aside-Over now (closing now' k) q = q
Aside-Over now (joining now' k) q = q
Aside-Over now outside q = tt
Aside-Over now (checked req x) q = tt
Aside-Over now (adding time req x i p) q = tt
Aside-Over now (answered r) q = tt
Aside-Over now (shut now' won) q = tt

-- What holds while thread `j` is in `ShutDownHelper`.
pub record Shutter (n : ℕ) (s : System) (j : ℕ) (p : Pc) : Type 0 where
  pub asked : s.pool.is_request_shut_down ≡ true
  pub not_over : s.pool.state ≡ shutdown → ⊥
  pub progress : Progress n s.pool.handlers p
  pub others : (k : ℕ) → ¬ (j ≡ k) → Quiet (s.pc k)

pub Phase-Shutter :
    {n : ℕ} {s : System} (j : ℕ) (p : Pc) → s.pc j ≡ p → (Aside p → ⊥) → Phase n s → Shutter n s j p
Phase-Shutter j p e busy (open_ f r fresh q) = absurd (busy (Aside-Quiet p (subst Quiet e (q j))))
Phase-Shutter {n} {s} j p e busy (shutting k f r g q) = elim (ℕ_discrete k j) [
  | yes same ↦ record {
    asked = f;
    not_over = r;
    progress = subst (Progress n s.pool.handlers) (ap s.pc same ∙ e) g;
    others = λ i ne. q i (λ d. ne (sym same ∙ d));
  }
  | no other ↦ absurd (busy (Aside-Quiet p (subst Quiet e (q j other))))
]
Phase-Shutter j p e busy (over now f r done q) =
    absurd (busy (Aside-Over now p (subst (Over now) e (q j))))

-- The next state of the shutter.
pub next-Phase :
    {n : ℕ} {s : System} {j : ℕ} {p : Pc} (t : System) (p' : Pc)
    → Shutter n s j p
    → t.pool.is_request_shut_down ≡ s.pool.is_request_shut_down
    → (t.pool.state ≡ shutdown → ⊥)
    → t.pc ≡ update s.pc j p'
    → Progress n t.pool.handlers p'
    → Phase n t
next-Phase {n} {s} {j} t p' sh flag not_over pc g =
    shutting j (flag ∙ sh.asked) not_over
      (subst (Progress n t.pool.handlers) (sym (ap (λ f. f j) pc ∙ update-at s.pc j p')) g)
      (λ k ne.
        subst (λ f. Quiet (f k)) (sym pc)
          (subst Quiet (sym (update-other s.pc j p' k ne)) (sh.others k ne)))
