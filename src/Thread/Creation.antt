-- ===== src/Thread/Creation.antt =====
-- How long `Init` tries.
use empool.Base.{
  ℕ, zero, suc, ◌+◌, ◌<◌, ◌≡◌, refl, ◌∙◌, ap, subst, Bool, true, false, arith, if◌then◌else◌,
}
use empool.Thread.{
  attempt, CreateResult, created, eagain, einval, eperm, other_error, construct, create_error,
  Launch, init, not_launched,
}

-- `Init` after `n` attempts that failed.
abbrev pub failed : ℕ → Launch
failed n = record { failures = n; leaked = n; is_launched = false }

abbrev pub is_created : CreateResult → Bool
is_created created = true
is_created _ = false

abbrev pub launched : ℕ → Launch
launched n = record { failures = n; leaked = n; is_launched = true }

attempt-created :
    (r : CreateResult) (n : ℕ) → is_created r ≡ true → attempt (construct r) (failed n) ≡ launched n
unfolding construct create_error
attempt-created created n e = refl
attempt-created eagain n e = absurd (ground (arith, e))
attempt-created einval n e = absurd (ground (arith, e))
attempt-created eperm n e = absurd (ground (arith, e))
attempt-created other_error n e = absurd (ground (arith, e))

attempt-failed :
    (r : CreateResult) (n : ℕ)
    → is_created r ≡ false
    → attempt (construct r) (failed n) ≡ failed (suc n)
unfolding construct create_error
attempt-failed created n e = absurd (ground (arith, e))
attempt-failed eagain n e = ap (λ k. record (failed (suc n)) { leaked = k }) (omega arith)
attempt-failed einval n e = ap (λ k. record (failed (suc n)) { leaked = k }) (omega arith)
attempt-failed eperm n e = ap (λ k. record (failed (suc n)) { leaked = k }) (omega arith)
attempt-failed other_error n e = ap (λ k. record (failed (suc n)) { leaked = k }) (omega arith)

go_on : ℕ → (ℕ → CreateResult) → Launch → Launch
go_on fuel results l = if l.is_launched then l else init fuel results l

init_from :
    (fuel k n : ℕ) (results : ℕ → CreateResult)
    → ((m : ℕ) → m < n + k → is_created (results m) ≡ false)
    → is_created (results (n + k)) ≡ true
    → k < fuel
    → init fuel results (failed n) ≡ launched (n + k)
unfolding init go_on
init_from zero k n results failing success enough = absurd (omega arith)
init_from (suc fuel) zero n results failing success enough =
    ap (go_on fuel results) (
      attempt-created (results n) n
        (subst (λ m. is_created (results m) ≡ true) (omega arith) success))
    ∙ ap launched (omega arith)
init_from (suc fuel) (suc k) n results failing success enough =
    ap (go_on fuel results) (attempt-failed (results n) n (failing n (omega arith)))
    ∙ init_from fuel k (suc n) results (λ m lt. failing m (omega arith))
        (subst (λ m. is_created (results m) ≡ true) (omega arith) success) (omega arith)
    ∙ ap launched (omega arith)

-- `CloseableThread::Init` returns as soon as `pthread_create` succeeds, whatever the errors before:
-- if the first `n` calls fail and the next one does not, it makes these calls and no more, and has
-- left the `Args` of each of the `n` that failed behind.
pub init_tries :
    (n fuel : ℕ) (results : ℕ → CreateResult)
    → ((m : ℕ) → m < n → is_created (results m) ≡ false)
    → is_created (results n) ≡ true
    → n < fuel
    → init fuel results not_launched ≡ launched n
init_tries n fuel results failing success enough =
    init_from fuel n 0 results (λ m lt. failing m (omega arith))
      (subst (λ m. is_created (results m) ≡ true) (omega arith) success) enough
    ∙ ap launched (omega arith)
