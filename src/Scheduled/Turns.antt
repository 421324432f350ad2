-- ===== src/Scheduled/Turns.antt =====
-- The arithmetic of a turn that goes round `n` places.
use empool.Base.{ℕ, ◌+◌, ◌*◌, ◌%◌, ◌<◌, ◌≡◌, arith, one_if, ltb, ◌==◌, ◌∙◌, ap, dec_lt}
use native.Mathlib.Nat.{add-mul, mul-add-mod_self_right, mod-eq_of_lt}

-- All places have had `q` turns, and those before place `r`, whose turn it is, one more.
pub record Dealt (n index : ℕ) (share : ℕ → ℕ) (q r : ℕ) : Type 0 where
  pub in_range : r < n
  pub turn : index ≡ q * n + r
  pub shares : (i : ℕ) → i < n → share i ≡ q + one_if (ltb i r)

-- The turn goes round.
pub next-Dealt :
    {n index : ℕ} {share : ℕ → ℕ} (q r : ℕ) (share' : ℕ → ℕ)
    → ((i : ℕ) → share' i ≡ share i + one_if (i == index % n))
    → Dealt n index share q r
    → (q' : ℕ) × (r' : ℕ) × Dealt n (index + 1) share' q' r'
next-Dealt {n} {index} q r share' more d = elim (dec_lt (r + 1) n) [
  | yes before ↦ (
    q,
    r + 1,
    record {
      in_range = before;
      turn = omega (arith, d.turn);
      shares = λ i lt. ground (arith, more i, d.shares i lt, at_turn);
    },
  )
  | no last ↦ (
    q + 1,
    0,
    record {
      in_range = ground (arith, d.in_range);
      turn = omega (arith, d.turn, d.in_range, add-mul q 1 n);
      shares = λ i lt. ground (arith, more i, d.shares i lt, at_turn, d.in_range);
    },
  )
]
  where
    at_turn : index % n ≡ r
    at_turn = ap (λ k. k % n) d.turn ∙ mul-add-mod_self_right q n r ∙ mod-eq_of_lt d.in_range
