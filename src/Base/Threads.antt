-- ===== src/Base/Threads.antt =====
-- Families `ℕ → A` indexed by thread: one entry changed, all entries changed, and how many of the
-- first `n` pass a test.
use Prim.Native.Nat.{ℕ, zero, suc, ◌+◌, ◌≤◌, ◌<◌}
use mathlib.Core.Path.{◌≡◌, refl, subst}
use mathlib.Core.Bool.{Bool, false}
use mathlib.Core.Logic.{ite}
use native.Mathlib.Decide.{dec_lt, ℕ_discrete}
use native.Mathlib.Omega.{arith}
use empool.Base.Tests.{if◌then◌else◌}

-- The family `f` with the entry of thread `i` replaced.
abbrev pub update {ℓ} : {A : Type ℓ} → (ℕ → A) → ℕ → A → ℕ → A
update f i a j = ite (ℕ_discrete i j) a (f j)

abbrev pub one_if : Bool → ℕ
one_if b = if b then 1 else 0

-- How many of the threads below `n` pass the test.
pub tally : (ℕ → Bool) → ℕ → ℕ
tally p zero = 0
tally p (suc n) = tally p n + one_if (p n)

pub tally-le : (p : ℕ → Bool) (n : ℕ) → tally p n ≤ n
unfolding tally
tally-le p zero = omega arith
tally-le p (suc n) = ground (arith, tally-le p n)

pub tally-eq-zero : (p : ℕ → Bool) (n : ℕ) → ((i : ℕ) → i < n → p i ≡ false) → tally p n ≡ 0
unfolding tally
tally-eq-zero p zero h = refl
tally-eq-zero p (suc n) h =
    ground (arith, tally-eq-zero p n (λ i lt. h i (omega arith)), h n (omega arith))

pub tally-congr : (p q : ℕ → Bool) (n : ℕ) → ((i : ℕ) → p i ≡ q i) → tally p n ≡ tally q n
unfolding tally
tally-congr p q zero h = refl
tally-congr p q (suc n) h = ground (arith, tally-congr p q n h, h n)

-- Families that agree except at thread `i` differ by that thread's share.
tally_beyond :
    (p q : ℕ → Bool) (i n : ℕ) → ((j : ℕ) → ¬ (i ≡ j) → p j ≡ q j) → n ≤ i → tally p n ≡ tally q n
unfolding tally
tally_beyond p q i zero h le = refl
tally_beyond p q i (suc n) h le = ground (arith, tally_beyond p q i n h, h n (omega arith))

pub tally_change :
    (p q : ℕ → Bool) (i n : ℕ)
    → ((j : ℕ) → ¬ (i ≡ j) → p j ≡ q j)
    → i < n
    → tally p n + one_if (q i) ≡ tally q n + one_if (p i)
unfolding tally
tally_change p q i zero h lt = absurd (omega arith)
tally_change p q i (suc n) h lt = elim (dec_lt i n) [
  | yes below ↦ ground (arith, tally_change p q i n h below, h n (omega arith))
  | no last ↦ ground (arith, tally_beyond p q i n h)
]

-- What holds of the new entry and of the other old ones holds of all.
pub update_cases {ℓ κ} :
    {A : Type ℓ} (P : ℕ → A → Type κ) (f : ℕ → A) (i : ℕ) (a : A)
    → P i a
    → ((j : ℕ) → ¬ (i ≡ j) → P j (f j))
    → (j : ℕ) → P j (update f i a j)
update_cases P f i a new old j = elim (ℕ_discrete i j) as (λ d. P j (ite d a (f j))) [
  | yes same ↦ subst (λ k. P k a) same new
  | no other ↦ old j other
]

pub update_elim {ℓ κ} :
    {A : Type ℓ} (P : ℕ → A → Type κ) (f : ℕ → A) (i : ℕ) (a : A)
    → P i a
    → ((j : ℕ) → P j (f j))
    → (j : ℕ) → P j (update f i a j)
update_elim P f i a new old = update_cases P f i a new (λ j _. old j)

pub update-at {ℓ} : {A : Type ℓ} (f : ℕ → A) (i : ℕ) (a : A) → update f i a i ≡ a
update-at f i a =
    update_cases (λ j x. i ≡ j → x ≡ a) f i a (λ _. refl) (λ j n e. absurd (n e)) i refl

pub update-other {ℓ} :
    {A : Type ℓ} (f : ℕ → A) (i : ℕ) (a : A) (j : ℕ) → ¬ (i ≡ j) → update f i a j ≡ f j
update-other f i a j =
    update_cases (λ k x. ¬ (i ≡ k) → x ≡ f k) f i a (λ n. absurd (n refl)) (λ k n _. refl) j
