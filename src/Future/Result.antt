-- ===== src/Future/Result.antt =====
-- What the callers of a task get.
use mathlib.Core.List.{mem-cons_self, mem-cons_of_mem}
use empool.Base.{ℕ, ◌≡◌, true, none, some, List, [], ◌∷◌, All, Mem, arith, if_elim}
use empool.Lock.System.{System, Steps, start}
use empool.Lock.Refinement.{abs}
use empool.Lock.Between.{Keeps, Steps-keeps}
use empool.Future.{
  Call, get_result, try_get_result, do_run, Answer, value, not_ready, Future, new_future, code,
  is_not_returned,
}

module _ {ℓ} {T : Type ℓ} where
  -- A value that a caller gets is one that `Call()` gave.
  abbrev pub Genuine : List T → Answer T → Type ℓ
  Genuine computed (value v) = Mem v computed
  Genuine computed not_ready = Unit

  abbrev pub AllGenuine : Future T → Type ℓ
  AllGenuine f = All (λ a. Genuine f.computed a.1) f.answers

  abbrev Sound : Future T → Type ℓ
  Sound f = (f.is_result_returned ≡ true → Mem f.result f.computed) × AllGenuine f

  Genuine-cons :
      (v : T) (computed : List T) (a : Answer T) → Genuine computed a → Genuine (v ∷ computed) a
  Genuine-cons v computed (value w) h = mem-cons_of_mem v h
  Genuine-cons v computed not_ready h = h

  All-Genuine-cons :
      (v : T) (computed : List T) (answers : List (ℕ × Answer T))
      → All (λ a. Genuine computed a.1) answers
      → All (λ a. Genuine (v ∷ computed) a.1) answers
  All-Genuine-cons v computed [] h = h
  All-Genuine-cons v computed (a ∷ answers) (h, hs) =
      (Genuine-cons v computed a.1 h, All-Genuine-cons v computed answers hs)

  code-keeps : Keeps {C = Call T} code Sound
  code-keeps (get_result i) f (r, hs) = (λ e. (r, (r (ground (arith, e)), hs)), (r, hs))
  code-keeps (try_get_result i) f (r, hs) = (
    λ e.
        if_elim Sound (is_not_returned f) (λ n. (r, (tt, hs)))
          (λ n. (r, (r (ground (arith, n)), hs))),
    (r, hs),
  )
  code-keeps (do_run none) f v = ((λ e. v), v)
  code-keeps (do_run (some w)) f (r, hs) =
      (λ e. ((λ e. mem-cons_self), All-Genuine-cons w f.computed f.answers hs), (r, hs))

  pub answers_computed :
      {blank : T} {s : System (Call T) (Future T)}
      → Steps code (start (new_future blank)) s
      → AllGenuine (abs s).shared
  answers_computed r = (Steps-keeps Sound code-keeps ((λ e. absurd (ground arith)), tt) r).1
