-- ===== src/Scheduled/Closing.antt =====
-- The steps of `ShutDownHelper`, and the phases of a pool.
use empool.Base.{
  ℕ, suc, ◌<◌, ◌≡◌, refl, inl, inr, Bool, true, false, arith, update, update_cases, update-other,
  update-at, subst, sym, ap, Bool-cases, if◌then◌else◌, ℕ_discrete,
}
use empool.Closeable.{compare_exchange, finished}
use empool.Timer.Handler.{Handler, State, push_end, close_thread}
use empool.Scheduled.{stop, shutdown}
use empool.Scheduled.Shutdown.{Closed}
use empool.Scheduled.System.{
  Pc, stopping, at_handler_number, closing, joining, shut, System, handler, put, go_to,
  after_exchange, after_close,
}
use empool.Scheduled.Phases.{Fresh, Done, Progress, Quiet, Over, Phase, open_, shutting, over}
use empool.Scheduled.Bystanders.{Aside, Over-Quiet, go_to-Phase}
use empool.Scheduled.Shutter.{Phase-Shutter, next-Phase}

pub stops-Phase :
    {n : ℕ} (s : System) (j : ℕ) (now : Bool)
    → s.pc j ≡ stopping now
    → Phase n s
    → Phase n (record s {
      pool = record (s.pool) { state = stop };
      pc = update s.pc j (at_handler_number now 0);
    })
stops-Phase s j now e v =
    let sh = Phase-Shutter j (stopping now) e (λ a. a) v in
    next-Phase _ (at_handler_number now 0) sh refl (λ d. ground (arith, d)) refl
      (omega arith, λ i lt. absurd (omega arith), λ i le. sh.progress i)

-- The handlers but `k` are as before.
module _ {ℓ} (h : ℕ → Handler) (k : ℕ) (c : Handler) (P : Handler → Type ℓ) where
  other_handler : (i : ℕ) → ¬ (k ≡ i) → P (h i) → P (update h k c i)
  other_handler i ne = subst P (sym (update-other h k c i ne))

  this_handler : P c → P (update h k c k)
  this_handler = subst P (sym (update-at h k c))

-- What holds of the handlers below `k`, and of the new handler `k`.
up_to {ℓ} :
    (P : Handler → Type ℓ) (h : ℕ → Handler) (k : ℕ) (c : Handler)
    → ((i : ℕ) → i < k → P (h i))
    → P c
    → (i : ℕ) → i < suc k
    → P (update h k c i)
up_to P h k c below at =
    update_cases (λ i c. i < suc k → P c) h k c (λ lt. at) (λ i ne lt. below i (omega arith))

push_end-Fresh :
    (st : State) (end : ℕ)
    → Fresh st.handler
    → ((push_end false st end).1 ≡ true)
      × ((push_end false st end).0.handler.is_request_shut_down ≡ true)
      × ((push_end false st end).0.handler.thread.is_request_close ≡ false)
unfolding push_end
push_end-Fresh st end f = (
  ground (arith, f.not_shut),
  ground (arith, f.not_shut),
  ground (arith, f.not_shut, f.not_closed),
)

pub pushes_end-Phase :
    {n : ℕ} (s : System) (j : ℕ) (now : Bool) (k end : ℕ)
    → s.pc j ≡ at_handler_number now k
    → k < n
    → Phase n s
    → Phase n (
        go_to (put s k (push_end false (handler s k) end).0) j (
          if (push_end false (handler s k) end).1
          then closing now k
          else at_handler_number now (suc k)))
pushes_end-Phase s j now k end e lt v =
    let sh = Phase-Shutter j (at_handler_number now k) e (λ a. a) v in
    let (won, shut_now, open_now) =
      push_end-Fresh (handler s k) end (sh.progress.2 k (omega arith)) in
    let c = (push_end false (handler s k) end).0.handler in
    next-Phase
      (go_to (put s k (push_end false (handler s k) end).0) j (
        if (push_end false (handler s k) end).1
        then closing now k
        else at_handler_number now (suc k)))
      (closing now k) sh refl sh.not_over
      (ap (λ b. update s.pc j (if b then closing now k else at_handler_number now (suc k))) won)
      (
        lt,
        λ i below.
            other_handler s.pool.handlers k c (Done now) i (λ d. omega arith)
              (sh.progress.1 i below),
        λ i above.
            other_handler s.pool.handlers k c Fresh i (λ d. omega arith)
              (sh.progress.2 i (omega arith)),
        this_handler s.pool.handlers k c (λ h. h.is_request_shut_down ≡ true) shut_now,
        this_handler s.pool.handlers k c (λ h. h.thread.is_request_close ≡ false) open_now,
      )

pub close_thread-open :
    (now : Bool) (st : State)
    → st.handler.thread.is_request_close ≡ false
    → st.handler.is_request_shut_down ≡ true
    → ((close_thread now false st).1 ≡ now) × Closed (close_thread now false st).0.handler
unfolding close_thread
close_thread-open true st o f = (ground (arith, o), record { shut = f; close = ground (arith, o) })
close_thread-open false st o f = (refl, record { shut = f; close = ground (arith, o) })

pub close_step-Phase :
    {n : ℕ} (s : System) (j : ℕ) (now : Bool) (k : ℕ) (c : State) (p : Pc)
    → s.pc j ≡ closing now k
    → Closed c.handler
    → after_close now now k ≡ p
    → Phase n s
    → Phase n (go_to (put s k c) j p)
close_step-Phase s j true k c p e closed next v =
    let sh = Phase-Shutter j (closing true k) e (λ a. a) v in
    next-Phase (go_to (put s k c) j p) (joining true k) sh refl sh.not_over
      (ap (λ p. update s.pc j p) (sym next))
      (
        sh.progress.0,
        λ i below.
            other_handler s.pool.handlers k c.handler (Done true) i (λ d. omega arith)
              (sh.progress.1 i below),
        λ i above.
            other_handler s.pool.handlers k c.handler Fresh i (λ d. omega arith)
              (sh.progress.2 i above),
        this_handler s.pool.handlers k c.handler Closed closed,
      )
close_step-Phase s j false k c p e closed next v =
    let sh = Phase-Shutter j (closing false k) e (λ a. a) v in
    next-Phase (go_to (put s k c) j p) (at_handler_number false (suc k)) sh refl sh.not_over
      (ap (λ p. update s.pc j p) (sym next))
      (
        omega (arith, sh.progress.0),
        up_to (Done false) s.pool.handlers k c.handler sh.progress.1
            (record { closed = closed; ended = λ e. absurd (ground (arith, e)) }),
        λ i above.
            other_handler s.pool.handlers k c.handler Fresh i (λ d. omega arith)
              (sh.progress.2 i (omega arith)),
      )

pub joins-Phase :
    {n : ℕ} (s : System) (j : ℕ) (now : Bool) (k : ℕ)
    → s.pc j ≡ joining now k
    → (s.pool.handlers k).thread.state ≡ finished
    → Phase n s
    → Phase n (go_to s j (at_handler_number now (suc k)))
joins-Phase s j now k e fin v =
    let sh = Phase-Shutter j (joining now k) e (λ a. a) v in
    next-Phase (go_to s j (at_handler_number now (suc k))) (at_handler_number now (suc k)) sh refl
      sh.not_over refl
      (
        omega (arith, sh.progress.0),
        λ i lt. elim (ℕ_discrete k i) [
          | yes same ↦
              subst (λ i. Done now (s.pool.handlers i)) same
                (record { closed = sh.progress.3; ended = λ _. fin })
          | no other ↦ sh.progress.1 i (omega arith)
        ],
        λ i above. sh.progress.2 i (omega arith),
      )

pub ends-Phase :
    {n : ℕ} (s : System) (j : ℕ) (now : Bool) (k : ℕ)
    → s.pc j ≡ at_handler_number now k
    → n ≡ k
    → Phase n s
    → Phase n (record s {
      pool = record (s.pool) { state = shutdown };
      pc = update s.pc j (shut now true);
    })
ends-Phase s j now k e last v =
    let sh = Phase-Shutter j (at_handler_number now k) e (λ a. a) v in
    over now sh.asked refl (λ i lt. sh.progress.1 i (omega arith))
      (update_cases (λ i c. Over now c) s.pc j (shut now true) refl
        (λ i ne. Over-Quiet now (s.pc i) (sh.others i ne)))

-- What the exchange of `ShutDownHelper` leaves.
pub asks-Phase :
    {n : ℕ} (s : System) (j : ℕ) (now : Bool)
    → Aside (s.pc j)
    → Phase n s
    → Phase n (record s {
      pool = record (s.pool) {
        is_request_shut_down = (compare_exchange false s.pool.is_request_shut_down).0;
      };
      pc =
          update s.pc j (after_exchange now (compare_exchange false s.pool.is_request_shut_down).1);
    })
asks-Phase {n} s j now aside v = elim (Bool-cases s.pool.is_request_shut_down) [
  | inl f ↦
      let same : (s.pool.is_request_shut_down, false) ≡ exchange = ground (arith, f) in
      subst (λ b. Phase n (exchanged b)) same (go_to-Phase s j (shut now false) aside tt v)
  | inr f ↦
      let won : (true, true) ≡ exchange = ground (arith, f) in
      subst (λ b. Phase n (exchanged b)) won (begun f v)
]
  where
    exchange : Bool × Bool
    exchange = compare_exchange false s.pool.is_request_shut_down

    exchanged : Bool × Bool → System
    exchanged b = record s {
      pool = record (s.pool) { is_request_shut_down = b.0 };
      pc = update s.pc j (after_exchange now b.1);
    }

    begun : s.pool.is_request_shut_down ≡ false → Phase n s → Phase n (exchanged (true, true))
    begun f (open_ e r fresh q) =
        shutting j refl (λ d. ground (arith, r, d))
          (subst (Progress n s.pool.handlers) (sym (update-at s.pc j (stopping now))) fresh)
          (λ k ne. subst Quiet (sym (update-other s.pc j (stopping now) k ne)) (q k))
    begun f (shutting k e r g q) = absurd (ground (arith, e, f))
    begun f (over now' e r done q) = absurd (ground (arith, e, f))
