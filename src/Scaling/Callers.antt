-- ===== src/Scaling/Callers.antt =====
-- The callers of `ShutDown` of a fixed pool.
use empool.Base.{
  if◌then◌else◌, ℕ, ◌<◌, ◌≡◌, ◌≢◌, refl, sym, subst, ap, ◌∙◌, inl, inr, Bool, true, false, List, [],
  ◌∷◌, ◌++◌, arith, update, update_elim, update_cases, Bool-cases,
}
use empool.Heap.{count}
use empool.Closeable.{compare_exchange}
use empool.Scaling.{Pool, ShutPc, outside, setting, stopping, asking, adding, returned, shut_step}
use empool.Scaling.Fixed.{is_out}
use empool.Scaling.Census.{count-append}
use empool.Scaling.Lifelong.{Life, is_closed}

-- Past `SetState(STOP)`, in the call.
abbrev pub is_past : ShutPc → Bool
is_past stopping = true
is_past asking = true
is_past adding = true
is_past p = false

-- Of the callers of `ShutDown` at most one is before `SetState(STOP)`.
pub record Callers (closed flag : Bool) (shut : ℕ → ShutPc) : Type 0 where
  pub out : flag ≡ false → (j : ℕ) → is_out (shut j) ≡ true
  pub before : (j : ℕ) → shut j ≡ setting → closed ≡ false
  pub only : (j k : ℕ) → shut j ≡ setting → shut k ≡ setting → j ≡ k
  pub past : closed ≡ false → (j : ℕ) → is_past (shut j) ≡ false

-- A caller goes on to `q`, which is not before `SetState(STOP)`.
stays :
    {closed flag : Bool} (shut : ℕ → ShutPc) (j : ℕ) (q : ShutPc)
    → q ≢ setting
    → (flag ≡ false → is_out q ≡ true)
    → (closed ≡ false → is_past q ≡ false)
    → Callers closed flag shut
    → Callers closed flag (update shut j q)
stays {closed} {flag} shut j q no_set o p c = record {
  out = λ f. update_elim (λ k r. is_out r ≡ true) shut j q (o f) (c.out f);
  before =
      update_elim (λ k r. r ≡ setting → closed ≡ false) shut j q (λ e. absurd (no_set e)) c.before;
  only = λ k l.
      update_elim (λ k r. r ≡ setting → update shut j q l ≡ setting → k ≡ l) shut j q
        (λ e. absurd (no_set e))
        (λ k e.
          update_elim (λ l r. r ≡ setting → k ≡ l) shut j q (λ d. absurd (no_set d))
            (λ l d. c.only k l e d) l)
        k;
  past = λ f. update_elim (λ k r. is_past r ≡ false) shut j q (p f) (c.past f);
}

-- The exchange is won: all others are out.
wins :
    {closed : Bool} (shut : ℕ → ShutPc) (j : ℕ)
    → closed ≡ false
    → Callers closed false shut
    → Callers closed true (update shut j setting)
wins {closed} shut j o c = record {
  out = λ f. absurd (cc f);
  before = λ k e. o;
  only = λ k l.
      update_cases (λ k r. r ≡ setting → update shut j setting l ≡ setting → k ≡ l) shut j setting
        (λ e.
          update_cases (λ l r. r ≡ setting → j ≡ l) shut j setting (λ d. refl)
            (λ l ne d. absurd (ground (arith, c.out refl l, d))) l)
        (λ k ne e. absurd (ground (arith, c.out refl k, e))) k;
  past = λ f. update_elim (λ k r. is_past r ≡ false) shut j setting refl (c.past f);
}

-- `SetState(STOP)`: no other was before it.
sets :
    {closed : Bool} (shut : ℕ → ShutPc) (j : ℕ)
    → shut j ≡ setting
    → Callers closed true shut
    → Callers true true (update shut j stopping)
sets {closed} shut j here c = record {
  out = λ f. absurd (cc f);
  before =
      update_cases (λ k r. r ≡ setting → true ≡ false) shut j stopping (λ e. absurd (cc e))
        (λ k ne e. absurd (ne (c.only j k here e)));
  only = λ k l.
      update_cases (λ k r. r ≡ setting → update shut j stopping l ≡ setting → k ≡ l) shut j stopping
        (λ e. absurd (cc e)) (λ k ne e. absurd (ne (c.only j k here e))) k;
  past = λ f. absurd (cc f);
}

-- What a step of `ShutDown` leaves.
pub record Goes (threads : List ℕ) (p : Pool) (shut : ℕ → ShutPc) (j : ℕ) (r : Pool × ShutPc)
    : Type 0 where
  pub life : Life threads r.0
  pub callers : Callers (is_closed r.0.state) r.0.is_request_shut_down (update shut j r.1)
  pub still_closed : is_closed p.state ≡ true → r.0.state ≡ p.state

with_flag :
    {threads : List ℕ} {p : Pool} (flag : Bool)
    → Life threads p
    → (is_closed p.state ≡ true → flag ≡ true)
    → Life threads (record p { is_request_shut_down = flag })
with_flag flag c h = record {
  same = c.same;
  core = c.core;
  max = c.max;
  vector = c.vector;
  no_end = c.no_end;
  unasked = c.unasked;
  flagged = h;
}

asks-Goes :
    (threads : List ℕ) (p : Pool) (shut : ℕ → ShutPc) (j : ℕ) (fails flag : Bool)
    → p.is_request_shut_down ≡ flag
    → Life threads p
    → Callers (is_closed p.state) p.is_request_shut_down shut
    → Goes threads p shut j (
      record p { is_request_shut_down = (compare_exchange fails flag).0 },
      if (compare_exchange fails flag).1 then setting else returned,
    )
asks-Goes threads p shut j fails true e c v = record {
  life = with_flag true c (λ k. refl);
  callers =
      stays shut j returned (λ d. absurd (cc d)) (λ _. refl) (λ _. refl)
        (subst (λ f. Callers (is_closed p.state) f shut) e v);
  still_closed = λ k. refl;
}
asks-Goes threads p shut j true false e c v = record {
  life = with_flag false c (λ k. absurd (ground (arith, c.flagged k, e)));
  callers =
      stays shut j returned (λ d. absurd (cc d)) (λ _. refl) (λ _. refl)
        (subst (λ f. Callers (is_closed p.state) f shut) e v);
  still_closed = λ k. refl;
}
asks-Goes threads p shut j false false e c v = record {
  life = with_flag true c (λ k. refl);
  callers =
      wins shut j
        (elim (Bool-cases (is_closed p.state)) [
          | inl k ↦ absurd (ground (arith, c.flagged k, e))
          | inr o ↦ o
        ])
        (subst (λ f. Callers (is_closed p.state) f shut) e v);
  still_closed = λ k. refl;
}

-- A caller past `SetState(STOP)` changes what Life says only of an open pool, and pushes a 0.
past-Goes :
    (threads : List ℕ) (p : Pool) (shut : ℕ → ShutPc) (j : ℕ) (p' : Pool) (q : ShutPc)
    → is_past (shut j) ≡ true
    → q ≢ setting
    → p'.threads ≡ p.threads
    → p'.core_pool_size ≡ p.core_pool_size
    → p'.max_thread_size ≡ p.max_thread_size
    → p'.state ≡ p.state
    → p'.is_request_shut_down ≡ p.is_request_shut_down
    → ((i : ℕ) → 0 < i → count i p'.sub_worker_thread_id ≡ count i p.sub_worker_thread_id)
    → Life threads p
    → Callers (is_closed p.state) p.is_request_shut_down shut
    → Goes threads p shut j (p', q)
past-Goes threads p shut j p' q here no_set t co m st f vec c v =
    let closed : is_closed p.state ≡ true = elim (Bool-cases (is_closed p.state)) [
      | inl k ↦ k
      | inr o ↦ absurd (ground (arith, v.past o j, here))
    ] in
    let closed' : is_closed p'.state ≡ true = ap is_closed st ∙ closed in
    record {
      life = record {
        same = t ∙ c.same;
        core = co ∙ c.core;
        max = m ∙ c.max;
        vector = λ i lt. vec i lt ∙ c.vector i lt;
        no_end = λ o. absurd (ground (arith, o, closed'));
        unasked = λ o. absurd (ground (arith, o, closed'));
        flagged = λ _. f ∙ c.flagged closed;
      };
      callers =
          subst (λ b. Callers b p'.is_request_shut_down (update shut j q)) (ap is_closed (sym st))
            (subst (λ b. Callers (is_closed p.state) b (update shut j q)) (sym f)
              (stays shut j q no_set (λ e. absurd (ground (arith, c.flagged closed, e)))
                (λ e. absurd (ground (arith, closed, e))) v));
      still_closed = λ _. st;
    }

zeros : (ids : List ℕ) (i : ℕ) → 0 < i → count i (ids ++ 0 ∷ []) ≡ count i ids
zeros ids i lt = ground (arith, count-append ids (0 ∷ []) i)

pub shut_step-Goes :
    (threads : List ℕ) (fails : ℕ → Bool) (p : Pool) (shut : ℕ → ShutPc) (j : ℕ) (pc : ShutPc)
    → shut j ≡ pc
    → Life threads p
    → Callers (is_closed p.state) p.is_request_shut_down shut
    → Goes threads p shut j (shut_step fails p pc)
unfolding shut_step
shut_step-Goes threads fails p shut j outside e c v =
    asks-Goes threads p shut j (fails 0) p.is_request_shut_down refl c v
shut_step-Goes threads fails p shut j setting e c v =
    let flag : p.is_request_shut_down ≡ true = elim (Bool-cases p.is_request_shut_down) [
      | inl f ↦ f
      | inr f ↦ absurd (ground (arith, v.out f j, e))
    ] in
    record {
      life = record {
        same = c.same;
        core = c.core;
        max = c.max;
        vector = c.vector;
        no_end = λ o. absurd (cc o);
        unasked = λ o. absurd (cc o);
        flagged = λ _. flag;
      };
      callers =
          subst (λ f. Callers true f (update shut j stopping)) (sym flag)
            (sets shut j e (subst (λ f. Callers (is_closed p.state) f shut) flag v));
      still_closed = λ k. absurd (ground (arith, k, v.before j e));
    }
shut_step-Goes threads fails p shut j stopping e c v =
    past-Goes threads p shut j _ asking (ap is_past e) (λ d. absurd (cc d)) refl refl refl refl refl
      (λ i lt. refl) c v
shut_step-Goes threads fails p shut j asking e c v =
    past-Goes threads p shut j _ adding (ap is_past e) (λ d. absurd (cc d)) refl refl refl refl refl
      (λ i lt. refl) c v
shut_step-Goes threads fails p shut j adding e c v =
    past-Goes threads p shut j _ returned (ap is_past e) (λ d. absurd (cc d)) refl refl refl refl
      refl (λ i lt. zeros p.sub_worker_thread_id i lt) c v
shut_step-Goes threads fails p shut j returned e c v = record {
  life = c;
  callers = stays shut j outside (λ d. absurd (cc d)) (λ _. refl) (λ _. refl) v;
  still_closed = λ k. refl;
}
