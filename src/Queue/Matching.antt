-- ===== src/Queue/Matching.antt =====
-- Where the threads of the queue's sections stand as readers of `Queue.System`.
use mathlib.Core.Logic.{ite}
use empool.Base.{
  ℕ, ◌≡◌, refl, sym, ap, subst, ◌⊎◌, inl, inr, Bool, true, false, arith, update, update_elim,
  ℕ_discrete,
}
use empool.Lock.{notice_if, all_notice}
use empool.Lock.Atomic
use empool.Queue.{Call, ReadPc, outside, failed, waiting, woken, expired, got}
use empool.Queue.System as Q
use empool.Queue.Sections.{Operation, read_call, Content}

abbrev pub Fine {ℓ} : Type ℓ → Type ℓ
Fine A = Atomic.System (Operation A) (Content A)

module _ {ℓ} {A : Type ℓ} where
  -- Where a thread stands among the sections, and where it stands as a reader.
  abbrev pub Match : Atomic.Pc (Operation A) → ReadPc A → Type ℓ
  Match Atomic.outside r = Q.IsIdle r
  Match (Atomic.entering op) r = Q.IsIdle r ⊎ ((c : Call) × (op ≡ read_call c) × (r ≡ woken c))
  Match (Atomic.asleep op) r = (c : Call) × (op ≡ read_call c) × (r ≡ waiting c)
  Match (Atomic.expired op) r = r ≡ expired

  abbrev pub Matched : Fine A → (ℕ → ReadPc A) → Type ℓ
  Matched s reader = (k : ℕ) → Match (s.pc k) (reader k)

  -- The queue that threads see who stand so as readers.
  abbrev pub as_queue : Content A → (ℕ → ReadPc A) → Q.System A
  as_queue content reader = record {
    queue = content.queue;
    reader = reader;
    pushed = content.pushed;
    popped = content.popped;
  }

  -- The queue can come to this state, with readers that match.
  abbrev pub Reached : Fine A → Type ℓ
  Reached s =
      (reader : ℕ → ReadPc A) × Q.Steps Q.start (as_queue s.shared reader) × Matched s reader

  pub update-Match :
      (pc : ℕ → Atomic.Pc (Operation A)) (reader : ℕ → ReadPc A) (i : ℕ)
      (p : Atomic.Pc (Operation A)) (r : ReadPc A)
      → Match p r
      → ((k : ℕ) → Match (pc k) (reader k))
      → (k : ℕ) → Match (update pc i p k) (update reader i r k)
  update-Match pc reader i p r new old k =
      elim (ℕ_discrete i k) as (λ d. Match (ite d p (pc k)) (ite d r (reader k))) [
        | yes same ↦ new
        | no other ↦ old k
      ]

  -- Thread `i` moves, but not as a reader.
  pub update_pc :
      (pc : ℕ → Atomic.Pc (Operation A)) (reader : ℕ → ReadPc A) (i : ℕ)
      (p : Atomic.Pc (Operation A))
      → Match p (reader i)
      → ((k : ℕ) → Match (pc k) (reader k))
      → (k : ℕ) → Match (update pc i p k) (reader k)
  update_pc pc reader i p new old = update_elim (λ k q. Match q (reader k)) pc i p new old

  pub Match-at :
      (pc : ℕ → Atomic.Pc (Operation A)) (reader : ℕ → ReadPc A) (i : ℕ)
      {p : Atomic.Pc (Operation A)}
      → pc i ≡ p
      → ((k : ℕ) → Match (pc k) (reader k))
      → Match p (reader i)
  Match-at pc reader i e m = subst (λ p. Match p (reader i)) e (m i)

  abbrev pub call_of : Call → Operation A → Call
  call_of default (read_call c) = c
  call_of default op = default

  -- A reader that has the lock reads.
  pub reads_next :
      (q : Q.System A) (i : ℕ) (c : Call)
      → Match (Atomic.entering (read_call c)) (q.reader i)
      → Q.Steps Q.start q
      → Q.Steps Q.start (Q.reads q i c)
  reads_next q i c (inl idle) r = Q.then_ r (Q.enter i c idle)
  reads_next q i c (inr (d, e, w)) r =
      Q.then_ r (Q.go_on i c (subst (λ d. q.reader i ≡ woken d) (sym (ap (call_of c) e)) w))

  wake-IsIdle : (r : ReadPc A) → Q.IsIdle r → Q.wake r ≡ r
  wake-IsIdle outside h = refl
  wake-IsIdle failed h = refl
  wake-IsIdle (waiting c) h = absurd (ground (arith, h))
  wake-IsIdle (woken c) h = refl
  wake-IsIdle expired h = refl
  wake-IsIdle (got c a) h = refl

  IsIdle-wake : (r : ReadPc A) → Q.IsIdle r → Q.IsIdle (Q.wake r)
  IsIdle-wake r h = subst Q.IsIdle (sym (wake-IsIdle r h)) h

  abbrev pub is_read : Operation A → Bool
  is_read (read_call c) = true
  is_read op = false

  pub Match-IsIdle :
      (op : Operation A) (r : ReadPc A)
      → is_read op ≡ false
      → Match (Atomic.entering op) r
      → Q.IsIdle r
  Match-IsIdle op r no_read (inl h) = h
  Match-IsIdle op r no_read (inr (c, e, w)) = absurd (ground (arith, ap is_read e))

  pub notify_all-IsIdle :
      (b : Bool) (reader : ℕ → ReadPc A) (i : ℕ)
      → Q.IsIdle (reader i)
      → Q.IsIdle (Q.notify_all b reader i)
  notify_all-IsIdle true reader i h = IsIdle-wake (reader i) h
  notify_all-IsIdle false reader i h = h

  -- What the readers are after a notification.
  Match-wake :
      (p : Atomic.Pc (Operation A)) (r : ReadPc A) → Match p r → Match (Atomic.wake p) (Q.wake r)
  Match-wake Atomic.outside r h = IsIdle-wake r h
  Match-wake (Atomic.entering op) r (inl h) = inl (IsIdle-wake r h)
  Match-wake (Atomic.entering op) r (inr (c, e, w)) = inr (c, e, ap Q.wake w)
  Match-wake (Atomic.asleep op) r (c, e, w) = inr (c, e, ap Q.wake w)
  Match-wake (Atomic.expired op) r h = ap Q.wake h

  pub notified :
      (b : Bool) (j : ℕ) (pc : ℕ → Atomic.Pc (Operation A)) (reader : ℕ → ReadPc A)
      → ((k : ℕ) → Match (pc k) (reader k))
      → (k : ℕ) → Match (Atomic.notify (notice_if b all_notice) j pc k) (Q.notify_all b reader k)
  notified true j pc reader m k = Match-wake (pc k) (reader k) (m k)
  notified false j pc reader m k = m k
