-- ===== src/Thread/Safety.antt =====
-- The id of a thread, and the end of its object.
use empool.Base.{ℕ, ◌≡◌, ◌≢◌, Bool, true, false, arith}
use empool.Thread.{tid, construct, create_error}
use empool.Thread.System.{
  ParentPc, initialising, created_, answered, destroyed, ChildPc, unborn, born, ended, System,
  start, Step, fails, creates, marks, resets, asks, spins, gets, goes_on, destroys, skips, joins,
  stores, works, reports, crashes, Steps, here, then_,
}

abbrev has_stored : ChildPc → Bool
has_stored unborn = false
has_stored born = false
has_stored p = true

-- The constructor has returned, and the object is there.
abbrev pub is_object : ParentPc → Bool
is_object initialising = false
is_object created_ = false
is_object destroyed = false
is_object p = true

-- What the last call of `GetThreadId` has returned, if it is what the creating thread looks at.
abbrev answer_or : ℕ → ParentPc → ℕ
answer_or default (answered n) = n
answer_or default p = default

abbrev pub Inv : ℕ → System → Type 0
Inv gettid s =
    (has_stored s.child ≡ true → s.thread_id ≡ gettid)
    × (has_stored s.child ≡ false → s.thread_id ≡ 0)
    × (answer_or gettid s.parent ≡ gettid)
    × (is_object s.parent ≡ true → s.is_start ≡ true)
    × (s.parent ≡ destroyed → (s.child ≡ ended) × (s.is_start ≡ false))

Step-Inv : {gettid : ℕ} {s t : System} → Step gettid s t → Inv gettid s → Inv gettid t
unfolding tid construct create_error
Step-Inv (fails r m p e) v = v
Step-Inv (creates p q) v = ground (arith, v)
Step-Inv (marks p) v = ground (arith, v)
Step-Inv (resets p) v = ground (arith, v)
Step-Inv (asks p) v = ground (arith, v)
Step-Inv (spins p z) v = v
Step-Inv (gets p nz) v = ground (arith, v)
Step-Inv (goes_on n p) v = ground (arith, v)
Step-Inv (destroys p e) v = ground (arith, v)
Step-Inv (skips p e) v = ground (arith, v)
Step-Inv (joins p e) v = ground (arith, v)
Step-Inv (stores e) v = ground (arith, v)
Step-Inv (works e) v = ground (arith, v)
Step-Inv (reports e h nz) v = ground (arith, v)
Step-Inv (crashes e h) v = ground (arith, v)

Steps-Inv : {gettid : ℕ} {s : System} → Steps gettid start s → Inv gettid s
Steps-Inv here = ground (arith)
Steps-Inv (then_ r st) = Step-Inv st (Steps-Inv r)

-- In every state that the creation of a thread comes to, if the id that the system gives it is not
-- 0: what `GetThreadId` has answered is that id; the object is destroyed only once the thread is at
-- its end, so that it never stores its id into an object that is gone; and `m_isStart` is true as
-- long as the constructed object is there, so that the destructor joins the thread.
pub thread_object_safe :
    {gettid : ℕ} {s : System}
    → gettid ≢ 0
    → Steps gettid start s
    → ((n : ℕ) → s.parent ≡ answered n → (n ≡ gettid) × (n ≢ 0))
      × (s.parent ≡ destroyed → s.child ≡ ended)
      × (is_object s.parent ≡ true → s.is_start ≡ true)
thread_object_safe {s} nz r =
    let v = Steps-Inv r in
    (λ n e. (ground (arith, v, e), ground (arith, v, e, nz)), λ e. (v.4 e).0, v.3)
