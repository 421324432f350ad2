-- ===== src/Queue/Order.antt =====
-- First in, first out.
use mathlib.Core.List.{append_assoc}
use empool.Base.{◌+◌, ◌≡◌, refl, sym, ◌∙◌, ap, List, [], ◌∷◌, ◌++◌, length, length-append}
use empool.Queue.{Call, pop, pop_time_wait, front, push, read, size}
use empool.Queue.System.{
  System, Step, pushes, enter, go_on, stir, expire, give_up, Steps, here, then_, start, taken,
}

module _ {ℓ} {A : Type ℓ} where
  -- What a read takes is the front of the queue.
  read-taken : (c : Call) (q : List A) → taken (read c q).1 ++ (read c q).0 ≡ q
  unfolding read
  read-taken c [] = refl
  read-taken pop (a ∷ q) = refl
  read-taken pop_time_wait (a ∷ q) = refl
  read-taken front (a ∷ q) = refl

  abbrev InOrder : System A → Type ℓ
  InOrder s = s.pushed ≡ s.popped ++ s.queue

  reads-InOrder :
      (s : System A) (c : Call)
      → InOrder s
      → s.pushed ≡ (s.popped ++ taken (read c s.queue).1) ++ (read c s.queue).0
  reads-InOrder s c h =
      h ∙ sym (append_assoc s.popped _ _ ∙ ap (◌++◌ s.popped) (read-taken c s.queue))

  Step-InOrder : {s t : System A} → Step s t → InOrder s → InOrder t
  unfolding push
  Step-InOrder {s} (pushes a) h = ap (λ l. l ++ a ∷ []) h ∙ append_assoc s.popped s.queue (a ∷ [])
  Step-InOrder {s} (enter i c idle) h = reads-InOrder s c h
  Step-InOrder {s} (go_on i c e) h = reads-InOrder s c h
  Step-InOrder (stir i c e) h = h
  Step-InOrder (expire i e) h = h
  Step-InOrder (give_up i e) h = h

  -- Elements leave the queue in the order in which they came, each once, and none is lost: what
  -- was pushed is what was popped followed by what is in the queue, whatever the threads do. So
  -- its size is the number of pushes that no pop has answered.
  pub fifo :
      {s : System A}
      → Steps start s
      → (s.pushed ≡ s.popped ++ s.queue) × (length s.popped + size s.queue ≡ length s.pushed)
  unfolding size
  fifo {s} r = (inorder r, sym (ap length (inorder r) ∙ length-append s.popped s.queue))
    where
      inorder : {s : System A} → Steps start s → InOrder s
      inorder here = refl
      inorder (then_ r st) = Step-InOrder st (inorder r)
