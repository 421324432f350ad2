-- ===== src/Scaling/Preserved.antt =====
-- Every step of the pool keeps the invariant.
use empool.Base.{
  ℕ, ◌<◌, ◌≡◌, refl, Bool, true, List, [], ◌∷◌, arith, leb, if_elim, if◌then◌else◌, update, length,
  ap, sym, subst,
}
use empool.Scaling.{Pool, Item, end_task, task}
use empool.Scaling.Worker.{
  WorkerPc, absent, checking, fetching, judging, closing, rechecking, lost, executing, leaving,
  reporting, waking, counting, comparing, reported, counted, Input, take, worker_step, is_counted,
}
use empool.Scaling.Invariant.{
  Inv, is_gone, Alike, is_at_work, at_work-Alike, move-Inv, report-Inv, count-Inv,
}

module _ (threads : List ℕ) (p : Pool) (worker : ℕ → WorkerPc) (v : Inv threads p worker)
    (u : Input) (i : ℕ) (pos : 0 < i) where
  -- From one place at work to another, with no change to what is counted.
  stays :
      (p' : Pool) (old new : WorkerPc)
      → worker i ≡ old
      → is_at_work old ≡ true
      → is_at_work new ≡ true
      → p'.sub_worker_thread_id ≡ p.sub_worker_thread_id
      → p'.stopped_thread_num ≡ p.stopped_thread_num
      → Inv threads p' (update worker i new)
  stays p' old new e o n l c =
      move-Inv threads p worker v i p' new l c pos
        (at_work-Alike (worker i) new (subst (λ w. is_at_work w ≡ true) (sym e) o) n)

  take-Inv :
      (items : List Item)
      → worker i ≡ fetching
      → Inv threads (take p items).0 (update worker i (take p items).1)
  unfolding take
  take-Inv [] e = stays p fetching fetching e refl refl refl refl
  take-Inv (end_task ∷ rest) e = stays _ fetching leaving e refl refl refl refl
  take-Inv (task x ∷ rest) e = stays _ fetching (executing x) e refl refl refl refl

  -- A test that leads from one place at work to one of two others.
  branches :
      (old : WorkerPc) (b : Bool) (x y : WorkerPc)
      → worker i ≡ old
      → is_at_work old ≡ true
      → is_at_work x ≡ true
      → is_at_work y ≡ true
      → Inv threads p (update worker i (if b then x else y))
  branches old b x y e o hx hy =
      if_elim (λ w. Inv threads p (update worker i w)) b (λ _. stays p old x e o hx refl refl)
        (λ _. stays p old y e o hy refl refl)

  same : (w : WorkerPc) → worker i ≡ w → Alike (worker i) w
  same w e = subst (Alike (worker i)) e (record {
    counted_same = refl;
    gone_same = refl;
    live_before = λ l. l;
    created = λ c. c;
    compared_before = omega arith;
  })

  after-Alike : (n : ℕ) → worker i ≡ comparing n → Alike (worker i) counted
  after-Alike n e =
      subst (λ w. Alike w counted) (sym e)
        (record {
          counted_same = refl;
          gone_same = refl;
          live_before = λ l. refl;
          created = λ c. absurd (ground (arith, ap is_counted c));
          compared_before = omega arith;
        })

  woken-Alike : worker i ≡ waking → Alike (worker i) reported
  woken-Alike e =
      subst (λ w. Alike w reported) (sym e)
        (record {
          counted_same = refl;
          gone_same = refl;
          live_before = λ l. refl;
          created = λ c. absurd (ground (arith, ap is_gone c));
          compared_before = omega arith;
        })

  pub worker_step-Inv :
      (pc : WorkerPc)
      → worker i ≡ pc
      → Inv threads (worker_step u p i pc).0 (update worker i (worker_step u p i pc).1)
  unfolding worker_step
  worker_step-Inv absent e = move-Inv threads p worker v i p absent refl refl pos (same absent e)
  worker_step-Inv checking e = branches checking _ leaving fetching e refl refl refl
  worker_step-Inv fetching e =
      if_elim (λ (r : Pool × WorkerPc). Inv threads r.0 (update worker i r.1)) u.expires
        (λ _. stays p fetching judging e refl refl refl refl) (λ _. take-Inv p.queue e)
  worker_step-Inv judging e = branches judging _ closing checking e refl refl refl
  worker_step-Inv closing e = stays _ closing rechecking e refl refl refl refl
  worker_step-Inv rechecking e = branches rechecking _ leaving checking e refl refl refl
  worker_step-Inv lost e = move-Inv threads p worker v i p lost refl refl pos (same lost e)
  worker_step-Inv (executing x) e = branches (executing x) _ lost checking e refl refl refl
  worker_step-Inv leaving e = branches leaving _ counting reporting e refl refl refl
  worker_step-Inv reporting e = report-Inv threads p worker v i e pos
  worker_step-Inv waking e = move-Inv threads p worker v i p reported refl refl pos (woken-Alike e)
  worker_step-Inv counting e = count-Inv threads p worker v i e pos
  worker_step-Inv (comparing n) e =
      if_elim (λ (q : Pool). Inv threads q (update worker i counted)) (leb (length p.threads) n)
        (λ _. move-Inv threads p worker v i _ counted refl refl pos (after-Alike n e))
        (λ _. move-Inv threads p worker v i _ counted refl refl pos (after-Alike n e))
  worker_step-Inv reported e =
      move-Inv threads p worker v i p reported refl refl pos (same reported e)
  worker_step-Inv counted e = move-Inv threads p worker v i p counted refl refl pos (same counted e)
