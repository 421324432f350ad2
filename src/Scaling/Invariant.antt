-- ===== src/Scaling/Invariant.antt =====
-- What holds of the pool between two steps.
use empool.Base.{
  ℕ, ◌+◌, ◌≤◌, ◌<◌, ◌≡◌, refl, Bool, true, false, ◌&&◌, not, List, [], ◌∷◌, arith, update,
  update_elim, ap, sym,
}
use empool.Heap.{count}
use empool.Scaling.{Pool, add_worker_thread_id_to_sub_vector}
use empool.Scaling.Census.{census, census-congr, census_change, count-append}
use empool.Scaling.Worker.{
  WorkerPc, absent, reporting, waking, counting, comparing, reported, is_counted, is_live,
}

-- The bound that a worker in its comparison has read.
abbrev pub compared : WorkerPc → ℕ
compared (comparing n) = n
compared _ = 0

-- Past its report.
abbrev pub is_gone : WorkerPc → Bool
is_gone waking = true
is_gone reported = true
is_gone _ = false

-- The list `threads`, which is the map with the thread that the monitor is about to insert, has an
-- id at most once, and those of all live workers, but none of a worker that has not been created;
-- ids in the vector are those of workers past their report; the stopped threads are counted right.
pub record Inv (threads : List ℕ) (p : Pool) (worker : ℕ → WorkerPc) : Type 0 where
  pub once : (i : ℕ) → count i threads ≤ 1
  pub live : (i : ℕ) → is_live (worker i) ≡ true → count i threads ≡ 1
  pub no_zero : worker 0 ≡ absent
  pub uncreated : (i : ℕ) → worker i ≡ absent → count i threads ≡ 0
  pub listed : (i : ℕ) → 0 < i → 0 < count i p.sub_worker_thread_id → is_gone (worker i) ≡ true
  pub stopped : census (λ i. is_counted (worker i)) threads ≡ p.stopped_thread_num
  pub bound : (i : ℕ) → compared (worker i) ≤ p.stopped_thread_num

-- A step of a worker that does not touch what the invariant counts.
pub record Alike (old new : WorkerPc) : Type 0 where
  pub counted_same : is_counted new ≡ is_counted old
  pub gone_same : is_gone new ≡ is_gone old
  pub live_before : is_live new ≡ true → is_live old ≡ true
  pub created : new ≡ absent → old ≡ absent
  pub compared_before : compared new ≤ compared old

-- At work in its loop, or in the finish action before its report or its count.
abbrev pub is_at_work : WorkerPc → Bool
is_at_work w = is_live w && not (is_gone w) && not (is_counted w)

compared_nothing : (w : WorkerPc) → is_counted w ≡ false → compared w ≡ 0
compared_nothing w = elim w as (λ c. is_counted c ≡ false → compared c ≡ 0) [
  | comparing n ↦ λ e. absurd (ground arith)
  | _ ↦ λ e. refl
]

pub at_work-Alike :
    (old new : WorkerPc) → is_at_work old ≡ true → is_at_work new ≡ true → Alike old new
at_work-Alike old new o n = record {
  counted_same = ground arith;
  gone_same = ground arith;
  live_before = λ _. ground arith;
  created = λ e. absurd (ground (arith, ap is_live e));
  compared_before = ground (arith, compared_nothing new (ground arith));
}

module _ (threads : List ℕ) (p : Pool) (worker : ℕ → WorkerPc) (v : Inv threads p worker)
    (i : ℕ) where
  pub move-Inv :
      (p' : Pool) (q : WorkerPc)
      → p'.sub_worker_thread_id ≡ p.sub_worker_thread_id
      → p'.stopped_thread_num ≡ p.stopped_thread_num
      → 0 < i
      → Alike (worker i) q
      → Inv threads p' (update worker i q)
  move-Inv p' q sub stopped pos a = record {
    once = λ j. ground (arith, v.once j);
    live =
        update_elim (λ j c. is_live c ≡ true → count j threads ≡ 1) worker i q
          (λ l. ground (arith, v.live i, a.live_before l)) (λ j. ground (arith, v.live j));
    no_zero = ground (arith, v.no_zero);
    uncreated =
        update_elim (λ j c. c ≡ absent → count j threads ≡ 0) worker i q
          (λ e. ground (arith, v.uncreated i (a.created e)))
          (λ j e. ground (arith, v.uncreated j e));
    listed =
        update_elim (λ j c. 0 < j → 0 < count j p'.sub_worker_thread_id → is_gone c ≡ true) worker i
          q (λ z l. ground (arith, v.listed i, a.gone_same)) (λ j z l. ground (arith, v.listed j));
    stopped = ground (
      arith,
      v.stopped,
      census-congr (λ j. is_counted (update worker i q j)) (λ j. is_counted (worker j)) threads
          (λ j l.
            update_elim (λ j c. is_counted c ≡ is_counted (worker j)) worker i q a.counted_same
              (λ k. refl) j),
    );
    bound =
        update_elim (λ j c. compared c ≤ p'.stopped_thread_num) worker i q
          (ground (arith, v.bound i, a.compared_before)) (λ j. ground (arith, v.bound j));
  }

  -- The worker adds its id to the vector.
  pub report-Inv :
      worker i ≡ reporting
      → 0 < i
      → Inv threads (add_worker_thread_id_to_sub_vector p i) (update worker i waking)
  report-Inv e pos = record {
    once = v.once;
    live =
        update_elim (λ j c. is_live c ≡ true → count j threads ≡ 1) worker i waking
          (λ l. v.live i (ap is_live e)) v.live;
    no_zero = ground (arith, v.no_zero);
    uncreated =
        update_elim (λ j c. c ≡ absent → count j threads ≡ 0) worker i waking
          (λ a. absurd (ground arith)) v.uncreated;
    listed = λ j z l. ground (arith, v.listed j z, count-append p.sub_worker_thread_id (i ∷ []) j);
    stopped = ground (
      arith,
      v.stopped,
      census-congr (λ j. is_counted (update worker i waking j)) (λ j. is_counted (worker j)) threads
          (λ j l.
            update_elim (λ j c. is_counted c ≡ is_counted (worker j)) worker i waking
              (sym (ap is_counted e)) (λ k. refl) j),
    );
    bound =
        update_elim (λ j c. compared c ≤ p.stopped_thread_num) worker i waking (omega arith)
          v.bound;
  }

  -- The worker counts itself.
  pub count-Inv :
      worker i ≡ counting
      → 0 < i
      → Inv threads
          (record p { stopped_thread_num = p.stopped_thread_num + 1 })
          (update worker i (comparing (p.stopped_thread_num + 1)))
  count-Inv e pos = record {
    once = v.once;
    live =
        update_elim (λ j c. is_live c ≡ true → count j threads ≡ 1) worker i
          (comparing (p.stopped_thread_num + 1)) (λ l. v.live i (ap is_live e)) v.live;
    no_zero = ground (arith, v.no_zero);
    uncreated =
        update_elim (λ j c. c ≡ absent → count j threads ≡ 0) worker i
          (comparing (p.stopped_thread_num + 1)) (λ a. absurd (ground arith)) v.uncreated;
    listed =
        update_elim (λ j c. 0 < j → 0 < count j p.sub_worker_thread_id → is_gone c ≡ true) worker i
          (comparing (p.stopped_thread_num + 1))
          (λ z l. absurd (ground (arith, v.listed i z l, ap is_gone e))) v.listed;
    stopped = ground (
      arith,
      v.stopped,
      v.live i (ap is_live e),
      ap is_counted e,
      census_change (λ j. is_counted (worker j))
          (λ j. is_counted (update worker i (comparing (p.stopped_thread_num + 1)) j)) i threads
          (λ j ne. ground arith),
    );
    bound =
        update_elim (λ j c. compared c ≤ p.stopped_thread_num + 1) worker i
          (comparing (p.stopped_thread_num + 1)) (omega arith) (λ j. omega (arith, v.bound j));
  }
