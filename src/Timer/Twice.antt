-- ===== src/Timer/Twice.antt =====
-- What a call that adds a task does alone, and what two calls do together.
use empool.Base.{
  ℕ, ◌+◌, ◌≡◌, ap, ◌∙◌, Bool, true, false, List, [], ◌∷◌, arith, ◌==◌, Bool-cases, inl, inr,
}
use empool.Heap.{PriorityQueue, count, contents}
use empool.Heap.Least.{count-push}
use empool.Timer.{Store, deadline_of, set_deadline, set_interval, push_task, compare_timer_task}
use empool.Timer.Handler.{State, accepts, enqueue, do_add_cron_timer_task, do_add_cycle_timer_task}
use empool.Timer.Racing.{
  Request, cron, cycle, asking, returned, due, add_step, Race, race, alone, do_add,
}

alone-do_add :
    (now : ℕ) (req : Request) (s : State) (x : ℕ)
    → alone 5 now req x s asking ≡ ((do_add now req s x).0, returned (do_add now req s x).1)
unfolding alone add_step do_add_cron_timer_task do_add_cycle_timer_task
alone-do_add now (cron delay) s x = elim (Bool-cases s.handler.thread.is_request_close) [
  | inl e ↦ ground (arith, e)
  | inr e ↦ elim (Bool-cases (deadline_of s.tasks x == 0)) [
    | inl z ↦ ground (arith, e, z)
    | inr z ↦ ground (arith, e, z)
  ]
]
alone-do_add now (cycle interval run_now) s x =
    elim (Bool-cases s.handler.thread.is_request_close) [
      | inl e ↦ ground (arith, e)
      | inr e ↦ elim (Bool-cases (deadline_of s.tasks x == 0)) [
        | inl z ↦ ground (arith, e, z)
        | inr z ↦ ground (arith, e, z)
      ]
    ]

count-push_task :
    (tasks : Store) (queue : PriorityQueue) (x : ℕ)
    → count x (contents (push_task tasks queue x)) ≡ 1 + count x (contents queue)
unfolding push_task
count-push_task tasks queue x = ground (arith, count-push (compare_timer_task tasks) queue x x)

-- Both calls take their steps in turn.
abbrev pub in_turn : List Bool
in_turn = true ∷ false ∷ true ∷ false ∷ true ∷ false ∷ true ∷ false ∷ true ∷ false ∷ []

abbrev pub both : State → Race
both s = record { state = s; first = asking; second = asking }

both_push :
    (now₁ now₂ : ℕ) (req₁ req₂ : Request) (x : ℕ) (s : State)
    → accepts s x ≡ true
    → (tasks₁ tasks₂ : Store) × (race now₁ now₂ req₁ req₂ x in_turn (both s) ≡ record {
      state = enqueue (enqueue s tasks₁ x) tasks₂ x;
      first = returned true;
      second = returned true;
    })
unfolding race add_step
both_push now₁ now₂ (cron d₁) (cron d₂) x s ok =
    let dated = set_deadline (set_deadline s.tasks x (due now₁ (cron d₁))) x (due now₂ (cron d₂)) in
    (dated, dated, ground (arith, ok))
both_push now₁ now₂ (cron d₁) (cycle i₂ run₂) x s ok =
    let dated =
      set_deadline (set_deadline s.tasks x (due now₁ (cron d₁))) x (due now₂ (cycle i₂ run₂)) in
    (dated, set_interval dated x i₂, ground (arith, ok))
both_push now₁ now₂ (cycle i₁ run₁) (cron d₂) x s ok =
    let dated =
      set_deadline (set_deadline s.tasks x (due now₁ (cycle i₁ run₁))) x (due now₂ (cron d₂)) in
    (set_interval dated x i₁, set_interval dated x i₁, ground (arith, ok))
both_push now₁ now₂ (cycle i₁ run₁) (cycle i₂ run₂) x s ok =
    let dated =
      set_deadline (set_deadline s.tasks x (due now₁ (cycle i₁ run₁))) x
        (due now₂ (cycle i₂ run₂)) in
    let paced = set_interval (set_interval dated x i₁) x i₂ in (paced, paced, ground (arith, ok))

do_add-accepts :
    (now : ℕ) (req : Request) (s : State) (x : ℕ)
    → accepts s x ≡ true
    → (do_add now req s x).1 ≡ true
unfolding do_add_cron_timer_task do_add_cycle_timer_task
do_add-accepts now (cron delay) s x ok = ground (arith, ok)
do_add-accepts now (cycle interval run_now) s x ok = ground (arith, ok)

-- A call that adds a task and that no other comes between is the one operation of `Timer.Handler`.
-- But two calls that come at once with a task that the handler takes may both take it, since the
-- test of its deadline and the setting of it are apart: both return true, and the task is in the
-- queue twice.
pub added_twice :
    (now₁ now₂ : ℕ) (req₁ req₂ : Request) (x : ℕ) (s : State)
    → accepts s x ≡ true
    → (alone 5 now₁ req₁ x s asking ≡ ((do_add now₁ req₁ s x).0, returned true))
      × ((race now₁ now₂ req₁ req₂ x in_turn (both s)).first ≡ returned true)
      × ((race now₁ now₂ req₁ req₂ x in_turn (both s)).second ≡ returned true)
      × (count x (contents (race now₁ now₂ req₁ req₂ x in_turn (both s)).state.handler.queue)
          ≡ 2 + count x (contents s.handler.queue))
added_twice now₁ now₂ req₁ req₂ x s ok =
    let (tasks₁, tasks₂, e) = both_push now₁ now₂ req₁ req₂ x s ok in
    (
      alone-do_add now₁ req₁ s x
          ∙ ap (λ b. ((do_add now₁ req₁ s x).0, returned b)) (do_add-accepts now₁ req₁ s x ok),
      ap Race.first e,
      ap Race.second e,
      ap (λ r. count x (contents (Race.state r).handler.queue)) e
          ∙ omega (
            arith,
            count-push_task tasks₂ (push_task tasks₁ s.handler.queue x) x,
            count-push_task tasks₁ s.handler.queue x,
          ),
    )
