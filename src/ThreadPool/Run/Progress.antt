-- ===== src/ThreadPool/Run/Progress.antt =====
-- src/thread_pool/thread_pool.c: the end of a batch.
use compute_ql.Shared.{
  ℕ, suc, ◌+◌, ◌*◌, ◌≤◌, ◌<◌, ◌≡◌, refl, min, true, List, [], ◌∷◌, none, some, ltb, if◌then◌else◌,
  length, get_elem?, arith, Bool-cases, inl, inr, ◌⊎◌,
}
use compute_ql.Order.Laws.{count}
use compute_ql.ThreadPool.Run.{
  Stage, out, claiming, running, finishing, Pool, tp_worker_main, main_step, thread_step,
  tp_for_parallel,
}
use compute_ql.ThreadPool.Run.Counts.{
  total, threads, is_running, is_finishing, runs, is_out, IsConsistent,
}
use compute_ql.ThreadPool.Run.Batch.{step, Reach, start, next, Reach-IsConsistent}
use compute_ql.ThreadPool.Run.Measure.{
  ahead_of, measure, AllIdle, out_zero, idle_zero, none_left, runs_few, idle_ahead,
  thread_step_less,
}

module _ (task_count : ℕ) where
  Reach-measure : {p q : Pool} {n : ℕ} → Reach task_count p n q → n + measure q ≤ measure p
  Reach-measure start = omega arith
  Reach-measure (next r (step i h)) =
      omega (arith, Reach-measure r, thread_step_less task_count _ _ i h)

  main_goes_on :
      (p : Pool) (s : Stage)
      → main_step task_count p s ≡ none
      → (is_out s ≡ true) × ((p.returned ≡ true) ⊎ (p.counters.main_permits ≡ 0))
  unfolding main_step
  main_goes_on p out h =
      (refl, elim (Bool-cases p.returned) [ inl gone ↦ inl gone | inr here ↦ inr (ground arith) ])
  main_goes_on p claiming h = cc
  main_goes_on p (running t) h = cc
  main_goes_on p finishing h = cc

  worker_goes_on :
      (p : Pool) (i : ℕ) (s : Stage)
      → get_elem? p.workers i ≡ some s
      → thread_step task_count p (suc i) ≡ none
      → is_out s ≡ true
  unfolding thread_step tp_worker_main
  worker_goes_on p i out e h = refl
  worker_goes_on p i claiming e h = ground arith
  worker_goes_on p i (running t) e h = ground arith
  worker_goes_on p i finishing e h = ground arith

  all_out :
      (f : Stage → ℕ) (ss : List Stage)
      → f out ≡ 0
      → ((i : ℕ) (s : Stage) → get_elem? ss i ≡ some s → is_out s ≡ true)
      → total f ss ≡ 0
  unfolding total
  all_out f [] z h = refl
  all_out f (s ∷ ss) z h =
      omega (arith, out_zero f s z (h 0 s refl), all_out f ss z (λ i t e. h (suc i) t e))

  -- The state in which tp_for_parallel starts.
  start-IsConsistent :
      (worker_count permits : ℕ) (workers : List Stage)
      → 0 < task_count
      → AllIdle workers
      → IsConsistent task_count (tp_for_parallel task_count worker_count workers permits)
  unfolding tp_for_parallel total is_running is_finishing runs count
  start-IsConsistent worker_count permits workers some_task idle = record {
    counted = record {
      under_way = omega (arith, idle_zero is_running workers refl refl idle);
      done = omega (arith, idle_zero is_finishing workers refl refl idle);
      once = λ t. ground (arith, idle_zero (runs t) workers refl refl idle);
    };
    woken = ground arith;
    main_out = λ h. cc;
    main_behind = λ h. cc;
  }

  start_measure :
      (worker_count permits : ℕ) (workers : List Stage)
      → AllIdle workers
      → measure (tp_for_parallel task_count worker_count workers permits)
        ≤ 3 * task_count + 2 * (permits + min task_count worker_count) + length workers + 2
  unfolding measure tp_for_parallel total ahead_of
  start_measure worker_count permits workers idle = omega (arith, idle_ahead workers idle)

  stuck_returned :
      (p : Pool)
      → IsConsistent task_count p
      → ((i : ℕ) → thread_step task_count p i ≡ none)
      → p.returned ≡ true
  unfolding thread_step total is_running is_finishing
  stuck_returned p v stuck =
      let (main_done, waits) = main_goes_on p p.main (stuck 0) in
      let outside : (i : ℕ) (s : Stage) → get_elem? p.workers i ≡ some s → is_out s ≡ true =
        λ i s e. worker_goes_on p i s e (stuck (suc i)) in
      ground (
        arith,
        waits,
        v.woken,
        v.counted.under_way,
        v.counted.done,
        none_left p.counters.task_left (v.main_out main_done),
        all_out is_running p.workers refl outside,
        all_out is_finishing p.workers refl outside,
        out_zero is_running p.main refl main_done,
        out_zero is_finishing p.main refl main_done,
      )

  executed_once :
      (p : Pool)
      → IsConsistent task_count p
      → p.returned ≡ true
      → (t : ℕ) → count t p.counters.executed ≡ (if ltb t task_count then 1 else 0)
  executed_once p v gone t = ground (
    arith,
    v.woken,
    v.counted.under_way,
    v.counted.done,
    v.counted.once t,
    runs_few t (threads p),
  )

  -- Nothing but a return ends a batch: a run of the threads, in whatever order they take their steps,
  -- is no longer than the bound, and where no thread can take a step tp_for_parallel has returned.
  -- The batch has a task at least, and the workers are idle at its start.
  pub for_parallel_returns :
      (worker_count permits : ℕ) (workers : List Stage) (n : ℕ) (p : Pool)
      → 0 < task_count
      → AllIdle workers
      → Reach task_count (tp_for_parallel task_count worker_count workers permits) n p
      → (n ≤ 3 * task_count + 2 * (permits + min task_count worker_count) + length workers + 2)
        × (((i : ℕ) → thread_step task_count p i ≡ none) → p.returned ≡ true)
  for_parallel_returns worker_count permits workers n p some_task idle r = (
    omega (arith, Reach-measure r, start_measure worker_count permits workers idle),
    stuck_returned p (
        Reach-IsConsistent task_count some_task
          (start-IsConsistent worker_count permits workers some_task idle) r),
  )

  -- When tp_for_parallel has returned, every task of the batch has been executed exactly once, and no
  -- other task, whatever the order of the threads' steps; the batch has a task at least, and the
  -- workers are idle at its start.
  pub for_parallel_executes :
      (worker_count permits : ℕ) (workers : List Stage) (n : ℕ) (p : Pool)
      → 0 < task_count
      → AllIdle workers
      → Reach task_count (tp_for_parallel task_count worker_count workers permits) n p
      → p.returned ≡ true
      → (t : ℕ) → count t p.counters.executed ≡ (if ltb t task_count then 1 else 0)
  for_parallel_executes worker_count permits workers n p some_task idle r gone t =
      let v : IsConsistent task_count p =
        Reach-IsConsistent task_count some_task
          (start-IsConsistent worker_count permits workers some_task idle) r in
      executed_once p v gone t
