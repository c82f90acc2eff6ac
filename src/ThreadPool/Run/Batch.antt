-- ===== src/ThreadPool/Run/Batch.antt =====
-- src/thread_pool/thread_pool.c: the tasks of a batch at every state that its threads reach.
use compute_ql.Shared.{
  ℕ, zero, suc, ◌+◌, ◌-◌, ◌<◌, ◌≡◌, refl, ap, true, false, none, subst, some, ltb, if◌then◌else◌,
  get_elem?, set, arith, Bool-cases, inl, inr, Option-cases,
}
use compute_ql.ThreadPool.Run.{
  Stage, out, claiming, running, finishing, Counters, Pool, tp_run_tasks, tp_worker_main, main_step,
  thread_step,
}
use compute_ql.ThreadPool.Run.Counts.{
  total, total-set, threads, is_running, is_finishing, runs, is_out, IsCounted, IsConsistent,
  run_tasks-IsCounted, run_tasks_negative, run_tasks_out, run_tasks_woken, IsCounted-cast,
}

module _ (task_count : ℕ) where
  main_run :
      (p : Pool) (s : Stage)
      → p.main ≡ s
      → is_out s ≡ false
      → 0 < task_count
      → IsConsistent task_count p
      → IsConsistent task_count (record p {
        counters = (tp_run_tasks task_count p.counters s).0;
        main = (tp_run_tasks task_count p.counters s).1;
      })
  unfolding total
  main_run p s e inside some_task v =
      let counted : IsCounted task_count p.counters (is_running s + total is_running p.workers)
          (is_finishing s + total is_finishing p.workers)
          (λ t. runs t s + total (runs t) p.workers) =
        subst
          (λ m.
            IsCounted task_count p.counters (is_running m + total is_running p.workers)
              (is_finishing m + total is_finishing p.workers)
              (λ t. runs t m + total (runs t) p.workers))
          e v.counted in
      let staying : p.returned ≡ true → is_out s ≡ true =
        λ h. subst (λ m. is_out m ≡ true) e (v.main_behind h) in
      record {
        counted =
            run_tasks-IsCounted task_count p.counters s (total is_running p.workers)
              (total is_finishing p.workers) (λ t. total (runs t) p.workers) some_task counted;
        woken =
            run_tasks_woken task_count p.counters s (total is_running p.workers)
              (total is_finishing p.workers) (if p.returned then 1 else 0)
              (λ t. runs t s + total (runs t) p.workers) counted v.woken;
        main_out = run_tasks_out task_count p.counters s inside;
        main_behind = λ h. cc (staying h, inside);
      }

  worker_run :
      (p : Pool) (i : ℕ) (s : Stage)
      → get_elem? p.workers i ≡ some s
      → 0 < task_count
      → IsConsistent task_count p
      → IsConsistent task_count (record p {
        counters = (tp_run_tasks task_count p.counters s).0;
        workers = set p.workers i (tp_run_tasks task_count p.counters s).1;
      })
  unfolding total is_running is_finishing runs
  worker_run p i s e some_task v =
      let rest : (Stage → ℕ) → ℕ = λ f. f p.main + total f (set p.workers i out) in
      let next : Stage = (tp_run_tasks task_count p.counters s).1 in
      let before : (f : Stage → ℕ) → f out ≡ 0 → total f (threads p) ≡ f s + rest f =
        λ f h. omega (arith, total-set f p.workers i s out e, h) in
      let after : (f : Stage → ℕ)
          → f out ≡ 0
          → f next + rest f ≡ f p.main + total f (set p.workers i next) =
        λ f h.
          omega (arith, total-set f p.workers i s out e, total-set f p.workers i s next e, h) in
      let counted : IsCounted task_count p.counters (is_running s + rest is_running)
          (is_finishing s + rest is_finishing) (λ t. runs t s + rest (runs t)) =
        IsCounted-cast task_count p.counters (total is_running (threads p))
          (is_running s + rest is_running) (total is_finishing (threads p))
          (is_finishing s + rest is_finishing) (λ t. total (runs t) (threads p))
          (λ t. runs t s + rest (runs t)) (before is_running refl) (before is_finishing refl)
          (λ t. before (runs t) refl) v.counted in
      let c' : Counters = (tp_run_tasks task_count p.counters s).0 in
      record {
        counted =
            IsCounted-cast task_count c' (is_running next + rest is_running)
              (is_running p.main + total is_running (set p.workers i next))
              (is_finishing next + rest is_finishing)
              (is_finishing p.main + total is_finishing (set p.workers i next))
              (λ t. runs t next + rest (runs t))
              (λ t. runs t p.main + total (runs t) (set p.workers i next)) (after is_running refl)
              (after is_finishing refl) (λ t. after (runs t) refl)
              (run_tasks-IsCounted task_count p.counters s (rest is_running) (rest is_finishing)
                (λ t. rest (runs t)) some_task counted);
        woken =
            run_tasks_woken task_count p.counters s (rest is_running) (rest is_finishing)
              (if p.returned then 1 else 0) (λ t. runs t s + rest (runs t)) counted v.woken;
        main_out = λ h. run_tasks_negative task_count p.counters s (v.main_out h);
        main_behind = v.main_behind;
      }

  worker_woken :
      (p : Pool) (i : ℕ)
      → get_elem? p.workers i ≡ some out
      → IsConsistent task_count p
      → IsConsistent task_count (record p {
        counters = record p.counters { task_permits = p.counters.task_permits - 1 };
        workers = set p.workers i claiming;
      })
  unfolding total is_running is_finishing runs
  worker_woken p i e v =
      let same : (f : Stage → ℕ)
          → f out ≡ 0
          → f claiming ≡ 0
          → total f (threads p) ≡ f p.main + total f (set p.workers i claiming) =
        λ f h k. omega (arith, total-set f p.workers i out claiming e, h, k) in
      record {
        counted = record {
          under_way = omega (arith, v.counted.under_way, same is_running refl refl);
          done = omega (arith, v.counted.done, same is_finishing refl refl);
          once = λ t. omega (arith, v.counted.once t, same (runs t) refl refl);
        };
        woken = v.woken;
        main_out = v.main_out;
        main_behind = v.main_behind;
      }

  worker_step :
      (p q : Pool) (i : ℕ) (s : Stage)
      → get_elem? p.workers i ≡ some s
      → elim (tp_worker_main task_count p.counters s) [
        | none ↦ none
        | some (c, next) ↦ some (record p { counters = c; workers = set p.workers i next })
      ]
        ≡ some q
      → 0 < task_count
      → IsConsistent task_count p
      → IsConsistent task_count q
  unfolding tp_worker_main
  worker_step p q i out e h some_task v = elim (Bool-cases (ltb 0 p.counters.task_permits)) [
    | inl permit ↦ subst (IsConsistent task_count) (ground arith) (worker_woken p i e v)
    | inr waits ↦ absurd (ground arith)
  ]
  worker_step p q i claiming e h some_task v =
      subst (IsConsistent task_count) (cc) (worker_run p i claiming e some_task v)
  worker_step p q i (running t) e h some_task v =
      subst (IsConsistent task_count) (cc) (worker_run p i (running t) e some_task v)
  worker_step p q i finishing e h some_task v =
      subst (IsConsistent task_count) (cc) (worker_run p i finishing e some_task v)

  main_returns :
      (p : Pool)
      → p.main ≡ out
      → p.returned ≡ false
      → 0 < p.counters.main_permits
      → IsConsistent task_count p
      → IsConsistent task_count (record p {
        counters = record p.counters { main_permits = p.counters.main_permits - 1 };
        returned = true;
      })
  main_returns p e waits permit v = record {
    counted = record {
      under_way = v.counted.under_way;
      done = v.counted.done;
      once = v.counted.once;
    };
    woken = ground (arith, v.woken);
    main_out = v.main_out;
    main_behind = λ h. ap is_out e;
  }

  main_step-IsConsistent :
      (p q : Pool) (s : Stage)
      → p.main ≡ s
      → main_step task_count p s ≡ some q
      → 0 < task_count
      → IsConsistent task_count p
      → IsConsistent task_count q
  unfolding main_step
  main_step-IsConsistent p q out e h some_task v = elim (Bool-cases p.returned) [
    | inl gone ↦ absurd (ground arith)
    | inr here ↦ elim (Bool-cases (ltb 0 p.counters.main_permits)) [
      | inl permit ↦
          subst (IsConsistent task_count) (ground arith) (main_returns p e here (ground arith) v)
      | inr waits ↦ absurd (ground arith)
    ]
  ]
  main_step-IsConsistent p q claiming e h some_task v =
      subst (IsConsistent task_count) (cc) (main_run p claiming e refl some_task v)
  main_step-IsConsistent p q (running t) e h some_task v =
      subst (IsConsistent task_count) (cc) (main_run p (running t) e refl some_task v)
  main_step-IsConsistent p q finishing e h some_task v =
      subst (IsConsistent task_count) (cc) (main_run p finishing e refl some_task v)

  -- Any thread takes a step.
  pub data PoolStep (p q : Pool) : Type 0 where
    step : (i : ℕ) → thread_step task_count p i ≡ some q → PoolStep p q

  -- A run of so many steps.
  pub data Reach (p : Pool) : ℕ → Pool → Type 0 where
    start : Reach p zero p
    next : {n : ℕ} {q r : Pool} → Reach p n q → PoolStep q r → Reach p (suc n) r

  thread_step-IsConsistent :
      (p q : Pool) (i : ℕ)
      → thread_step task_count p i ≡ some q
      → 0 < task_count
      → IsConsistent task_count p
      → IsConsistent task_count q
  unfolding thread_step
  thread_step-IsConsistent p q zero h some_task v =
      main_step-IsConsistent p q p.main refl h some_task v
  thread_step-IsConsistent p q (suc i) h some_task v = elim (Option-cases (get_elem? p.workers i)) [
    | inl missing ↦ absurd (ground arith)
    | inr (s, e) ↦ worker_step p q i s e (rw (e, thread_step) at h) some_task v
  ]

  pub Reach-IsConsistent :
      {p q : Pool} {n : ℕ}
      → 0 < task_count
      → IsConsistent task_count p
      → Reach p n q
      → IsConsistent task_count q
  Reach-IsConsistent some_task v start = v
  Reach-IsConsistent some_task v (next r (step i h)) =
      thread_step-IsConsistent _ _ i h some_task (Reach-IsConsistent some_task v r)
