-- ===== src/Tests/Work.antt =====
-- The division of work of src/thread_pool/thread_pool.c.
use compute_ql.Shared.{
  ℕ, ◌+◌, ◌*◌, ◌≤◌, ◌≡◌, refl, min, true, [], ◌∷◌, List, Option, none, some, Option-cases, subst,
  inl, inr, if◌then◌else◌, ltb, length, arith,
}
use compute_ql.Order.Laws.{count}
use compute_ql.ThreadPool.Run.{
  Pool, Stage, out, negsuc, thread_step, main_step, tp_worker_main, tp_run_tasks, claim_task,
  dec_eval, tp_for_parallel,
}
use compute_ql.ThreadPool.Run.Batch.{step, Reach, start, next}
use compute_ql.ThreadPool.Run.Progress.{for_parallel_returns, for_parallel_executes}
use compute_ql.ThreadPool.{tp_divide_work, Chained, divide_work-Chained}

divide_work-Chained_example : Chained 0 10 (tp_divide_work 10 4)
divide_work-Chained_example = divide_work-Chained 10 4 (omega arith) (omega arith)

ten_by_four :
    tp_divide_work 10 4
    ≡ record { min_value = 0; max_value = 3 }
      ∷ record { min_value = 3; max_value = 6 }
      ∷ record { min_value = 6; max_value = 9 }
      ∷ record { min_value = 9; max_value = 10 }
      ∷ record { min_value = 10; max_value = 10 }
      ∷ []
unfolding tp_divide_work compute_ql.ThreadPool.ranges_from compute_ql.ThreadPool.work_range
    compute_ql.ThreadPool.ceil_integer_div
ten_by_four = refl

-- The threads take steps in the order of the list from its end.
abbrev play : List ℕ → Pool → Option Pool
play [] p = some p
play (i ∷ is) p = elim (play is p) [ none ↦ none | some q ↦ thread_step 2 q i ]

Reach-play : (is : List ℕ) (p q : Pool) → play is p ≡ some q → Reach 2 p (length is) q
Reach-play [] p q h = subst (Reach 2 p 0) (cc) start
Reach-play (i ∷ is) p q h = elim (Option-cases (play is p)) [
  | inl stuck ↦ absurd (ground arith)
  | inr (r, e) ↦ next (Reach-play is p r e) (step i (rw (e, play) at h))
]

-- Two tasks, for the caller and a worker that waits.
abbrev two_tasks : Pool
two_tasks = tp_for_parallel 2 2 (out ∷ []) 0

abbrev schedule : List ℕ
schedule = 0 ∷ 1 ∷ 0 ∷ 1 ∷ 0 ∷ 1 ∷ 0 ∷ 1 ∷ 0 ∷ 1 ∷ []

abbrev last_pool : Pool
last_pool = record {
  counters = record {
    task_left = negsuc 1;
    task_done = 2;
    task_permits = 1;
    main_permits = 0;
    executed = 0 ∷ 1 ∷ [];
  };
  main = out;
  returned = true;
  workers = out ∷ [];
}

played : play schedule two_tasks ≡ some last_pool
unfolding thread_step main_step tp_worker_main tp_run_tasks claim_task dec_eval tp_for_parallel
played = refl

for_parallel_executes_example : count 1 last_pool.counters.executed ≡ (if ltb 1 2 then 1 else 0)
for_parallel_executes_example =
    for_parallel_executes 2 2 0 (out ∷ []) 10 last_pool (omega arith) (refl, tt)
      (Reach-play schedule two_tasks last_pool played) refl 1

for_parallel_returns_example :
    (10 ≤ 3 * 2 + 2 * (0 + min 2 2) + length {A = Stage} (out ∷ []) + 2)
    × (((i : ℕ) → thread_step 2 last_pool i ≡ none) → last_pool.returned ≡ true)
for_parallel_returns_example =
    for_parallel_returns 2 2 0 (out ∷ []) 10 last_pool (omega arith) (refl, tt)
      (Reach-play schedule two_tasks last_pool played)
