-- ===== src/ThreadPool/Run.antt =====
-- src/thread_pool/thread_pool.c, `tp_run_tasks` and `tp_for_parallel`: one batch of tasks. The threads
-- share the counters of the pool, and a step of a thread is what it does between two accesses to them;
-- steps of the threads follow one another in any order. Thread 0 is the caller of tp_for_parallel,
-- thread i + 1 a worker. The pool is live as long as a batch runs, so that the test of `is_live` in
-- tp_worker_main holds. The task semaphore takes worker_count permits at most and refuses a drop
-- beyond them; `permits` of tp_for_parallel is any number, so that it also stands for what is left of
-- them with the refused drops taken off. The main semaphore is dropped when task_done reaches
-- task_count, and then has one permit, its maximum.
pub mod Counts
pub mod Batch
pub mod Measure
pub mod Progress
use compute_ql.Shared.{
  ℕ, zero, suc, ◌+◌, ◌-◌, min, Bool, true, false, List, [], ◌∷◌, ◌++◌, Option, none, some, ltb,
  ◌==◌, if◌then◌else◌, get_elem?, set,
}

-- The S64 `task_left`: `negsuc n` is -(n + 1).
pub data ℤ : Type 0 where
  pos : ℕ → ℤ
  negsuc : ℕ → ℤ

-- `ins_atomic_u64_dec_eval` of Windows, InterlockedDecrement64: the value after the decrement. The macro
-- of Linux gives the value before it and is not modelled.
unfoldable pub dec_eval : ℤ → ℤ
dec_eval (pos zero) = negsuc 0
dec_eval (pos (suc n)) = pos n
dec_eval (negsuc n) = negsuc (suc n)

-- Where a thread stands in tp_run_tasks; `out` is behind its loop.
pub data Stage : Type 0 where
  out : Stage
  claiming : Stage
  running : ℕ → Stage
  finishing : Stage

-- The counters of TP_Context and the permits of its semaphores; `executed` is the calls of task_func.
pub record Counters : Type 0 where
  pub task_left : ℤ
  pub task_done : ℕ
  pub task_permits : ℕ
  pub main_permits : ℕ
  pub executed : List ℕ

pub record Pool : Type 0 where
  pub counters : Counters
  pub main : Stage
  pub returned : Bool
  pub workers : List Stage

-- `pool->task_count` is fixed while the batch runs.
module _ (task_count : ℕ) where
  unfoldable pub claim_task : Counters → Counters × Stage
  claim_task c =
      let left : ℤ = dec_eval c.task_left in
      (
        record c { task_left = left },
        elim left [ pos n ↦ running (task_count - (n + 1)) | negsuc n ↦ out ],
      )

  unfoldable pub tp_run_tasks : Counters → Stage → Counters × Stage
  tp_run_tasks c out = (c, out)
  tp_run_tasks c claiming = claim_task c
  tp_run_tasks c (running task_id) = (record c { executed = c.executed ++ task_id ∷ [] }, finishing)
  tp_run_tasks c finishing = (
    record c {
      task_done = c.task_done + 1;
      main_permits = if c.task_done + 1 == task_count then c.main_permits + 1 else c.main_permits;
    },
    claiming,
  )

  -- A worker that is out takes a permit of the task semaphore, and `none` says that it waits.
  unfoldable pub tp_worker_main : Counters → Stage → Option (Counters × Stage)
  tp_worker_main c out =
      if ltb 0 c.task_permits
      then some (record c { task_permits = c.task_permits - 1 }, claiming)
      else none
  tp_worker_main c claiming = some (tp_run_tasks c claiming)
  tp_worker_main c (running task_id) = some (tp_run_tasks c (running task_id))
  tp_worker_main c finishing = some (tp_run_tasks c finishing)

  unfoldable pub main_step : Pool → Stage → Option Pool
  main_step p out =
      if p.returned
      then none
      else if ltb 0 p.counters.main_permits
      then some (record p {
        counters = record p.counters { main_permits = p.counters.main_permits - 1 };
        returned = true;
      })
      else none
  main_step p stage =
      let (c, next) = tp_run_tasks p.counters stage in some (record p { counters = c; main = next })

  unfoldable pub thread_step : Pool → ℕ → Option Pool
  thread_step p zero = main_step p p.main
  thread_step p (suc i) = elim (get_elem? p.workers i) [
    | none ↦ none
    | some stage ↦ elim (tp_worker_main p.counters stage) [
      | none ↦ none
      | some (c, next) ↦ some (record p { counters = c; workers = set p.workers i next })
    ]
  ]

  -- tp_for_parallel up to its call of tp_run_tasks. The workers are where the batch before has left
  -- them, and so are permits of the task semaphore.
  unfoldable pub tp_for_parallel : ℕ → List Stage → ℕ → Pool
  tp_for_parallel worker_count workers permits = record {
    counters = record {
      task_left = pos task_count;
      task_done = 0;
      task_permits = permits + min task_count worker_count;
      main_permits = 0;
      executed = [];
    };
    main = claiming;
    returned = false;
    workers = workers;
  }
