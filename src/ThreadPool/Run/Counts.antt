-- ===== src/ThreadPool/Run/Counts.antt =====
-- src/thread_pool/thread_pool.c: the counters of a batch against what its threads do.
use compute_ql.Shared.{
  ℕ, zero, suc, ◌+◌, ◌-◌, ◌<◌, ◌≡◌, refl, Bool, true, false, List, [], ◌∷◌, some, ltb, ◌==◌,
  if◌then◌else◌, length, get_elem?, set, arith, length-append,
}
use compute_ql.Order.Laws.{count, count-append}
use compute_ql.ThreadPool.Run.{
  ℤ, pos, negsuc, dec_eval, Stage, out, claiming, running, finishing, Counters, Pool, claim_task,
  tp_run_tasks,
}

-- A number of every thread, added up.
unfoldable pub total : (Stage → ℕ) → List Stage → ℕ
total f [] = 0
total f (s ∷ ss) = f s + total f ss

pub total-set :
    (f : Stage → ℕ) (ss : List Stage) (i : ℕ) (s t : Stage)
    → get_elem? ss i ≡ some s
    → total f (set ss i t) + f s ≡ total f ss + f t
unfolding total
total-set f [] i s t h = cc
total-set f (r ∷ ss) zero s t h = let e : r ≡ s = cc in rw e (omega arith)
total-set f (r ∷ ss) (suc i) s t h = omega (arith, total-set f ss i s t h)

abbrev pub threads : Pool → List Stage
threads p = p.main ∷ p.workers

unfoldable pub is_running : Stage → ℕ
is_running out = 0
is_running claiming = 0
is_running (running t) = 1
is_running finishing = 0

unfoldable pub is_finishing : Stage → ℕ
is_finishing out = 0
is_finishing claiming = 0
is_finishing (running t) = 0
is_finishing finishing = 1

unfoldable pub runs : ℕ → Stage → ℕ
runs t out = 0
runs t claiming = 0
runs t (running u) = if t == u then 1 else 0
runs t finishing = 0

-- The tasks that are not claimed.
abbrev pub unclaimed : ℤ → ℕ
unclaimed (pos n) = n
unclaimed (negsuc n) = 0

abbrev pub is_out : Stage → Bool
is_out out = true
is_out claiming = false
is_out (running t) = false
is_out finishing = false

abbrev pub is_negative : ℤ → Bool
is_negative (pos n) = false
is_negative (negsuc n) = true

count_one : (u t : ℕ) → count u (t ∷ []) ≡ (if u == t then 1 else 0)
unfolding count
count_one u t = omega arith

module _ (task_count : ℕ) where
  -- What holds between the counters, the tasks executed, and numbers of threads at each stage.
  pub record IsCounted (c : Counters) (running_threads finishing_threads : ℕ) (run : ℕ → ℕ)
      : Type 0 where
    pub under_way : length c.executed + running_threads + unclaimed c.task_left ≡ task_count
    pub done : c.task_done + finishing_threads ≡ length c.executed
    pub once :
        (t : ℕ)
        → count t c.executed + run t ≡ (if ltb t (task_count - unclaimed c.task_left) then 1 else 0)

  pub record IsConsistent (p : Pool) : Type 0 where
    pub counted :
        IsCounted p.counters
          (total is_running (threads p))
          (total is_finishing (threads p))
          (λ t. total (runs t) (threads p))
    pub woken :
        p.counters.main_permits + (if p.returned then 1 else 0)
        ≡ (if p.counters.task_done == task_count then 1 else 0)
    pub main_out : is_out p.main ≡ true → is_negative p.counters.task_left ≡ true
    pub main_behind : p.returned ≡ true → is_out p.main ≡ true

  claim-IsCounted :
      (left : ℤ) (done task_permits main_permits : ℕ) (executed : List ℕ) (r f : ℕ) (run : ℕ → ℕ)
      → (let c : Counters = record {
        task_left = left;
        task_done = done;
        task_permits = task_permits;
        main_permits = main_permits;
        executed = executed;
      } in
          IsCounted c
            (is_running claiming + r)
            (is_finishing claiming + f)
            (λ t. runs t claiming + run t)
          → (let (c', s') = claim_task task_count c in
              IsCounted c' (is_running s' + r) (is_finishing s' + f) (λ t. runs t s' + run t)))
  unfolding claim_task dec_eval is_running is_finishing runs
  claim-IsCounted (pos zero) done tp mp executed r f run v = record {
    under_way = omega (arith, v.under_way);
    done = omega (arith, v.done);
    once = λ u. omega (arith, v.once u);
  }
  claim-IsCounted (pos (suc n)) done tp mp executed r f run v = record {
    under_way = omega (arith, v.under_way);
    done = omega (arith, v.done);
    once = λ u. ground (arith, v.once u, v.under_way);
  }
  claim-IsCounted (negsuc n) done tp mp executed r f run v = record {
    under_way = omega (arith, v.under_way);
    done = omega (arith, v.done);
    once = λ u. omega (arith, v.once u);
  }

  -- A step of tp_run_tasks by one thread, whose stage adds to the rest of the threads.
  pub run_tasks-IsCounted :
      (c : Counters) (s : Stage) (r f : ℕ) (run : ℕ → ℕ)
      → 0 < task_count
      → IsCounted c (is_running s + r) (is_finishing s + f) (λ t. runs t s + run t)
      → (let (c', s') = tp_run_tasks task_count c s in
          IsCounted c' (is_running s' + r) (is_finishing s' + f) (λ t. runs t s' + run t))
  unfolding tp_run_tasks claim_task dec_eval is_running is_finishing runs
  run_tasks-IsCounted c out r f run some_task v = v
  run_tasks-IsCounted c claiming r f run some_task v =
      claim-IsCounted c.task_left c.task_done c.task_permits c.main_permits c.executed r f run v
  run_tasks-IsCounted c (running t) r f run some_task v = record {
    under_way = omega (arith, v.under_way, length-append c.executed (t ∷ []));
    done = omega (arith, v.done, length-append c.executed (t ∷ []));
    once = λ u. omega (arith, v.once u, count-append u c.executed (t ∷ []), count_one u t);
  }
  run_tasks-IsCounted c finishing r f run some_task v = record {
    under_way = omega (arith, v.under_way);
    done = omega (arith, v.done);
    once = λ u. v.once u;
  }

  claim_negative : (left : ℤ) → is_negative left ≡ true → is_negative (dec_eval left) ≡ true
  unfolding dec_eval
  claim_negative (pos n) h = cc
  claim_negative (negsuc n) h = refl

  claim_out :
      (left : ℤ)
      → is_out (elim left [ pos n ↦ running (task_count - (n + 1)) | negsuc n ↦ out ]) ≡ true
      → is_negative left ≡ true
  claim_out (pos n) h = cc
  claim_out (negsuc n) h = refl

  pub run_tasks_negative :
      (c : Counters) (s : Stage)
      → is_negative c.task_left ≡ true
      → is_negative (tp_run_tasks task_count c s).0.task_left ≡ true
  unfolding tp_run_tasks claim_task
  run_tasks_negative c out h = h
  run_tasks_negative c claiming h = claim_negative c.task_left h
  run_tasks_negative c (running t) h = h
  run_tasks_negative c finishing h = h

  pub run_tasks_out :
      (c : Counters) (s : Stage)
      → is_out s ≡ false
      → is_out (tp_run_tasks task_count c s).1 ≡ true
      → is_negative (tp_run_tasks task_count c s).0.task_left ≡ true
  unfolding tp_run_tasks claim_task
  run_tasks_out c out h k = cc
  run_tasks_out c claiming h k = claim_out (dec_eval c.task_left) k
  run_tasks_out c (running t) h k = cc
  run_tasks_out c finishing h k = cc

  -- The one that finishes the last task wakes the caller.
  pub run_tasks_woken :
      (c : Counters) (s : Stage) (r f ret : ℕ) (run : ℕ → ℕ)
      → IsCounted c (is_running s + r) (is_finishing s + f) run
      → c.main_permits + ret ≡ (if c.task_done == task_count then 1 else 0)
      → (let c' = (tp_run_tasks task_count c s).0 in
          c'.main_permits + ret ≡ (if c'.task_done == task_count then 1 else 0))
  unfolding tp_run_tasks claim_task is_finishing is_running
  run_tasks_woken c out r f ret run v h = h
  run_tasks_woken c claiming r f ret run v h = h
  run_tasks_woken c (running t) r f ret run v h = h
  run_tasks_woken c finishing r f ret run v h = ground (arith, v.under_way, v.done)

  pub IsCounted-cast :
      (c : Counters) (r r' f f' : ℕ) (run run' : ℕ → ℕ)
      → r ≡ r'
      → f ≡ f'
      → ((t : ℕ) → run t ≡ run' t)
      → IsCounted c r f run
      → IsCounted c r' f' run'
  IsCounted-cast c r r' f f' run run' e e' e'' v = record {
    under_way = omega (arith, v.under_way, e);
    done = omega (arith, v.done, e');
    once = λ t. omega (arith, v.once t, e'' t);
  }
