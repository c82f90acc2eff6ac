-- ===== src/ThreadPool/Run/Measure.antt =====
-- src/thread_pool/thread_pool.c: what is left to do in a batch, as a number.
use compute_ql.Shared.{
  ℕ, zero, suc, ◌+◌, ◌-◌, ◌*◌, ◌≤◌, ◌<◌, ◌≡◌, refl, ap, subst, Bool, true, false, List, [], ◌∷◌,
  none, some, ltb, if◌then◌else◌, length, get_elem?, set, arith, Bool-cases, inl, inr, Option-cases,
  All,
}
use compute_ql.ThreadPool.Run.{
  ℤ, pos, negsuc, dec_eval, Stage, out, claiming, running, finishing, Counters, Pool, claim_task,
  tp_run_tasks, tp_worker_main, main_step, thread_step,
}
use compute_ql.ThreadPool.Run.Counts.{
  total, total-set, threads, is_running, runs, unclaimed, is_out, is_negative,
}

-- How far a thread is from being out of its loop, were there no more tasks.
unfoldable pub ahead_of : Stage → ℕ
ahead_of out = 0
ahead_of claiming = 1
ahead_of (running t) = 3
ahead_of finishing = 2

-- A bound on the steps to come.
unfoldable pub measure : Pool → ℕ
measure p =
    3 * unclaimed p.counters.task_left
    + 2 * p.counters.task_permits
    + total ahead_of (threads p)
    + (if p.returned then 0 else 1)

-- Between two batches a worker is waiting or about to claim.
abbrev pub is_idle : Stage → Bool
is_idle out = true
is_idle claiming = true
is_idle (running t) = false
is_idle finishing = false

abbrev pub AllIdle : List Stage → Type 0
AllIdle workers = All (λ s. is_idle s ≡ true) workers

pub out_zero : (f : Stage → ℕ) (s : Stage) → f out ≡ 0 → is_out s ≡ true → f s ≡ 0
out_zero f out z h = z
out_zero f claiming z h = cc
out_zero f (running t) z h = cc
out_zero f finishing z h = cc

idle_at : (f : Stage → ℕ) (s : Stage) → f out ≡ 0 → f claiming ≡ 0 → is_idle s ≡ true → f s ≡ 0
idle_at f out z y h = z
idle_at f claiming z y h = y
idle_at f (running t) z y h = cc
idle_at f finishing z y h = cc

pub idle_zero :
    (f : Stage → ℕ) (ss : List Stage) → f out ≡ 0 → f claiming ≡ 0 → AllIdle ss → total f ss ≡ 0
unfolding total
idle_zero f [] z y h = refl
idle_zero f (s ∷ ss) z y h = omega (arith, idle_at f s z y h.0, idle_zero f ss z y h.1)

pub none_left : (left : ℤ) → is_negative left ≡ true → unclaimed left ≡ 0
none_left (pos n) h = cc
none_left (negsuc n) h = refl

runs_one : (t : ℕ) (s : Stage) → runs t s ≤ is_running s
unfolding runs is_running
runs_one t out = omega arith
runs_one t claiming = omega arith
runs_one t (running u) = ground arith
runs_one t finishing = omega arith

pub runs_few : (t : ℕ) (ss : List Stage) → total (runs t) ss ≤ total is_running ss
unfolding total
runs_few t [] = omega arith
runs_few t (s ∷ ss) = omega (arith, runs_one t s, runs_few t ss)

idle_little : (s : Stage) → is_idle s ≡ true → ahead_of s ≤ 1
unfolding ahead_of
idle_little out h = omega arith
idle_little claiming h = omega arith
idle_little (running t) h = cc
idle_little finishing h = cc

pub idle_ahead : (ss : List Stage) → AllIdle ss → total ahead_of ss ≤ length ss
unfolding total
idle_ahead [] h = omega arith
idle_ahead (s ∷ ss) h = omega (arith, idle_little s h.0, idle_ahead ss h.1)

module _ (task_count : ℕ) where
  claim_less :
      (left : ℤ)
      → 3 * unclaimed (dec_eval left)
          + ahead_of
              (elim (dec_eval left) [ pos n ↦ running (task_count - (n + 1)) | negsuc n ↦ out ])
        < 3 * unclaimed left + 1
  unfolding dec_eval ahead_of
  claim_less (pos zero) = omega arith
  claim_less (pos (suc n)) = omega arith
  claim_less (negsuc n) = omega arith

  run_tasks_less :
      (c : Counters) (s : Stage)
      → is_out s ≡ false
      → (let (c', s') = tp_run_tasks task_count c s in
          (3 * unclaimed c'.task_left + ahead_of s' < 3 * unclaimed c.task_left + ahead_of s)
          × (c'.task_permits ≡ c.task_permits))
  unfolding tp_run_tasks claim_task ahead_of
  run_tasks_less c out h = cc
  run_tasks_less c claiming h = (claim_less c.task_left, refl)
  run_tasks_less c (running t) h = (omega arith, refl)
  run_tasks_less c finishing h = (omega arith, refl)

  main_run_less :
      (p : Pool) (s : Stage)
      → p.main ≡ s
      → is_out s ≡ false
      → measure (record p {
        counters = (tp_run_tasks task_count p.counters s).0;
        main = (tp_run_tasks task_count p.counters s).1;
      })
        < measure p
  unfolding measure total
  main_run_less p s e inside = omega (
    arith,
    (run_tasks_less p.counters s inside).0,
    (run_tasks_less p.counters s inside).1,
    ap ahead_of e,
  )

  return_less : (p q : Pool) → main_step task_count p out ≡ some q → measure q < measure p
  unfolding main_step measure total
  return_less p q h = ground arith

  main_less :
      (p q : Pool) (s : Stage)
      → p.main ≡ s
      → main_step task_count p s ≡ some q
      → measure q < measure p
  unfolding main_step
  main_less p q out e h = return_less p q h
  main_less p q claiming e h =
      subst (λ r. measure r < measure p) (cc) (main_run_less p claiming e refl)
  main_less p q (running t) e h =
      subst (λ r. measure r < measure p) (cc) (main_run_less p (running t) e refl)
  main_less p q finishing e h =
      subst (λ r. measure r < measure p) (cc) (main_run_less p finishing e refl)

  worker_run_less :
      (p : Pool) (i : ℕ) (s : Stage)
      → get_elem? p.workers i ≡ some s
      → is_out s ≡ false
      → measure (record p {
        counters = (tp_run_tasks task_count p.counters s).0;
        workers = set p.workers i (tp_run_tasks task_count p.counters s).1;
      })
        < measure p
  unfolding measure total
  worker_run_less p i s e inside = omega (
    arith,
    (run_tasks_less p.counters s inside).0,
    (run_tasks_less p.counters s inside).1,
    total-set ahead_of p.workers i s (tp_run_tasks task_count p.counters s).1 e,
  )

  permit_less :
      (p : Pool) (i : ℕ)
      → get_elem? p.workers i ≡ some out
      → 0 < p.counters.task_permits
      → measure (record p {
        counters = record p.counters { task_permits = p.counters.task_permits - 1 };
        workers = set p.workers i claiming;
      })
        < measure p
  unfolding measure total ahead_of
  permit_less p i e permit = omega (arith, total-set ahead_of p.workers i out claiming e)

  worker_less :
      (p q : Pool) (i : ℕ) (s : Stage)
      → get_elem? p.workers i ≡ some s
      → elim (tp_worker_main task_count p.counters s) [
        | none ↦ none
        | some (c, later) ↦ some (record p { counters = c; workers = set p.workers i later })
      ]
        ≡ some q
      → measure q < measure p
  unfolding tp_worker_main
  worker_less p q i out e h = elim (Bool-cases (ltb 0 p.counters.task_permits)) [
    | inl permit ↦
        subst (λ r. measure r < measure p) (ground arith) (permit_less p i e (ground arith))
    | inr waits ↦ absurd (ground arith)
  ]
  worker_less p q i claiming e h =
      subst (λ r. measure r < measure p) (cc) (worker_run_less p i claiming e refl)
  worker_less p q i (running t) e h =
      subst (λ r. measure r < measure p) (cc) (worker_run_less p i (running t) e refl)
  worker_less p q i finishing e h =
      subst (λ r. measure r < measure p) (cc) (worker_run_less p i finishing e refl)

  pub thread_step_less :
      (p q : Pool) (i : ℕ) → thread_step task_count p i ≡ some q → measure q < measure p
  unfolding thread_step
  thread_step_less p q zero h = main_less p q p.main refl h
  thread_step_less p q (suc i) h = elim (Option-cases (get_elem? p.workers i)) [
    | inl missing ↦ absurd (ground arith)
    | inr (s, e) ↦ worker_less p q i s e (rw (e, thread_step) at h)
  ]
