-- ===== src/ThreadPool/Job/Phases.antt =====
-- `parallel_for_with_max_workers` and `worker_loop` of
-- crates/backends/backend_common/src/thread_pool.rs: what a move of a worker keeps, with a caller or without.
use mathlib.Core.Option.{some-injective}
use herbert_rs.Prelude.{
  ℕ, ◌^◌, ◌≤◌, ◌<◌, ◌≡◌, refl, sym, ap, subst, ◌∙◌, inl, inr, true, Option, none, some, List, ltb,
  ltb-false, lt→ltb, le→ltb, ◌==◌, arith, Bool-cases,
}
use herbert_rs.ThreadPool.Job.{
  ParallelJob, SharedState, PoolResult, finish_with, collect, Worker, chunk, parked, runs, idles,
  stopped, look, complete,
}
use herbert_rs.ThreadPool.Job.Chunks.{make_job-active_workers}
use herbert_rs.ThreadPool.Job.System.{Caller, nobody, awaits, count_call}
use herbert_rs.Prelude.Counting.{put, put-all, count_all, count_same}
use herbert_rs.ThreadPool.Job.Working.{put_both, is_back, its_calls, Works, Rests}
use herbert_rs.ThreadPool.Job.Invariant.{Working, Phase, look-Works, look-Rests, complete-Working}

pub collect-some :
    (active : ℕ) (s t : SharedState) {result : PoolResult}
    → collect active s ≡ some (result, t)
    → (active ≤ s.completed_workers) × (t ≡ record s { panic = none })
unfolding collect
collect-some active s t {result} h = elim (Bool-cases (ltb s.completed_workers active)) [
  | inl e ↦ cc (rw e at h)
  | inr e ↦ (ltb-false _ _ e, state_of (finish_with s.panic) result _ t (rw e at h))
]
  where
    state_of :
        (a b : PoolResult) (x y : SharedState)
        → ◌≡◌ {A = Option (PoolResult × SharedState)} (some (a, x)) (some (b, y))
        → y ≡ x
    state_of a b x y e = sym (ap (λ r. r.1) (some-injective (a, x) (b, y) e))

module _ {num : ℕ} {job : ParallelJob} {s : SharedState} {workers : ℕ → Worker} {calls : ℕ → ℕ}
    (v : Working num job s workers calls) where
  active-small : job.active_workers < 2 ^ 64
  active-small = omega (
    arith,
    v.fits,
    make_job-active_workers num v.max_workers v.total v.positive,
    ap (λ j. j.active_workers) v.made,
  )

  -- Once enough workers are counted, all of them are back.
  pub back :
      job.active_workers ≤ s.completed_workers
      → (i : ℕ) → i < job.active_workers
      → is_back s.generation (workers i) ≡ true
  back enough =
      count_all job.active_workers (λ i. is_back s.generation (workers i))
        (omega (arith, v.counted))

  pub rests :
      job.active_workers ≤ s.completed_workers
      → (i : ℕ) → Rests s.current_job s.generation i (workers i)
  rests enough i = rw v.current (rest_of (workers i) (calls i) (v.each i) (back enough i))
    where
      rest_of :
          (w : Worker) (k : ℕ)
          → Works job s.generation i w k
          → (i < job.active_workers → is_back s.generation w ≡ true)
          → Rests (some job) s.generation i w
      rest_of (parked seen) k h b = (h.0, λ share. ground (arith, b share))
      rest_of (runs seen j x y) k h b = cc (b h.1)
      rest_of (idles seen j) k h b = cc (b h.1)
      rest_of stopped k h b = tt

pub look-Phase :
    (num i seen : ℕ) (c : Caller) (s : SharedState) (workers : ℕ → Worker) (calls : ℕ → ℕ)
    → workers i ≡ parked seen
    → Phase num c s workers calls
    → Phase num c s
        (put workers i (look i seen s))
        (put calls i (count_call (look i seen s) (calls i)))
look-Phase num i seen nobody s workers calls at h =
    put-all (Rests s.current_job s.generation) workers i (look i seen s) h
      (look-Rests i seen s (subst (Rests s.current_job s.generation i) at (h i)))
look-Phase num i seen (awaits job) s workers calls at v = record {
  open_pool = v.open_pool;
  current = v.current;
  counted = v.counted ∙ count_same job.active_workers _ _ same;
  each = put_both (Works job s.generation) workers calls i _ _ v.each new.0;
  max_workers = v.max_workers;
  total = v.total;
  fits = v.fits;
  positive = v.positive;
  made = v.made;
}
  where
    new :
        Works job s.generation i (look i seen s) (count_call (look i seen s) (calls i))
        × ((i < job.active_workers)
            → is_back s.generation (look i seen s) ≡ is_back s.generation (parked seen))
    new =
        look-Works job s.generation i seen (calls i) s v.open_pool v.current refl
          (subst (λ w. Works job s.generation i w (calls i)) at (v.each i))

    same :
        (j : ℕ)
        → j < job.active_workers
        → is_back s.generation (workers j) ≡ is_back s.generation (put workers i (look i seen s) j)
    same j lt = elim (Bool-cases (j == i)) [
      | inr e ↦ rw e refl
      | inl e ↦ rw e (
          let q : j ≡ i = ground arith in
          ap (λ k. is_back s.generation (workers k)) q
          ∙ ap (is_back s.generation) at
          ∙ sym (new.1 (omega (arith, lt, q))))
    ]

pub calls_one :
    (job : ParallelJob) (i x y k : ℕ)
    → i < job.active_workers
    → x ≡ (chunk job i).0
    → y ≡ (chunk job i).1
    → x < y
    → k ≡ 1
    → k ≡ its_calls job i
calls_one job i x y k lt a b has e =
    e
    ∙ sym (
        rw (lt→ltb i job.active_workers lt, lt→ltb (chunk job i).0 (chunk job i).1 (omega arith))
          refl)

calls_zero :
    (job : ParallelJob) (i k : ℕ) → (chunk job i).1 ≤ (chunk job i).0 → k ≡ 0 → k ≡ its_calls job i
calls_zero job i k le e = ground (arith, le→ltb (chunk job i).0 (chunk job i).1 le)

pub called-Phase :
    (num i seen x y : ℕ) (j : ParallelJob) (caught : Option (List ℕ)) (c : Caller) (s : SharedState)
    (workers : ℕ → Worker) (calls : ℕ → ℕ)
    → workers i ≡ runs seen j x y
    → Phase num c s workers calls
    → Phase num c (complete i caught s) (put workers i (parked seen)) calls
called-Phase num i seen x y j caught nobody s workers calls at h =
    elim (subst (Rests s.current_job s.generation i) at (h i)) [ ]
called-Phase num i seen x y j caught (awaits job) s workers calls at v =
    let w = subst (λ w. Works job s.generation i w (calls i)) at (v.each i) in
    complete-Working num i seen caught job s workers calls (active-small v) w.1 (rw at refl) w.0
      (calls_one job i x y (calls i) w.1 w.2 w.3 w.4 w.5) v

pub skips-Phase :
    (num i seen : ℕ) (j : ParallelJob) (c : Caller) (s : SharedState) (workers : ℕ → Worker)
    (calls : ℕ → ℕ)
    → workers i ≡ idles seen j
    → Phase num c s workers calls
    → Phase num c (complete i none s) (put workers i (parked seen)) calls
skips-Phase num i seen j nobody s workers calls at h =
    elim (subst (Rests s.current_job s.generation i) at (h i)) [ ]
skips-Phase num i seen j (awaits job) s workers calls at v =
    let w = subst (λ w. Works job s.generation i w (calls i)) at (v.each i) in
    complete-Working num i seen none job s workers calls (active-small v) w.1 (rw at refl) w.0
      (calls_zero job i (calls i) w.2 w.3) v
