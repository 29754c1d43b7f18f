-- ===== src/ThreadPool/Job/Invariant.antt =====
-- The pool of crates/backends/backend_common/src/thread_pool.rs: every move keeps what holds of its
-- workers.
use herbert_rs.Prelude.{
  ℕ, suc, ◌+◌, ◌%◌, ◌^◌, ◌≤◌, ◌<◌, ◌≡◌, refl, sym, ap, ◌∙◌, inl, inr, ◌≢◌, true, false, Option,
  none, some, List, ltb, leb, ltb→lt, ltb-false, leb-false, leb→le, le→ltb, ◌==◌, if◌then◌else◌,
  arith, Bool-cases,
}
use herbert_rs.ThreadPool.Job.{
  ParallelJob, SharedState, shared, begin, publish, Worker, make_job, chunk, parked, runs, idles,
  stopped, take_job, look, complete, active_workers,
}
use herbert_rs.ThreadPool.Job.System.{Caller, Pool, count_call}
use herbert_rs.Prelude.Counting.{put, put-all, count, count-le, count_none, count_one}
use herbert_rs.ThreadPool.Job.Working.{is_back, its_calls, Works, HasShare, Rests}

pub record Working (num : ℕ) (job : ParallelJob) (s : SharedState) (workers : ℕ → Worker)
    (calls : ℕ → ℕ) : Type 0 where
  pub open_pool : s.shutdown ≡ false
  pub current : s.current_job ≡ some job
  pub counted :
      s.completed_workers ≡ count job.active_workers (λ i. is_back s.generation (workers i))
  pub each : (i : ℕ) → Works job s.generation i (workers i) (calls i)
  pub max_workers : ℕ
  pub total : ℕ
  pub fits : total < 2 ^ 64
  pub positive : 0 < total
  pub made : job ≡ make_job num max_workers total

abbrev pub Phase : ℕ → Caller → SharedState → (ℕ → Worker) → (ℕ → ℕ) → Type 0
Phase num Caller.nobody s workers calls = (i : ℕ) → Rests s.current_job s.generation i (workers i)
Phase num (Caller.awaits job) s workers calls = Working num job s workers calls

pub record Inv (num n : ℕ) (p : Pool) : Type 0 where
  pub bound : p.state.generation ≤ n
  pub phase : Phase num p.caller p.state p.workers p.calls

begin-shared :
    (num m total : ℕ) {job : ParallelJob}
    → begin num m total ≡ shared job
    → (0 < total) × (job ≡ make_job num m total)
unfolding begin
begin-shared num m total {job} h = elim (Bool-cases (total == 0)) [
  | inl e ↦ cc (rw e at h)
  | inr e ↦ elim (Bool-cases (active_workers num m total == 1)) [
    | inl one ↦ cc (rw (e, one) at h)
    | inr more ↦ (ground arith, job_of _ _ (rw (e, more) at h))
  ]
]
  where
    job_of : (a b : ParallelJob) → shared a ≡ shared b → b ≡ a
    job_of a b e = cc

-- A resting worker has not seen the generation that comes next.
Rests-Works :
    (job : ParallelJob) (current : Option ParallelJob) (g i : ℕ) (w : Worker)
    → Rests current g i w
    → Works job (suc g) i w 0 × (is_back (suc g) w ≡ false)
Rests-Works job current g i (parked seen) h =
    ((omega (arith, h.0), ground (arith, h.0)), ground (arith, h.0))
Rests-Works job current g i (runs seen _ start end) h = elim h [ ]
Rests-Works job current g i (idles seen _) h = elim h [ ]
Rests-Works job current g i stopped h = (refl, refl)

pub submit-Working :
    (num max_workers total n : ℕ) (job : ParallelJob) (s : SharedState) (workers : ℕ → Worker)
    → suc n < 2 ^ 64
    → s.generation ≤ n
    → s.shutdown ≡ false
    → total < 2 ^ 64
    → begin num max_workers total ≡ shared job
    → ((i : ℕ) → Rests s.current_job s.generation i (workers i))
    → Working num job (publish job s) workers (λ i. 0)
      × ((publish job s).generation ≡ suc s.generation)
unfolding publish
submit-Working num m total n job s workers small bound still fits starts rests = (
  record {
    open_pool = still;
    current = refl;
    counted = sym (
        rw next_generation (
          count_none job.active_workers (λ i. is_back (suc s.generation) (workers i))
            (λ i. (Rests-Works job s.current_job s.generation i (workers i) (rests i)).1)));
    each = λ i.
        rw next_generation (Rests-Works job s.current_job s.generation i (workers i) (rests i)).0;
    max_workers = m;
    total = total;
    fits = fits;
    positive = (begin-shared num m total starts).0;
    made = (begin-shared num m total starts).1;
  },
  next_generation,
)
  where
    next_generation : (s.generation + 1) % 2 ^ 64 ≡ suc s.generation
    next_generation = omega arith

pub self_eq : (g : ℕ) → (g == g) ≡ true
self_eq g = ground arith

other_eq : (a b : ℕ) → (a == b) ≡ false → (b == a) ≡ false
other_eq a b h = ground arith

-- The job that a worker takes up when the generation is new to it.
take-Works :
    (job : ParallelJob) (g i k : ℕ)
    → k ≡ 0
    → Works job g i (take_job i g (some job)) (count_call (take_job i g (some job)) k)
      × ((i < job.active_workers) → is_back g (take_job i g (some job)) ≡ false)
take-Works job g i k none_yet = elim (Bool-cases (leb job.active_workers i)) [
  | inl e ↦ rw e (
    (omega arith, rw (self_eq g, le→ltb i job.active_workers (leb→le _ _ e)) none_yet),
    λ lt. absurd (omega (arith, leb→le _ _ e, lt)),
  )
  | inr e ↦ elim (Bool-cases (ltb (chunk job i).0 (chunk job i).1)) [
    | inl has ↦
        rw (e, has)
          ((refl, leb-false _ _ e, refl, refl, ltb→lt _ _ has, omega (arith, none_yet)), λ lt. refl)
    | inr nothing ↦
        rw (e, nothing) ((refl, leb-false _ _ e, ltb-false _ _ nothing, none_yet), λ lt. refl)
  ]
]

look_open :
    (job : ParallelJob) (i seen : ℕ) (s : SharedState)
    → s.shutdown ≡ false
    → s.current_job ≡ some job
    → look i seen s
      ≡ (if s.generation == seen then parked seen else take_job i s.generation (some job))
unfolding look
look_open job i seen s still current = rw (still, current) refl

-- A worker that looks at the state while its pool is at work.
pub look-Works :
    (job : ParallelJob) (g i seen k : ℕ) (s : SharedState)
    → s.shutdown ≡ false
    → s.current_job ≡ some job
    → s.generation ≡ g
    → Works job g i (parked seen) k
    → Works job g i (look i seen s) (count_call (look i seen s) k)
      × ((i < job.active_workers) → is_back g (look i seen s) ≡ is_back g (parked seen))
look-Works job g i seen k s still current gen h =
    rw (look_open job i seen s still current, gen)
      (elim (Bool-cases (g == seen)) [
        | inl e ↦ rw e (h, λ lt. refl)
        | inr e ↦ rw e (
            let (works, away) = take-Works job g i k (h.1 ∙ rw (other_eq g seen e) refl) in
            (works, λ lt. away lt ∙ sym (other_eq g seen e)))
      ])

take-Rests :
    (current : Option ParallelJob) (g i seen : ℕ)
    → (g == seen) ≡ false
    → (HasShare current i → seen ≡ g)
    → Rests current g i (take_job i g current)
take-Rests none g i seen new h = (omega arith, λ share. refl)
take-Rests (some job) g i seen new h = elim (Bool-cases (leb job.active_workers i)) [
  | inl e ↦ rw e (omega arith, λ share. refl)
  | inr e ↦ absurd (ground (arith, h (leb-false _ _ e)))
]

-- … and between jobs.
pub look-Rests :
    (i seen : ℕ) (s : SharedState)
    → Rests s.current_job s.generation i (parked seen)
    → Rests s.current_job s.generation i (look i seen s)
unfolding look
look-Rests i seen s h = elim (Bool-cases s.shutdown) [
  | inl e ↦ rw e tt
  | inr e ↦ elim (Bool-cases (s.generation == seen)) [
    | inl same ↦ rw (e, same) h
    | inr new ↦ rw (e, new) (take-Rests s.current_job s.generation i seen new h.1)
  ]
]

put-ne : (workers : ℕ → Worker) (i : ℕ) (c : Worker) (j : ℕ) → j ≢ i → workers j ≡ put workers i c j
put-ne workers i c j h = ground arith

-- A worker that is counted.
pub complete-Working :
    (num i seen : ℕ) (caught : Option (List ℕ)) (job : ParallelJob) (s : SharedState)
    (workers : ℕ → Worker) (calls : ℕ → ℕ)
    → job.active_workers < 2 ^ 64
    → i < job.active_workers
    → is_back s.generation (workers i) ≡ false
    → seen ≡ s.generation
    → calls i ≡ its_calls job i
    → Working num job s workers calls
    → Working num job (complete i caught s) (put workers i (parked seen)) calls
unfolding complete
complete-Working num i seen caught job s workers calls small lt away e k v = record {
  open_pool = v.open_pool;
  current = v.current;
  counted = omega (
    arith,
    v.counted,
    count-le job.active_workers (λ j. is_back s.generation (put workers i (parked seen) j)),
    count_one job.active_workers (λ j. is_back s.generation (workers j))
        (λ j. is_back s.generation (put workers i (parked seen) j)) i lt away
        (rw (self_eq i, e) (self_eq s.generation))
        (λ j ne. ap (is_back s.generation) (put-ne workers i (parked seen) j ne)),
  );
  each =
      put-all (λ j w. Works job s.generation j w (calls j)) workers i (parked seen) v.each
        (omega arith, k ∙ rw (e, self_eq s.generation) refl);
  max_workers = v.max_workers;
  total = v.total;
  fits = v.fits;
  positive = v.positive;
  made = v.made;
}
