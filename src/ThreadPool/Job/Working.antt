-- ===== src/ThreadPool/Job/Working.antt =====
-- The pool of crates/backends/backend_common/src/thread_pool.rs: what holds of every worker, between jobs
-- and while a caller waits for one.
use herbert_rs.Prelude.{
  ℕ, ◌≤◌, ◌<◌, ◌≡◌, subst, inl, inr, Bool, false, ◌&&◌, Option, none, some, ltb, ◌==◌,
  if◌then◌else◌, arith, Bool-cases,
}
use herbert_rs.ThreadPool.Job.{ParallelJob, chunk, Worker, parked, runs, idles, stopped}
use herbert_rs.Prelude.Counting.{put}

pub put_both {κ} :
    (P : ℕ → Worker → ℕ → Type κ) (f : ℕ → Worker) (g : ℕ → ℕ) (i : ℕ) (c : Worker) (k : ℕ)
    → ((j : ℕ) → P j (f j) (g j))
    → P i c k
    → (j : ℕ) → P j (put f i c j) (put g i k j)
put_both P f g i c k all new j = elim (Bool-cases (j == i)) [
  | inl e ↦ rw e (subst (λ m. P m c k) (ground arith) new)
  | inr e ↦ rw e (all j)
]

-- The worker has seen the generation and is back at the head of its loop.
abbrev pub is_back : ℕ → Worker → Bool
is_back g (parked seen) = seen == g
is_back g (runs seen job start end) = false
is_back g (idles seen job) = false
is_back g stopped = false

abbrev pub has_items : ParallelJob → ℕ → Bool
has_items job i = ltb i job.active_workers && ltb (chunk job i).0 (chunk job i).1

-- The calls of a worker that is done with the job.
abbrev pub its_calls : ParallelJob → ℕ → ℕ
its_calls job i = if has_items job i then 1 else 0

-- A worker while a caller waits for `job`, and how often it has entered the callback.
abbrev pub Works : ParallelJob → ℕ → ℕ → Worker → ℕ → Type 0
Works job g i (parked seen) k = (seen ≤ g) × (k ≡ (if seen == g then its_calls job i else 0))
Works job g i (runs seen j start end) k =
    (seen ≡ g)
    × (i < job.active_workers)
    × (start ≡ (chunk job i).0)
    × (end ≡ (chunk job i).1)
    × (start < end)
    × (k ≡ 1)
Works job g i (idles seen j) k =
    (seen ≡ g) × (i < job.active_workers) × ((chunk job i).1 ≤ (chunk job i).0) × (k ≡ 0)
Works job g i stopped k = k ≡ 0

-- The worker has a share in the job.
abbrev pub HasShare : Option ParallelJob → ℕ → Type 0
HasShare none i = ⊥
HasShare (some job) i = i < job.active_workers

-- A worker between jobs.
abbrev pub Rests : Option ParallelJob → ℕ → ℕ → Worker → Type 0
Rests current g i (parked seen) = (seen ≤ g) × (HasShare current i → seen ≡ g)
Rests current g i (runs seen job start end) = ⊥
Rests current g i (idles seen job) = ⊥
Rests current g i stopped = Unit {0}
