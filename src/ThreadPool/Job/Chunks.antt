-- ===== src/ThreadPool/Job/Chunks.antt =====
-- `parallel_for_with_max_workers` and `worker_loop` of
-- crates/backends/backend_common/src/thread_pool.rs: how the items are split over the workers.
use herbert_rs.Prelude.{ℕ, ◌+◌, ◌*◌, ◌/◌, ◌^◌, min, ◌≤◌, ◌<◌, ◌≡◌, refl, arith}
use herbert_rs.ThreadPool.Job.{div_ceil, ParallelJob, active_workers, make_job, chunk}

-- The chunk of the worker has the item.
abbrev pub Takes : ParallelJob → ℕ → ℕ → Type 0
Takes job worker_id x = ((chunk job worker_id).0 ≤ x) × (x < (chunk job worker_id).1)

active_workers-le : (n m total : ℕ) → 0 < total → active_workers n m total ≤ total
unfolding active_workers
active_workers-le n m total h = omega arith

pub active_workers_pos : (n m total : ℕ) → 0 < active_workers n m total
unfolding active_workers
active_workers_pos n m total = omega arith

div_ceil-le : (total n : ℕ) → 0 < n → total ≤ n * div_ceil total n
unfolding div_ceil
div_ceil-le total n h = grind arith

div_ceil-lt : (total n : ℕ) → 0 < n → n * div_ceil total n < total + n
unfolding div_ceil
div_ceil-lt total n h = grind arith

same_chunk : (c x u w : ℕ) → u * c ≤ x → x < u * c + c → w * c ≤ x → x < w * c + c → u ≡ w
same_chunk c x u w h k h' k' = grind arith

chunk_in : (c x : ℕ) → 0 < c → (x / c * c ≤ x) × (x < x / c * c + c)
chunk_in c x h = grind arith

-- What the split relies on: the numbers fit, and the chunks reach the last item.
pub record Splits (job : ParallelJob) : Type 0 where
  pub some_worker : 0 < job.active_workers
  pub some_chunk : 0 < job.chunk_size
  pub reaches : job.total_items ≤ job.active_workers * job.chunk_size
  pub fits : job.active_workers * job.chunk_size < 2 ^ 64

pub make_job-Splits :
    (n m total : ℕ)
    → 0 < total
    → total + (make_job n m total).active_workers ≤ 2 ^ 64
    → Splits (make_job n m total)
unfolding make_job
make_job-Splits n m total h small = record {
  some_worker = pos;
  some_chunk = grind (arith, reach);
  reaches = reach;
  fits = omega (arith, div_ceil-lt total a pos, small);
}
  where
    a : ℕ
    a = active_workers n m total

    pos : 0 < active_workers n m total
    pos = active_workers_pos n m total

    reach : total ≤ active_workers n m total * div_ceil total (active_workers n m total)
    reach = div_ceil-le total (active_workers n m total) (active_workers_pos n m total)

pub make_job-total_items : (n m total : ℕ) → (make_job n m total).total_items ≡ total
unfolding make_job
make_job-total_items n m total = refl

pub make_job-active_workers :
    (n m total : ℕ) → 0 < total → (make_job n m total).active_workers ≤ total
unfolding make_job
make_job-active_workers n m total h = active_workers-le n m total h

-- The products of the worker loop do not wrap.
chunk_lem :
    (job : ParallelJob) (u : ℕ)
    → Splits job
    → u < job.active_workers
    → (chunk job u).0 ≡ u * job.chunk_size
      × ((chunk job u).1 ≡ min (u * job.chunk_size + job.chunk_size) job.total_items)
unfolding chunk
chunk_lem job u s lt = (omega (arith, below), omega (arith, below))
  where
    below : u * job.chunk_size + job.chunk_size < 2 ^ 64
    below = grind (arith, s.fits)

-- Every item of a job that splits well lies in the chunk of exactly one active worker.
pub Splits-partitions :
    (job : ParallelJob) (x : ℕ)
    → Splits job
    → x < job.total_items
    → (w : ℕ) × (w < job.active_workers)
      × Takes job w x
      × ((u : ℕ) → u < job.active_workers → Takes job u x → u ≡ w)
Splits-partitions job x s lt = (
  w,
  w_active,
  (
    omega (arith, (chunk_lem job w s w_active).0, at.0),
    omega (arith, (chunk_lem job w s w_active).1, at.1, lt),
  ),
  λ u hu takes.
      same_chunk c x u w (omega (arith, (chunk_lem job u s hu).0, takes.0))
        (omega (arith, (chunk_lem job u s hu).1, takes.1)) at.0 at.1,
)
  where
    c : ℕ
    c = job.chunk_size

    w : ℕ
    w = x / c

    at : (x / c * c ≤ x) × (x < x / c * c + c)
    at = chunk_in c x s.some_chunk

    w_active : w < job.active_workers
    w_active = grind (arith, s.reaches, at, lt)
