-- ===== src/ThreadPool/Job.antt =====
-- `parallel_for_with_max_workers` and `worker_loop` of
-- crates/backends/backend_common/src/thread_pool.rs, with the job that they share. A caller of the pool
-- is inside the dispatcher's guard, so that one job is under way at a time.
pub mod Chunks
pub mod System
pub mod Working
pub mod Invariant
pub mod Phases
pub mod Completion
mod Tests
use herbert_rs.Prelude.{
  ℕ, zero, suc, ◌+◌, ◌-◌, ◌*◌, ◌/◌, ◌%◌, ◌^◌, min, max, Bool, true, false, not, ◌&&◌, ◌||◌, Option,
  none, some, List, [], ◌∷◌, ltb, leb, ◌==◌, if◌then◌else◌, ◌>>=◌,
}

-- `usize` and `u64`.
abbrev pub w64 : ℕ → ℕ
w64 n = n % 2 ^ 64

-- `total.div_ceil(n)`, for a positive `n`.
unfoldable pub div_ceil : ℕ → ℕ → ℕ
div_ceil total n = if ltb 0 (total % n) then total / n + 1 else total / n

-- crates/backends/backend_common/src/execution_phase.rs: the phase, and the workers that it allows under
-- the configured cap, where 0 is none.
pub data ExecutionPhase : Type 0 where
  prefill decode : ExecutionPhase

unfoldable pub current_phase : ℕ → ExecutionPhase
current_phase stored = if stored == 1 then ExecutionPhase.decode else ExecutionPhase.prefill

unfoldable pub effective_max_workers : ExecutionPhase → ℕ → ℕ → ℕ
effective_max_workers ExecutionPhase.prefill decode_max_workers pool_size = pool_size
effective_max_workers ExecutionPhase.decode decode_max_workers pool_size =
    if decode_max_workers == 0 then pool_size else min decode_max_workers pool_size

pub record ParallelJob : Type 0 where
  pub total_items : ℕ
  pub chunk_size : ℕ
  pub active_workers : ℕ

pub record SharedState : Type 0 where
  pub shutdown : Bool
  pub generation : ℕ
  pub current_job : Option ParallelJob
  pub completed_workers : ℕ
  pub panic : Option (ℕ × List ℕ)

-- `SharedState::default()`
unfoldable pub default_state : SharedState
default_state = record {
  shutdown = false;
  generation = 0;
  current_job = none;
  completed_workers = 0;
  panic = none;
}

unfoldable pub active_workers : ℕ → ℕ → ℕ → ℕ
active_workers num_workers max_workers total_items =
    max (min (min num_workers (max max_workers 1)) total_items) 1

unfoldable pub make_job : ℕ → ℕ → ℕ → ParallelJob
make_job num_workers max_workers total_items =
    let active = active_workers num_workers max_workers total_items in
    record {
      total_items = total_items;
      chunk_size = div_ceil total_items active;
      active_workers = active;
    }

-- How a call begins: it has nothing to do, runs in the caller, or is handed to the workers.
pub data Start : Type 0 where
  done : Start
  alone : (worker_id start end : ℕ) → Start
  shared : ParallelJob → Start

unfoldable pub begin : ℕ → ℕ → ℕ → Start
begin num_workers max_workers total_items =
    if total_items == 0
    then Start.done
    else if active_workers num_workers max_workers total_items == 1
    then Start.alone 0 0 total_items
    else Start.shared (make_job num_workers max_workers total_items)

-- The job is published to the workers.
unfoldable pub publish : ParallelJob → SharedState → SharedState
publish job s = record s {
  completed_workers = 0;
  panic = none;
  current_job = some job;
  generation = w64 (s.generation + 1);
}

pub data PoolResult : Type 0 where
  ok : PoolResult
  worker_panic : (worker_id : ℕ) (message : List ℕ) → PoolResult

abbrev pub finish_with : Option (ℕ × List ℕ) → PoolResult
finish_with none = PoolResult.ok
finish_with (some (worker_id, message)) = PoolResult.worker_panic worker_id message

-- The loop on `done_cv` and what follows it: `none` waits on.
unfoldable pub collect : ℕ → SharedState → Option (PoolResult × SharedState)
collect active s =
    if ltb s.completed_workers active
    then none
    else some (finish_with s.panic, record s { panic = none })

-- The chunk of a worker: `start` and `end`.
unfoldable pub chunk : ParallelJob → ℕ → ℕ × ℕ
chunk job worker_id =
    let start = w64 (worker_id * job.chunk_size) in
    (start, min (w64 (start + job.chunk_size)) job.total_items)

-- Where a worker stands, `seen_generation` included: at the head of its loop, or in its callback.
pub data Worker : Type 0 where
  parked : (seen : ℕ) → Worker
  runs : (seen : ℕ) (job : ParallelJob) (start end : ℕ) → Worker
  idles : (seen : ℕ) (job : ParallelJob) → Worker  -- its chunk is empty: past the callback
  stopped : Worker

abbrev pub take_job : ℕ → ℕ → Option ParallelJob → Worker
take_job worker_id seen none = Worker.parked seen
take_job worker_id seen (some job) =
    if leb job.active_workers worker_id
    then Worker.parked seen
    else if ltb (chunk job worker_id).0 (chunk job worker_id).1
    then Worker.runs seen job (chunk job worker_id).0 (chunk job worker_id).1
    else Worker.idles seen job

-- A worker at the head of its loop, each time it holds the mutex.
unfoldable pub look : ℕ → ℕ → SharedState → Worker
look worker_id seen s =
    if s.shutdown
    then Worker.stopped
    else if s.generation == seen
    then Worker.parked seen
    else take_job worker_id s.generation s.current_job

abbrev pub first_panic : Option (ℕ × List ℕ) → ℕ → Option (List ℕ) → Option (ℕ × List ℕ)
first_panic p worker_id none = p
first_panic (some p) worker_id (some message) = some p
first_panic none worker_id (some message) = some (worker_id, message)

-- A worker after its callback, which returned or panicked with a message: it is counted.
unfoldable pub complete : ℕ → Option (List ℕ) → SharedState → SharedState
complete worker_id caught s = record s {
  panic = first_panic s.panic worker_id caught;
  completed_workers = w64 (s.completed_workers + 1);
}

-- `parallel_for_phase_aware`, up to where `parallel_for_with_max_workers` hands the job over.
unfoldable pub begin_phase_aware : ExecutionPhase → ℕ → ℕ → ℕ → Start
begin_phase_aware phase decode_max_workers num_workers total_items =
    begin num_workers (effective_max_workers phase decode_max_workers num_workers) total_items

-- `Drop for ThreadPool`
unfoldable pub shut_down : SharedState → SharedState
shut_down s = record s { shutdown = true }

-- `configure_global_pool`: the pool's workers and the override, if set; the override afterwards.
pub data Configured : Type 0 where
  accepted : Configured
  already_initialized : (existing requested : ℕ) → Configured

abbrev check_existing : ℕ → ℕ → Configured
check_existing existing requested =
    if existing == requested
    then Configured.accepted
    else Configured.already_initialized existing requested

unfoldable pub configure_global_pool : Option ℕ → Option ℕ → ℕ → Configured × Option ℕ
configure_global_pool (some existing) override num_threads =
    (check_existing existing (max num_threads 1), override)
configure_global_pool none (some existing) num_threads =
    (check_existing existing (max num_threads 1), some existing)
configure_global_pool none none num_threads = (Configured.accepted, some (max num_threads 1))
