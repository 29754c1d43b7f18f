-- ===== src/ThreadPool/Job/System.antt =====
-- `parallel_for_with_max_workers` and `worker_loop` of
-- crates/backends/backend_common/src/thread_pool.rs at work: the workers and one caller after another
-- take the mutex of the shared state in any order.
use herbert_rs.Prelude.{ℕ, suc, ◌^◌, ◌<◌, ◌≡◌, false, Option, none, some, List}
use herbert_rs.Prelude.Counting.{put}
use herbert_rs.ThreadPool.Job.{
  ParallelJob, SharedState, default_state, shared, begin, publish, PoolResult, collect, Worker,
  parked, runs, idles, look, complete, shut_down,
}

-- Where the caller that holds the dispatcher's guard stands: none is inside, or it waits for a job.
pub data Caller : Type 0 where
  nobody : Caller
  awaits : ParallelJob → Caller

pub record Pool : Type 0 where
  pub state : SharedState
  pub caller : Caller
  pub workers : ℕ → Worker
  pub calls : ℕ → ℕ  -- how often each worker has entered the callback of the latest job

-- Entering the callback is counted.
abbrev pub count_call : Worker → ℕ → ℕ
count_call (runs seen job lo hi) n = suc n
count_call w n = n

-- One move of the pool of `num` workers. Whoever calls `parallel_for` borrows the pool, so that none calls
-- a pool that is dropped, and none is inside when it is dropped.
pub data Step (num : ℕ) (p : Pool) : Pool → Type 0 where
  submit :
      (max_workers total : ℕ) {job : ParallelJob}
      → p.caller ≡ Caller.nobody
      → p.state.shutdown ≡ false
      → total < 2 ^ 64  -- it is a `usize`
      → begin num max_workers total ≡ shared job
      → Step num p (record {
        state = publish job p.state;
        caller = Caller.awaits job;
        workers = p.workers;
        calls = λ i. 0;
      })
  returns :
      {job : ParallelJob} {result : PoolResult} {s : SharedState}
      → p.caller ≡ Caller.awaits job
      → collect job.active_workers p.state ≡ some (result, s)
      → Step num p (record p { state = s; caller = Caller.nobody })
  looks :
      (i : ℕ) {seen : ℕ}
      → i < num
      → p.workers i ≡ parked seen
      → Step num p (record p {
        workers = put p.workers i (look i seen p.state);
        calls = put p.calls i (count_call (look i seen p.state) (p.calls i));
      })
  -- the callback returns, or panics with a message
  called :
      (i : ℕ) (caught : Option (List ℕ)) {seen lo hi : ℕ} {job : ParallelJob}
      → i < num
      → p.workers i ≡ runs seen job lo hi
      → Step num p
          (record p { state = complete i caught p.state; workers = put p.workers i (parked seen) })
  skips :
      (i : ℕ) {seen : ℕ} {job : ParallelJob}
      → i < num
      → p.workers i ≡ idles seen job
      → Step num p
          (record p { state = complete i none p.state; workers = put p.workers i (parked seen) })
  drops : p.caller ≡ Caller.nobody → Step num p (record p { state = shut_down p.state })

-- The states after `n` moves.
pub data Reach (num : ℕ) : ℕ → Pool → Type 0 where
  start : Reach num 0 (record {
    state = default_state;
    caller = Caller.nobody;
    workers = λ i. parked 0;
    calls = λ i. 0;
  })
  next : {n : ℕ} {p q : Pool} → Reach num n p → Step num p q → Reach num (suc n) q
