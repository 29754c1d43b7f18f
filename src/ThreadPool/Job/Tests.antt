-- ===== src/ThreadPool/Job/Tests.antt =====
-- Runs of the pool, and its theorems at them.
use herbert_rs.Prelude.{ℕ, ◌<◌, ◌≡◌, refl, none, some, [], ◌∷◌, arith}
use herbert_rs.ThreadPool.Job.{
  div_ceil, current_phase, effective_max_workers, ParallelJob, SharedState, default_state,
  active_workers, make_job, Start, begin, begin_phase_aware, publish, PoolResult, collect, chunk,
  runs, look, complete, shut_down, Configured, configure_global_pool,
}
use herbert_rs.ThreadPool.Job.Chunks.{Takes}
use herbert_rs.ThreadPool.Job.System.{Pool, Reach, submit, looks, called, start, next}
use herbert_rs.ThreadPool.Job.Completion.{none_running, each_item_once}

program : Unit {0}
unfolding div_ceil current_phase effective_max_workers default_state active_workers make_job begin
    begin_phase_aware publish collect chunk look complete shut_down configure_global_pool
program = tt

-- Seven items over four workers: two, two, two, one; over five, the last worker has none.
chunks :
    (chunk (make_job 4 9 7) 3 ≡ (6, 7))
    × (chunk (make_job 5 9 7) 4 ≡ (8, 7))
    × (begin 4 1 7 ≡ Start.alone 0 0 7)
    × (begin_phase_aware (current_phase 1) 2 4 7 ≡ Start.shared (make_job 4 2 7))
unfolding program
chunks = (refl, refl, refl, refl)

configured :
    (configure_global_pool none none 0 ≡ (Configured.accepted, some 1))
    × (configure_global_pool (some 4) none 2 ≡ (Configured.already_initialized 4 2, none))
unfolding program
configured = (refl, refl)

abbrev three_items : ParallelJob
three_items = record { total_items = 3; chunk_size = 2; active_workers = 2 }

-- Worker 1 panics, and worker 0 returns after it.
abbrev submitted : (p : Pool) × Reach 2 1 p
unfolding program
submitted = (_, next start (submit 2 3 refl refl (omega arith) refl))

abbrev both_run : (p : Pool) × Reach 2 3 p
unfolding program
both_run = (_, next (next submitted.1 (looks 1 (omega arith) refl)) (looks 0 (omega arith) refl))

abbrev both_back : (p : Pool) × Reach 2 5 p
unfolding program
both_back = (
  _,
  next (next both_run.1 (called 1 (some (7 ∷ [])) (omega arith) refl))
      (called 0 none (omega arith) refl),
)

abbrev returned : SharedState
returned = record both_back.0.state { panic = none }

none_running_example : ¬ (both_back.0.workers 0 ≡ runs 1 three_items 0 2)
unfolding program
none_running_example =
    none_running three_items (PoolResult.worker_panic 1 (7 ∷ [])) returned (omega arith) both_back.1
      refl refl 0 1 0 2 three_items

each_item_once_example :
    (w : ℕ) × (both_back.0.calls w ≡ 1)
    × Takes three_items w 2
    × ((u : ℕ) → 0 < both_back.0.calls u → Takes three_items u 2 → u ≡ w)
unfolding program
each_item_once_example =
    each_item_once three_items (PoolResult.worker_panic 1 (7 ∷ [])) returned 2 (omega arith)
      both_back.1 refl refl (omega arith) (omega arith)
