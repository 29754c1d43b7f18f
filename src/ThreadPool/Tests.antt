-- ===== src/ThreadPool/Tests.antt =====
-- Runs of the dispatcher and of the pool, and their theorems at them.
use herbert_rs.Prelude.{ℕ, ◌≡◌, refl, ◌≢◌, true, Option, none, some, List, [], ◌∷◌, arith}
use herbert_rs.SharedCache.{swap_remove}
use herbert_rs.ThreadPool.Dispatcher.{
  DispatchState, dispatcher_new, Caller, outside, waits, holds, acquire, is_served, wake, key_ltb,
  best_from, release_to, release, Event, arrives, wakes, leaves, dispatch, run,
}
use herbert_rs.ThreadPool.Dispatcher.Refined.{run-refines}
use herbert_rs.ThreadPool.Dispatcher.Queue.{enqueue, serve, step, steps}
use herbert_rs.ThreadPool.Dispatcher.Served.{waiter_served}
use herbert_rs.ThreadPool.Dispatcher.Ahead.{after, ServesTicket}
use herbert_rs.ThreadPool.Dispatcher.Threads.{System, Reach, start, next, arrive, leave}
use herbert_rs.ThreadPool.Dispatcher.Exclusion.{mutual_exclusion, never_forgotten}

program : Unit {0}
unfolding swap_remove dispatcher_new acquire is_served wake key_ltb best_from release_to release
    dispatch run enqueue serve step steps after
program = tt

-- The more urgent is served first, whenever it came.
abbrev events : List Event
events =
    arrives 5
    ∷ arrives 7
    ∷ arrives 2
    ∷ arrives 7
    ∷ leaves
    ∷ wakes 0
    ∷ wakes 1
    ∷ leaves
    ∷ wakes 0
    ∷ []

abbrev outcomes : List (Caller × Option ℕ)
outcomes =
    (holds, none)
    ∷ (waits 0, none)
    ∷ (waits 1, none)
    ∷ (waits 2, none)
    ∷ (outside, some 1)
    ∷ (waits 0, some 1)
    ∷ (holds, none)
    ∷ (outside, some 0)
    ∷ (holds, none)
    ∷ []

run-refines_example : run events dispatcher_new ≡ some outcomes
unfolding program
run-refines_example = run-refines events (omega arith)

abbrev two_wait : DispatchState
two_wait = record { active = true; next_ticket = 2; serving = none; waiters = (5, 0) ∷ (3, 1) ∷ [] }

waiter_served_example :
    (seen : List (Caller × Option ℕ)) × (run
        (leaves ∷ wakes 1 ∷ arrives 4 ∷ leaves ∷ wakes 2 ∷ leaves ∷ [])
        two_wait
      ≡ some seen)
    × ServesTicket 0 seen
unfolding program
waiter_served_example =
    waiter_served (arrives 5 ∷ arrives 5 ∷ arrives 3 ∷ [])
      (leaves ∷ wakes 1 ∷ arrives 4 ∷ leaves ∷ wakes 2 ∷ leaves ∷ []) two_wait (5, 0) 0
      (omega arith) refl refl (omega arith)

-- Thread 0 has the guard and thread 1 waits.
abbrev contended : (s : System) × Reach 2 s
unfolding program
contended = (_, next (next start 0 (arrive 5)) 1 (arrive 7))

mutual_exclusion_example : ◌≡◌ {A = ℕ} 0 0
unfolding program
mutual_exclusion_example = mutual_exclusion 0 0 (omega arith) contended.1 refl refl

-- Then thread 0 gives it up.
abbrev handed_over : (s : System) × Reach 3 s
unfolding program
handed_over = (_, next contended.1 0 (leave refl))

nobody_holds : (j : ℕ) → handed_over.0.threads j ≢ holds
unfolding program
nobody_holds j h = ground arith

never_forgotten_example :
    (u : ℕ) × (handed_over.0.dispatcher.serving ≡ some u)
    × ((wake u handed_over.0.dispatcher).1 ≡ holds)
    × ¬ ((j : ℕ) → handed_over.0.threads j ≢ waits u)
unfolding program
never_forgotten_example = never_forgotten 1 0 (omega arith) handed_over.1 refl nobody_holds
