-- ===== src/Admission/Tests.antt =====
-- Two requests and one permit: the first fails while the second waits for it.
use herbert_rs.Prelude.{ℕ, ◌+◌, ◌≤◌, ◌≡◌, refl, false, some, arith}
use herbert_rs.Prelude.Counting.{count}
use herbert_rs.Admission.{
  InferenceMetrics, metrics_new, RequestStats, start_active, raise_peak, request_completed,
  after_counter, Counter, after_round, has_permit, is_waiting, is_started, is_failed, is_counted,
}
use herbert_rs.Admission.Steps.{
  Server, try_ok, try_busy, enqueue, acquire, dequeue, started, load, round, fails, completes,
  counts, returns, step, Reach, start, next,
}
use herbert_rs.Admission.Counters.{Below}
use herbert_rs.Admission.Reached.{counters_agree, peak-le}
use herbert_rs.Admission.Raised.{raise_loop, raise_loop_ends}

program : Unit {0}
unfolding metrics_new start_active raise_peak request_completed after_counter after_round raise_loop
program = tt

abbrev first_runs : (s : Server) × Reach 2 1 s
unfolding program
first_runs = (
  _,
  next
      (next
        (next (next start (step 0 (omega arith) (try_ok (omega arith))))
          (step 0 (omega arith) started))
        (step 0 (omega arith) load))
      (step 0 (omega arith) (round false)),
)

abbrev second_waits : (s : Server) × Reach 2 1 s
unfolding program
second_waits =
    (_, next (next first_runs.1 (step 1 (omega arith) try_busy)) (step 1 (omega arith) enqueue))

abbrev second_admitted : (s : Server) × Reach 2 1 s
unfolding program
second_admitted = (
  _,
  next
      (next (next second_waits.1 (step 0 (omega arith) fails))
        (step 1 (omega arith) (acquire (omega arith))))
      (step 1 (omega arith) dequeue),
)

abbrev second_runs : (s : Server) × Reach 2 1 s
unfolding program
second_runs = (
  _,
  next (next (next second_admitted.1 (step 1 (omega arith) started)) (step 1 (omega arith) load))
      (step 1 (omega arith) (round false)),
)

-- One request runs, two are counted, and two are reported as the peak of one permit.
leak :
    (second_runs.0.metrics.active_requests ≡ 2)
    × (second_runs.0.metrics.peak_concurrent ≡ 2)
    × (count 2 (λ i. is_started (second_runs.0.requests i)) ≡ 1)
unfolding program
leak = (refl, refl, refl)

abbrev stats : RequestStats
stats = record {
  input_tokens = 10;
  output_tokens = 20;
  prefill_us = 3;
  decode_us = 4;
  prefix_hit_len = 1;
}

-- Out of the running, and not yet among the completed.
abbrev second_leaves : (s : Server) × Reach 2 1 s
unfolding program
second_leaves = (
  _,
  next (next second_runs.1 (step 1 (omega arith) (completes stats)))
      (step 1 (omega arith) (counts stats Counter.active)),
)

between :
    (second_leaves.0.metrics.active_requests ≡ 1)
    × (second_leaves.0.metrics.total_requests ≡ 0)
    × (count 2 (λ i. has_permit (second_leaves.0.requests i)) ≡ 1)
unfolding program
between = (refl, refl, refl)

abbrev second_counts : (s : Server) × Reach 2 1 s
unfolding program
second_counts = (
  _,
  next
      (next (next second_leaves.1 (step 1 (omega arith) (counts stats Counter.total)))
        (step 1 (omega arith) (counts stats Counter.input)))
      (step 1 (omega arith) (counts stats Counter.output)),
)

abbrev second_done : (s : Server) × Reach 2 1 s
unfolding program
second_done = (
  _,
  next
      (next
        (next (next second_counts.1 (step 1 (omega arith) (counts stats Counter.prefill)))
          (step 1 (omega arith) (counts stats Counter.decode)))
        (step 1 (omega arith) (counts stats Counter.hits)))
      (step 1 (omega arith) returns),
)

counters_agree_example :
    (second_done.0.permits + count 2 (λ i. has_permit (second_done.0.requests i)) ≡ 1)
    × (second_done.0.metrics.waiting_count ≡ count 2 (λ i. is_waiting (second_done.0.requests i)))
    × (second_done.0.metrics.total_requests ≡ count 2 (λ i. is_counted (second_done.0.requests i)))
    × (second_done.0.metrics.active_requests
        ≡ count 2 (λ i. is_started (second_done.0.requests i))
          + count 2 (λ i. is_failed (second_done.0.requests i)))
counters_agree_example = counters_agree (omega arith) second_done.1

nobody_raises : (i : ℕ) → Below 2 (second_runs.0.requests i)
unfolding program
nobody_raises i = ground arith

peak-le_example : second_runs.0.metrics.active_requests ≤ second_runs.0.metrics.peak_concurrent
unfolding program
peak-le_example = peak-le (omega arith) second_runs.1 nobody_raises

-- Another request raises the peak to 4 between the load and the first round.
abbrev peaks : ℕ → InferenceMetrics
peaks k = record metrics_new { peak_concurrent = 4 }

raise_loop_ends_example :
    (m : InferenceMetrics) × (raise_loop 5 peaks 0 6 2 ≡ some m) × (6 ≤ m.peak_concurrent)
unfolding program
raise_loop_ends_example =
    raise_loop_ends 5 peaks 0 6 2 (omega arith) (omega arith) (λ j. omega arith)
