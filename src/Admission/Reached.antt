-- ===== src/Admission/Reached.antt =====
-- What the semaphore and the counters of crates/server/src/metrics.rs show of the requests, in every state
-- that `run_inference` of crates/server/src/handlers.rs reaches.
use herbert_rs.Prelude.{ℕ, ◌+◌, ◌-◌, ◌^◌, ◌≤◌, ◌<◌, ◌≡◌, refl, sym, false, arith}
use herbert_rs.Prelude.Counting.{put, count, count_none}
use herbert_rs.Admission.{
  InferenceMetrics, metrics_new, Phase, arrived, queued, granted, admitted, loads_peak, raises,
  rejected, has_permit, is_waiting, is_started, is_failed, is_counted,
}
use herbert_rs.Admission.Steps.{
  Server, Move, try_ok, try_busy, enqueue, acquire, closed, dequeue, started, load, round, fails,
  completes, counts, returns, step, Reach, start, next,
}
use herbert_rs.Admission.Counters.{Below, Inv, changes, queue-Inv}
use herbert_rs.Admission.Kept.{few_waiting, start-Inv, complete-Inv, round-Inv}

Move-Inv :
    {n max_concurrent permits permits' : ℕ} {m m' : InferenceMetrics} {requests : ℕ → Phase}
    {b c : Phase} (i : ℕ)
    → i < n
    → n < 2 ^ 62
    → requests i ≡ b
    → Move permits m b permits' m' c
    → Inv n max_concurrent permits m requests
    → Inv n max_concurrent permits' m' (put requests i c)
Move-Inv {permits} {m} i lt small at (try_ok h) v =
    queue-Inv i _ _ lt at v (permits - 1) m.waiting_count (omega arith) refl refl refl tt (λ k. k)
Move-Inv {permits} {m} i lt small at try_busy v =
    queue-Inv i _ _ lt at v permits m.waiting_count refl refl refl refl tt (λ k. k)
Move-Inv {permits} {m} i lt small at enqueue v =
    queue-Inv i _ _ lt at v permits _ refl (omega (arith, few_waiting i lt small v)) refl refl tt
      (λ k. k)
Move-Inv {permits} {m} i lt small at (acquire h) v =
    queue-Inv i _ _ lt at v (permits - 1) m.waiting_count (omega arith) refl refl refl tt (λ k. k)
Move-Inv {permits} {m} i lt small at closed v =
    queue-Inv i _ _ lt at v permits _ refl
      (omega
        (arith, few_waiting i lt small v, v.waiting, changes i queued rejected lt at v is_waiting))
      refl refl tt (λ k. k)
Move-Inv {permits} {m} i lt small at dequeue v =
    queue-Inv i _ _ lt at v permits _ refl
      (omega
        (arith, few_waiting i lt small v, v.waiting, changes i granted admitted lt at v is_waiting))
      refl refl tt (λ k. k)
Move-Inv i lt small at started v = start-Inv i lt small v at
Move-Inv {permits} {m} i lt small at (load {current}) v =
    queue-Inv i (loads_peak current) (raises current m.peak_concurrent) lt at v permits
      m.waiting_count refl refl refl refl (omega arith) (λ k. k)
Move-Inv i lt small at (round {current} {peak} spurious) v =
    round-Inv i lt small v current peak spurious at
Move-Inv {permits} {m} i lt small at fails v =
    queue-Inv i _ _ lt at v (permits + 1) m.waiting_count (omega arith) refl refl refl tt (λ k. k)
Move-Inv {permits} {m} i lt small at (completes stats) v =
    queue-Inv i _ _ lt at v permits m.waiting_count refl refl refl refl tt (λ k. k)
Move-Inv i lt small at (counts stats which) v = complete-Inv i lt small v stats which at
Move-Inv {permits} {m} i lt small at returns v =
    queue-Inv i _ _ lt at v (permits + 1) m.waiting_count (omega arith) refl refl refl tt (λ k. k)

Inv-start : (n max_concurrent : ℕ) → Inv n max_concurrent max_concurrent metrics_new (λ i. arrived)
unfolding metrics_new
Inv-start n max_concurrent = record {
  shared = omega (arith, count_none n (λ i. false) (λ i. refl));
  waiting = sym (count_none n (λ i. false) (λ i. refl));
  active = omega (arith, count_none n (λ i. false) (λ i. refl));
  total = sym (count_none n (λ i. false) (λ i. refl));
  read = λ i. tt;
  peak = λ h. omega arith;
}

pub Reach-Inv :
    {n max_concurrent : ℕ} {s : Server}
    → n < 2 ^ 62
    → Reach n max_concurrent s
    → Inv n max_concurrent s.permits s.metrics s.requests
Reach-Inv {n} {max_concurrent} small start = Inv-start n max_concurrent
Reach-Inv small (next r (step i lt move)) = Move-Inv i lt small refl move (Reach-Inv small r)

-- The counters tell the truth about the requests: with fewer than 2 ^ 62 requests, in every state that
-- they reach, those with a permit and the permits left are `max_concurrent` together, `waiting_count` is
-- the number of those in the queue, `total_requests` that of those that counted themselves as completed,
-- and `active_requests` that of those that counted themselves as running and not as gone, and of all that
-- ever failed.
pub counters_agree :
    {n max_concurrent : ℕ} {s : Server}
    → n < 2 ^ 62
    → Reach n max_concurrent s
    → (s.permits + count n (λ i. has_permit (s.requests i)) ≡ max_concurrent)
      × (s.metrics.waiting_count ≡ count n (λ i. is_waiting (s.requests i)))
      × (s.metrics.total_requests ≡ count n (λ i. is_counted (s.requests i)))
      × (s.metrics.active_requests
          ≡ count n (λ i. is_started (s.requests i)) + count n (λ i. is_failed (s.requests i)))
counters_agree small r = let v = Reach-Inv small r in (v.shared, v.waiting, v.total, v.active)

-- The peak is not missed, although it is raised without a lock: with fewer than 2 ^ 62 requests, in every
-- state that they reach, `active_requests` is at most `peak_concurrent`, unless a request that counted at
-- least as many is still in the loop that raises it.
pub peak-le :
    {n max_concurrent : ℕ} {s : Server}
    → n < 2 ^ 62
    → Reach n max_concurrent s
    → ((i : ℕ) → Below s.metrics.active_requests (s.requests i))
    → s.metrics.active_requests ≤ s.metrics.peak_concurrent
peak-le small r done = (Reach-Inv small r).peak done
