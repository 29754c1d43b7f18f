-- ===== src/Admission/Steps.antt =====
-- Requests that `run_inference` of crates/server/src/handlers.rs serves side by side: an atomic operation
-- of any of them at a time.
use herbert_rs.Prelude.{ℕ, ◌+◌, ◌-◌, ◌<◌, Bool}
use herbert_rs.Prelude.Counting.{put}
use herbert_rs.Admission.{
  fetch_add, fetch_sub, InferenceMetrics, metrics_new, RequestStats, start_active, raise_peak,
  request_completed, after_counter, Counter, Phase, arrived, refused, queued, granted, admitted,
  loads_peak, raises, runs, failed, records, completed, gone, rejected, after_round,
}

pub record Server : Type 0 where
  pub permits : ℕ  -- of the semaphore
  pub metrics : InferenceMetrics
  pub requests : ℕ → Phase

-- One operation of a request: the permits, the metrics and its phase afterwards.
pub data Move (permits : ℕ) (m : InferenceMetrics)
    : Phase → ℕ → InferenceMetrics → Phase → Type 0 where
  try_ok : 0 < permits → Move permits m arrived (permits - 1) m admitted
  -- also with permits left, while others are queued for them
  try_busy : Move permits m arrived permits m refused
  enqueue :
      Move permits m refused permits
        (record m { waiting_count = fetch_add m.waiting_count 1 })
        queued
  acquire : 0 < permits → Move permits m queued (permits - 1) m granted
  closed :
      Move permits m queued permits
        (record m { waiting_count = fetch_sub m.waiting_count })
        rejected
  dequeue :
      Move permits m granted permits
        (record m { waiting_count = fetch_sub m.waiting_count })
        admitted
  started :
      Move permits m admitted permits (start_active m) (loads_peak (fetch_add m.active_requests 1))
  load :
      {current : ℕ}
      → Move permits m (loads_peak current) permits m (raises current m.peak_concurrent)
  round :
      {current peak : ℕ} (spurious : Bool)
      → Move permits m
          (raises current peak)
          permits
          (raise_peak spurious current peak m).0
          (after_round current (raise_peak spurious current peak m).1)
  -- tokenization, prefill or decoding failed, and `?` returned
  fails : Move permits m runs (permits + 1) m failed
  completes : (stats : RequestStats) → Move permits m runs permits m (records stats Counter.active)
  counts :
      (stats : RequestStats) (next : Counter)
      → Move permits m
          (records stats next)
          permits
          (request_completed next stats m)
          (after_counter stats next)
  returns : Move permits m completed (permits + 1) m gone

-- One operation of one of the first `n` requests.
pub data Step (n : ℕ) (s : Server) : Server → Type 0 where
  step :
      (i : ℕ) {k : ℕ} {m : InferenceMetrics} {p : Phase}
      → i < n
      → Move s.permits s.metrics (s.requests i) k m p
      → Step n s (record { permits = k; metrics = m; requests = put s.requests i p })

pub data Reach (n max_concurrent : ℕ) : Server → Type 0 where
  start :
      Reach n max_concurrent
        (record { permits = max_concurrent; metrics = metrics_new; requests = λ i. arrived })
  next : {s t : Server} → Reach n max_concurrent s → Step n s t → Reach n max_concurrent t
