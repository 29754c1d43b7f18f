-- ===== src/Admission.antt =====
-- crates/server/src/metrics.rs, and how `run_inference` of crates/server/src/handlers.rs admits a request:
-- the semaphore, the queue and the counters, one atomic operation at a time. The averages of `summary`,
-- which are floating point, the clock, and the events sent while a request waits are left out.
pub mod Steps
pub mod Counters
pub mod Kept
pub mod Reached
pub mod Raised
mod Tests
use herbert_rs.Prelude.{
  ℕ, suc, ◌+◌, ◌-◌, ◌%◌, ◌^◌, Bool, true, false, Option, none, some, ltb, ◌==◌, if◌then◌else◌,
}

-- `fetch_add` and `fetch_sub` wrap around.
abbrev pub fetch_add : ℕ → ℕ → ℕ
fetch_add a n = (a + n) % 2 ^ 64

abbrev pub fetch_sub : ℕ → ℕ
fetch_sub a = (a + (2 ^ 64 - 1)) % 2 ^ 64

pub record InferenceMetrics : Type 0 where
  pub total_requests : ℕ
  pub total_input_tokens : ℕ
  pub total_output_tokens : ℕ
  pub total_prefill_us : ℕ
  pub total_decode_us : ℕ
  pub prefix_cache_hits : ℕ
  pub peak_concurrent : ℕ
  pub active_requests : ℕ
  pub waiting_count : ℕ

unfoldable pub metrics_new : InferenceMetrics
metrics_new = record {
  total_requests = 0;
  total_input_tokens = 0;
  total_output_tokens = 0;
  total_prefill_us = 0;
  total_decode_us = 0;
  prefix_cache_hits = 0;
  peak_concurrent = 0;
  active_requests = 0;
  waiting_count = 0;
}

pub record RequestStats : Type 0 where
  pub input_tokens : ℕ
  pub output_tokens : ℕ
  pub prefill_us : ℕ
  pub decode_us : ℕ
  pub prefix_hit_len : ℕ

-- The first operation of `request_started`.
unfoldable pub start_active : InferenceMetrics → InferenceMetrics
start_active m = record m { active_requests = fetch_add m.active_requests 1 }

-- One round of its loop, with `current` and the `peak` read: the metrics, and the `peak` for the next
-- round if there is one. A weak exchange may fail although the values are equal: `spurious`.
unfoldable pub raise_peak : Bool → ℕ → ℕ → InferenceMetrics → InferenceMetrics × Option ℕ
raise_peak spurious current peak m =
    if ltb peak current
    then (if spurious
        then (m, some m.peak_concurrent)
        else if m.peak_concurrent == peak
        then (record m { peak_concurrent = current }, none)
        else (m, some m.peak_concurrent))
    else (m, none)

-- The counters that `request_completed` updates, in its order.
pub data Counter : Type 0 where
  active total input output prefill decode hits : Counter

-- Its atomic operation on one of them.
unfoldable pub request_completed : Counter → RequestStats → InferenceMetrics → InferenceMetrics
request_completed Counter.active stats m = record m {
  active_requests = fetch_sub m.active_requests;
}
request_completed Counter.total stats m = record m { total_requests = fetch_add m.total_requests 1 }
request_completed Counter.input stats m = record m {
  total_input_tokens = fetch_add m.total_input_tokens stats.input_tokens;
}
request_completed Counter.output stats m = record m {
  total_output_tokens = fetch_add m.total_output_tokens stats.output_tokens;
}
request_completed Counter.prefill stats m = record m {
  total_prefill_us = fetch_add m.total_prefill_us stats.prefill_us;
}
request_completed Counter.decode stats m = record m {
  total_decode_us = fetch_add m.total_decode_us stats.decode_us;
}
request_completed Counter.hits stats m =
    if ltb 0 stats.prefix_hit_len
    then record m { prefix_cache_hits = fetch_add m.prefix_cache_hits 1 }
    else m

-- Where `run_inference` stands.
pub data Phase : Type 0 where
  arrived : Phase
  refused : Phase  -- `try_acquire` failed
  queued : Phase  -- counted as waiting
  granted : Phase  -- the permit came while it was waiting
  admitted : Phase  -- with the permit, before `request_started`
  loads_peak : (current : ℕ) → Phase
  raises : (current peak : ℕ) → Phase
  runs : Phase
  failed : Phase  -- left by an error, permit dropped
  records : (stats : RequestStats) (next : Counter) → Phase  -- in `request_completed`
  completed : Phase  -- after it, with the permit
  gone : Phase
  rejected : Phase  -- the semaphore was closed

unfoldable pub after_round : ℕ → Option ℕ → Phase
after_round current none = Phase.runs
after_round current (some peak) = Phase.raises current peak

-- Behind the operation on a counter.
unfoldable pub after_counter : RequestStats → Counter → Phase
after_counter stats Counter.active = Phase.records stats Counter.total
after_counter stats Counter.total = Phase.records stats Counter.input
after_counter stats Counter.input = Phase.records stats Counter.output
after_counter stats Counter.output = Phase.records stats Counter.prefill
after_counter stats Counter.prefill = Phase.records stats Counter.decode
after_counter stats Counter.decode = Phase.records stats Counter.hits
after_counter stats Counter.hits = Phase.completed

-- It has a permit.
abbrev pub has_permit : Phase → Bool
has_permit Phase.granted = true
has_permit Phase.admitted = true
has_permit (Phase.loads_peak current) = true
has_permit (Phase.raises current peak) = true
has_permit Phase.runs = true
has_permit (Phase.records stats next) = true
has_permit Phase.completed = true
has_permit p = false

-- It is counted as waiting.
abbrev pub is_waiting : Phase → Bool
is_waiting Phase.queued = true
is_waiting Phase.granted = true
is_waiting p = false

-- It runs, from the first operation of `request_started` up to the first of `request_completed`.
abbrev pub is_started : Phase → Bool
is_started (Phase.loads_peak current) = true
is_started (Phase.raises current peak) = true
is_started Phase.runs = true
is_started (Phase.records stats Counter.active) = true
is_started p = false

abbrev pub is_failed : Phase → Bool
is_failed Phase.failed = true
is_failed p = false

-- It is past the second operation of `request_completed`.
abbrev pub is_counted : Phase → Bool
is_counted (Phase.records stats Counter.active) = false
is_counted (Phase.records stats Counter.total) = false
is_counted (Phase.records stats next) = true
is_counted Phase.completed = true
is_counted Phase.gone = true
is_counted p = false
