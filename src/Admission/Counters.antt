-- ===== src/Admission/Counters.antt =====
-- The semaphore and the counters of crates/server/src/metrics.rs, with requests that run side by side.
use herbert_rs.Prelude.{ℕ, ◌+◌, ◌≤◌, ◌<◌, ◌≡◌, sym, ap, subst, Bool, arith}
use herbert_rs.Prelude.Counting.{put, put_self, put_back, put-all, count, count-put, one_if}
use herbert_rs.Admission.{
  InferenceMetrics, Phase, arrived, refused, queued, granted, admitted, loads_peak, raises, runs,
  failed, records, completed, gone, rejected, has_permit, is_waiting, is_started, is_failed,
  is_counted,
}

-- A request that may still raise the peak does not raise it to `active`.
abbrev pub Below : ℕ → Phase → Type 0
Below active (loads_peak current) = current < active
Below active (raises current peak) = current < active
Below active p = Unit {0}

-- The peak that was read is no more than the peak.
abbrev pub WasRead : ℕ → Phase → Type 0
WasRead peak_concurrent (raises current peak) = peak ≤ peak_concurrent
WasRead peak_concurrent p = Unit {0}

pub record Inv (n max_concurrent : ℕ) (permits : ℕ) (m : InferenceMetrics) (requests : ℕ → Phase)
    : Type 0 where
  pub shared : permits + count n (λ i. has_permit (requests i)) ≡ max_concurrent
  pub waiting : m.waiting_count ≡ count n (λ i. is_waiting (requests i))
  pub active :
      m.active_requests
      ≡ count n (λ i. is_started (requests i)) + count n (λ i. is_failed (requests i))
  pub total : m.total_requests ≡ count n (λ i. is_counted (requests i))
  pub read : (i : ℕ) → WasRead m.peak_concurrent (requests i)
  pub peak :
      ((i : ℕ) → Below m.active_requests (requests i)) → m.active_requests ≤ m.peak_concurrent

-- How the counts change with one request.
moved :
    (test : Phase → Bool) (n : ℕ) (requests : ℕ → Phase) (i : ℕ) (b c : Phase)
    → i < n
    → requests i ≡ b
    → count n (λ j. test (put requests i c j)) + one_if (test b)
      ≡ count n (λ j. test (requests j)) + one_if (test c)
moved test n requests i b c lt at =
    subst
      (λ p.
        count n (λ j. test (put requests i c j)) + one_if (test p)
        ≡ count n (λ j. test (requests j)) + one_if (test c))
      at (count-put test n requests i c lt)

-- A move that neither starts, fails nor completes a request, nor raises the peak.
module _ {n max_concurrent permits : ℕ} {m : InferenceMetrics} {requests : ℕ → Phase} (i : ℕ)
    (b c : Phase) (lt : i < n) (at : requests i ≡ b)
    (v : Inv n max_concurrent permits m requests) where
  pub before :
      (P : Phase → Type 0) → ((j : ℕ) → P (put requests i c j)) → P b → (j : ℕ) → P (requests j)
  before P all old = put_back P requests i c all (subst P (sym at) old)

  pub changes :
      (test : Phase → Bool)
      → count n (λ j. test (put requests i c j)) + one_if (test b)
        ≡ count n (λ j. test (requests j)) + one_if (test c)
  changes test = moved test n requests i b c lt at

  pub others :
      {peak_concurrent : ℕ}
      → m.peak_concurrent ≤ peak_concurrent
      → WasRead peak_concurrent c
      → (j : ℕ) → WasRead peak_concurrent (put requests i c j)
  others {peak_concurrent} le new =
      put-all (λ j. WasRead peak_concurrent) requests i c (λ j. weaken (requests j) (v.read j)) new
    where
      weaken : (p : Phase) → WasRead m.peak_concurrent p → WasRead peak_concurrent p
      weaken arrived h = tt
      weaken refused h = tt
      weaken queued h = tt
      weaken granted h = tt
      weaken admitted h = tt
      weaken (loads_peak current) h = tt
      weaken (raises current peak) h = omega (arith, le)
      weaken runs h = tt
      weaken failed h = tt
      weaken (records stats next) h = tt
      weaken completed h = tt
      weaken gone h = tt
      weaken rejected h = tt

  -- The permits and the counters of the queue may change, the others stay.
  pub queue-Inv :
      (permits' waiting' : ℕ)
      → permits' + one_if (has_permit c) ≡ permits + one_if (has_permit b)
      → waiting' + one_if (is_waiting b) ≡ m.waiting_count + one_if (is_waiting c)
      → one_if (is_started b) + one_if (is_failed b) ≡ one_if (is_started c) + one_if (is_failed c)
      → is_counted b ≡ is_counted c
      → WasRead m.peak_concurrent c
      → (Below m.active_requests c → Below m.active_requests b)
      → Inv n max_concurrent permits' (record m { waiting_count = waiting' }) (put requests i c)
  queue-Inv permits' waiting' share wait same counted was back = record {
    shared = omega (arith, v.shared, changes has_permit, share);
    waiting = omega (arith, v.waiting, changes is_waiting, wait);
    active = omega (arith, v.active, changes is_started, changes is_failed, same);
    total = omega (arith, v.total, changes is_counted, ap one_if counted);
    read = others (omega arith) was;
    peak = λ h. v.peak (
        before (Below m.active_requests) h
          (back (subst (Below m.active_requests) (put_self requests i c) (h i))));
  }
