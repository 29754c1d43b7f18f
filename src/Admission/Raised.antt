-- ===== src/Admission/Raised.antt =====
-- The loop of `request_started` in crates/server/src/metrics.rs, while other requests raise the same peak.
use herbert_rs.Prelude.{
  ℕ, zero, suc, ◌-◌, ◌≤◌, ◌<◌, ◌≡◌, refl, inl, inr, false, Option, none, some, ltb, ltb→lt,
  ltb-false, ◌==◌, arith, Bool-cases,
}
use herbert_rs.Admission.{InferenceMetrics, raise_peak}

-- A round that ended the loop leaves its metrics; otherwise the rest of it runs.
abbrev pub next_round :
    InferenceMetrics × Option ℕ → (ℕ → Option InferenceMetrics) → Option InferenceMetrics
next_round (m, none) rest = some m
next_round (m, some peak) rest = rest peak

-- The loop on fuel, where `seen k` is the state that the round `k` meets: the metrics after it.
unfoldable pub raise_loop : ℕ → (ℕ → InferenceMetrics) → ℕ → ℕ → ℕ → Option InferenceMetrics
raise_loop zero seen k current peak = none
raise_loop (suc fuel) seen k current peak =
    next_round (raise_peak false current peak (seen k)) (raise_loop fuel seen (suc k) current)

-- `raise_peak` in a state whose peak is no less than what was read.
data Round (current peak : ℕ) (m : InferenceMetrics) : InferenceMetrics × Option ℕ → Type 0 where
  done : (m' : InferenceMetrics) → current ≤ m'.peak_concurrent → Round current peak m (m', none)
  again :
      peak < m.peak_concurrent → peak < current → Round current peak m (m, some m.peak_concurrent)

raise_peak-Round :
    (current peak : ℕ) (m : InferenceMetrics)
    → peak ≤ m.peak_concurrent
    → Round current peak m (raise_peak false current peak m)
unfolding raise_peak
raise_peak-Round current peak m le = elim (Bool-cases (ltb peak current)) [
  | inr e ↦ rw e (Round.done m (omega (arith, ltb-false _ _ e)))
  | inl e ↦ elim (Bool-cases (m.peak_concurrent == peak)) [
    | inl q ↦ rw (e, q) (Round.done (record m { peak_concurrent = current }) (omega arith))
    | inr q ↦ rw (e, q) (Round.again (ground arith) (ltb→lt _ _ e))
  ]
]

-- The loop that raises the peak ends, whatever others do to the peak meanwhile: if they only raise it
-- and no exchange fails for nothing, then from a peak that was read before, `current - peak` rounds and one
-- more are enough, and the peak is at least `current` when the loop is left.
pub raise_loop_ends :
    (fuel : ℕ) (seen : ℕ → InferenceMetrics) (k current peak : ℕ)
    → current - peak < fuel
    → peak ≤ (seen k).peak_concurrent
    → ((j : ℕ) → (seen j).peak_concurrent ≤ (seen (suc j)).peak_concurrent)
    → (m : InferenceMetrics) × (raise_loop fuel seen k current peak ≡ some m)
      × (current ≤ m.peak_concurrent)
unfolding raise_loop
raise_loop_ends zero seen k current peak enough read raised = absurd (omega arith)
raise_loop_ends (suc fuel) seen k current peak enough read raised =
    after (raise_peak false current peak (seen k)) (raise_peak-Round current peak (seen k) read)
      λ more less.
        raise_loop_ends fuel seen (suc k) current (seen k).peak_concurrent (omega arith) (raised k)
          raised
  where
    after :
        (r : InferenceMetrics × Option ℕ)
        → Round current peak (seen k) r
        → (peak < (seen k).peak_concurrent
            → peak < current
            → (m : InferenceMetrics) × (raise_loop fuel seen
                  (suc k)
                  current
                  (seen k).peak_concurrent
                ≡ some m)
              × (current ≤ m.peak_concurrent))
        → (m : InferenceMetrics) × (next_round r (raise_loop fuel seen (suc k) current) ≡ some m)
          × (current ≤ m.peak_concurrent)
    after r (Round.done m' h) later = (m', refl, h)
    after r (Round.again h lt) later = later h lt
