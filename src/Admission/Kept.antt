-- ===== src/Admission/Kept.antt =====
-- The operations of crates/server/src/metrics.rs: what each keeps, when one request performs it.
use herbert_rs.Prelude.{
  ℕ, ◌+◌, ◌%◌, ◌^◌, ◌≤◌, ◌<◌, ◌≡◌, refl, subst, inl, inr, Bool, true, ltb, ltb→lt, ltb-false, ◌==◌,
  arith, Bool-cases,
}
use herbert_rs.Prelude.Counting.{put, put_self, count-le, one_if}
use herbert_rs.Admission.{
  fetch_add, fetch_sub, InferenceMetrics, RequestStats, start_active, raise_peak, request_completed,
  Counter, Phase, arrived, refused, queued, granted, admitted, loads_peak, raises, runs, failed,
  records, completed, gone, rejected, after_round, after_counter, has_permit, is_waiting,
  is_started, is_failed, is_counted,
}
use herbert_rs.Admission.Counters.{Below, WasRead, Inv, before, changes, others, queue-Inv}

Below-mono : (a b : ℕ) → a ≤ b → (p : Phase) → Below a p → Below b p
Below-mono a b le arrived h = tt
Below-mono a b le refused h = tt
Below-mono a b le queued h = tt
Below-mono a b le granted h = tt
Below-mono a b le admitted h = tt
Below-mono a b le (loads_peak current) h = omega arith
Below-mono a b le (raises current peak) h = omega arith
Below-mono a b le runs h = tt
Below-mono a b le failed h = tt
Below-mono a b le (records stats next) h = tt
Below-mono a b le completed h = tt
Below-mono a b le gone h = tt
Below-mono a b le rejected h = tt

module _ {n max_concurrent permits : ℕ} {m : InferenceMetrics} {requests : ℕ → Phase} (i : ℕ)
    (lt : i < n) (small : n < 2 ^ 62) (v : Inv n max_concurrent permits m requests) where
  pub few_waiting : m.waiting_count ≤ n
  few_waiting = omega (arith, v.waiting, count-le n (λ j. is_waiting (requests j)))

  few_active : m.active_requests ≤ n + n
  few_active = omega (
    arith,
    v.active,
    count-le n (λ j. is_started (requests j)),
    count-le n (λ j. is_failed (requests j)),
  )

  few_counted : m.total_requests ≤ n
  few_counted = omega (arith, v.total, count-le n (λ j. is_counted (requests j)))

  pub start-Inv :
      requests i ≡ admitted
      → Inv n max_concurrent permits
          (start_active m)
          (put requests i (loads_peak (fetch_add m.active_requests 1)))
  unfolding start_active
  start-Inv at = record {
    shared = omega (arith, v.shared, changes i admitted c lt at v has_permit);
    waiting = omega (arith, v.waiting, changes i admitted c lt at v is_waiting);
    active = omega (
      arith,
      v.active,
      few_active,
      changes i admitted c lt at v is_started,
      changes i admitted c lt at v is_failed,
    );
    total = omega (arith, v.total, changes i admitted c lt at v is_counted);
    read = others i admitted c lt at v (omega arith) tt;
    peak = λ h. absurd (
        omega (arith, subst (Below (fetch_add m.active_requests 1)) (put_self requests i c) (h i)));
  }
    where
      c : Phase
      c = loads_peak ((m.active_requests + 1) % 2 ^ 64)

  -- The first operation of `request_completed`.
  leave-Inv :
      (stats : RequestStats)
      → requests i ≡ records stats Counter.active
      → Inv n max_concurrent permits
          (record m { active_requests = fetch_sub m.active_requests })
          (put requests i (records stats Counter.total))
  leave-Inv stats at = record {
    shared = omega (arith, v.shared, changes i b c lt at v has_permit);
    waiting = omega (arith, v.waiting, changes i b c lt at v is_waiting);
    active = omega (
      arith,
      v.active,
      few_active,
      changes i b c lt at v is_started,
      changes i b c lt at v is_failed,
    );
    total = omega (arith, v.total, changes i b c lt at v is_counted);
    read = others i b c lt at v (omega arith) tt;
    peak = λ h. omega (
      arith,
      less,
      v.peak (
          before i b c lt at v (Below m.active_requests)
            (λ j.
              Below-mono (fetch_sub m.active_requests) m.active_requests less (put requests i c j)
                (h j))
            tt),
    );
  }
    where
      b : Phase
      b = records stats Counter.active

      c : Phase
      c = records stats Counter.total

      less : fetch_sub m.active_requests ≤ m.active_requests
      less = omega (arith, v.active, few_active, changes i b c lt at v is_started)

  -- The others leave `active_requests` and the queue as they are.
  count-Inv :
      (b c : Phase) (m' : InferenceMetrics)
      → requests i ≡ b
      → m'.waiting_count ≡ m.waiting_count
      → m'.active_requests ≡ m.active_requests
      → m'.peak_concurrent ≡ m.peak_concurrent
      → m'.total_requests + one_if (is_counted b) ≡ m.total_requests + one_if (is_counted c)
      → one_if (has_permit b) ≡ one_if (has_permit c)
      → one_if (is_waiting b) ≡ one_if (is_waiting c)
      → one_if (is_started b) ≡ one_if (is_started c)
      → one_if (is_failed b) ≡ one_if (is_failed c)
      → Below m.active_requests b
      → WasRead m'.peak_concurrent c
      → Inv n max_concurrent permits m' (put requests i c)
  count-Inv b c m' at wait act top tot same_p same_w same_s same_f below read = record {
    shared = omega (arith, v.shared, changes i b c lt at v has_permit);
    waiting = omega (arith, v.waiting, changes i b c lt at v is_waiting);
    active =
        omega (arith, v.active, changes i b c lt at v is_started, changes i b c lt at v is_failed);
    total = omega (arith, v.total, changes i b c lt at v is_counted);
    read = others i b c lt at v (omega arith) read;
    peak = λ h. omega (
      arith,
      v.peak (
          before i b c lt at v (Below m.active_requests)
            (subst (λ a. (j : ℕ) → Below a (put requests i c j)) act h) below),
    );
  }

  pub complete-Inv :
      (stats : RequestStats) (next : Counter)
      → requests i ≡ records stats next
      → Inv n max_concurrent permits
          (request_completed next stats m)
          (put requests i (after_counter stats next))
  unfolding request_completed after_counter
  complete-Inv stats Counter.active at = leave-Inv stats at
  complete-Inv stats Counter.total at =
      count-Inv _ _ _ at refl refl refl (omega (arith, few_counted)) refl refl refl refl tt tt
  complete-Inv stats Counter.input at =
      count-Inv _ _ _ at refl refl refl refl refl refl refl refl tt tt
  complete-Inv stats Counter.output at =
      count-Inv _ _ _ at refl refl refl refl refl refl refl refl tt tt
  complete-Inv stats Counter.prefill at =
      count-Inv _ _ _ at refl refl refl refl refl refl refl refl tt tt
  complete-Inv stats Counter.decode at =
      count-Inv _ _ _ at refl refl refl refl refl refl refl refl tt tt
  complete-Inv stats Counter.hits at = elim (Bool-cases (ltb 0 stats.prefix_hit_len)) [
    | inl hit ↦ rw hit (count-Inv _ _ _ at refl refl refl refl refl refl refl refl tt tt)
    | inr miss ↦ rw miss (count-Inv _ _ _ at refl refl refl refl refl refl refl refl tt tt)
  ]

  -- The peak is raised, or found high enough.
  raise-Inv :
      (current peak : ℕ)
      → requests i ≡ raises current peak
      → (peak_concurrent : ℕ) → current ≤ peak_concurrent
      → m.peak_concurrent ≤ peak_concurrent
      → Inv n max_concurrent permits
          (record m { peak_concurrent = peak_concurrent })
          (put requests i runs)
  raise-Inv current peak at peak_concurrent enough more = record {
    shared = omega (arith, v.shared, changes i b runs lt at v has_permit);
    waiting = omega (arith, v.waiting, changes i b runs lt at v is_waiting);
    active =
        omega (
          arith,
          v.active,
          changes i b runs lt at v is_started,
          changes i b runs lt at v is_failed,
        );
    total = omega (arith, v.total, changes i b runs lt at v is_counted);
    read = others i b runs lt at v more tt;
    peak = λ h. elim (Bool-cases (ltb current m.active_requests)) [
      | inr e ↦ omega (arith, ltb-false _ _ e, enough)
      | inl e ↦
          omega (
            arith,
            more,
            v.peak (before i b runs lt at v (Below m.active_requests) h (ltb→lt _ _ e)),
          )
    ];
  }
    where
      b : Phase
      b = raises current peak

  pub round-Inv :
      (current peak : ℕ) (spurious : Bool)
      → requests i ≡ raises current peak
      → Inv n max_concurrent permits
          (raise_peak spurious current peak m).0
          (put requests i (after_round current (raise_peak spurious current peak m).1))
  unfolding raise_peak after_round
  round-Inv current peak spurious at = elim (Bool-cases (ltb peak current)) [
    | inr e ↦ rw e (
        raise-Inv current peak at m.peak_concurrent (omega (arith, ltb-false _ _ e, was_read))
          (omega arith))
    | inl e ↦ elim (Bool-cases spurious) [
      | inl s ↦ rw (e, s) (again)
      | inr s ↦ elim (Bool-cases (m.peak_concurrent == peak)) [
        | inl q ↦
            rw (e, s, q)
              (raise-Inv current peak at current (omega arith)
                (omega (arith, ltb→lt _ _ e, equal q)))
        | inr q ↦ rw (e, s, q) again
      ]
    ]
  ]
    where
      was_read : peak ≤ m.peak_concurrent
      was_read = subst (WasRead m.peak_concurrent) at (v.read i)

      equal : (m.peak_concurrent == peak) ≡ true → m.peak_concurrent ≡ peak
      equal q = ground arith

      again : Inv n max_concurrent permits m (put requests i (raises current m.peak_concurrent))
      again =
          queue-Inv i (raises current peak) (raises current m.peak_concurrent) lt at v permits
            m.waiting_count refl refl refl refl (omega arith) (λ h. h)
