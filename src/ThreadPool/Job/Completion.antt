-- ===== src/ThreadPool/Job/Completion.antt =====
-- `parallel_for_with_max_workers` of crates/backends/backend_common/src/thread_pool.rs: what has happened
-- by the time that it returns.
use herbert_rs.Prelude.{
  ℕ, suc, ◌+◌, ◌^◌, ◌≤◌, ◌<◌, ◌≡◌, refl, sym, ap, subst, ◌∙◌, inl, inr, true, some, ltb, ltb→lt,
  arith, Bool-cases,
}
use herbert_rs.ThreadPool.Job.{
  ParallelJob, SharedState, default_state, PoolResult, collect, Worker, chunk, parked, runs, idles,
  stopped, complete, shut_down,
}
use herbert_rs.ThreadPool.Job.Chunks.{
  Takes, Splits, make_job-Splits, make_job-total_items, Splits-partitions,
}
use herbert_rs.ThreadPool.Job.System.{
  nobody, awaits, Pool, Step, submit, returns, looks, called, skips, drops, Reach, start, next,
}
use herbert_rs.ThreadPool.Job.Working.{is_back, its_calls, Works, Rests}
use herbert_rs.ThreadPool.Job.Invariant.{Phase, Inv, submit-Working}
use herbert_rs.ThreadPool.Job.Phases.{
  collect-some, back, rests, look-Phase, calls_one, called-Phase, skips-Phase,
}

Step-Inv :
    {num n : ℕ} {p q : Pool} → suc n < 2 ^ 64 → Step num p q → Inv num n p → Inv num (suc n) q
unfolding complete shut_down
Step-Inv {num} {n} {p} small (submit m total {job} free still fits starts) v =
    let (w, gen) =
      submit-Working num m total n job p.state p.workers small v.bound still fits starts
        (subst (λ c. Phase num c p.state p.workers p.calls) free v.phase) in
    record { bound = omega (arith, v.bound, gen); phase = w }
Step-Inv {num} {n} {p} small (returns {job} {s = t} waiting out) v =
    let (enough, e) = collect-some job.active_workers p.state t out in
    let w = subst (λ c. Phase num c p.state p.workers p.calls) waiting v.phase in
    subst (λ x. Inv num (suc n) (record p { state = x; caller = nobody })) (sym e)
      record { bound = omega (arith, v.bound); phase = rests w enough }
Step-Inv {num} {p} small (looks i {seen} lt at) v = record {
  bound = omega (arith, v.bound);
  phase = look-Phase num i seen p.caller p.state p.workers p.calls at v.phase;
}
Step-Inv {num} {p} small (called i caught {seen} {lo = x} {hi = y} {job} lt at) v = record {
  bound = omega (arith, v.bound);
  phase = called-Phase num i seen x y job caught p.caller p.state p.workers p.calls at v.phase;
}
Step-Inv {num} {p} small (skips i {seen} {job} lt at) v = record {
  bound = omega (arith, v.bound);
  phase = skips-Phase num i seen job p.caller p.state p.workers p.calls at v.phase;
}
Step-Inv {num} {p} small (drops free) v = record {
  bound = omega (arith, v.bound);
  phase =
      subst (λ c. Phase num c (shut_down p.state) p.workers p.calls) (sym free)
        (subst (λ c. Phase num c p.state p.workers p.calls) free v.phase);
}

Reach-Inv : {num n : ℕ} {p : Pool} → n < 2 ^ 64 → Reach num n p → Inv num n p
unfolding default_state
Reach-Inv small start = record { bound = omega arith; phase = λ i. (omega arith, λ share. refl) }
Reach-Inv small (next r step) = Step-Inv small step (Reach-Inv (omega arith) r)

its_calls-active :
    (job : ParallelJob) (g i : ℕ) (w : Worker) (k : ℕ)
    → Works job g i w k
    → 0 < k
    → i < job.active_workers
its_calls-active job g i (parked seen) k h pos = elim (Bool-cases (ltb i job.active_workers)) [
  | inl e ↦ ltb→lt _ _ e
  | inr e ↦ absurd (ground (arith, h.1, e))
]
its_calls-active job g i (runs seen j x y) k h pos = h.1
its_calls-active job g i (idles seen j) k h pos = absurd (omega arith)
its_calls-active job g i stopped k h pos = absurd (omega arith)

its_calls-back :
    (job : ParallelJob) (g i : ℕ) (w : Worker) (k : ℕ)
    → Works job g i w k
    → is_back g w ≡ true
    → k ≡ its_calls job i
its_calls-back job g i (parked seen) k h b = h.1 ∙ rw b refl
its_calls-back job g i (runs seen j x y) k h b = cc
its_calls-back job g i (idles seen j) k h b = cc
its_calls-back job g i stopped k h b = cc

-- No callback outlives its call: in every state that the pool reaches by fewer than 2 ^ 64 moves, if the
-- caller's wait for its job is over, no worker is inside a callback.
pub none_running :
    {num n : ℕ} {p : Pool} (job : ParallelJob) (result : PoolResult) (s : SharedState)
    → n < 2 ^ 64
    → Reach num n p
    → p.caller ≡ awaits job
    → collect job.active_workers p.state ≡ some (result, s)
    → (i seen lo hi : ℕ) (j : ParallelJob) → ¬ (p.workers i ≡ runs seen j lo hi)
none_running {num} {p} job result s small r waiting out i seen x y j at =
    let v = Reach-Inv small r in
    let w = subst (λ c. Phase num c p.state p.workers p.calls) waiting v.phase in
    elim (subst (Rests p.state.current_job p.state.generation i) at
      (rests w (collect-some job.active_workers p.state s out).0 i)) [ ]

-- `parallel_for` runs its callback once for each item: in every state that the pool reaches by fewer
-- than 2 ^ 64 moves, if the caller's wait for its job is over and the items and the active workers of the
-- job are no more than 2 ^ 64 together, then for each item of the job exactly one of the workers that
-- entered the callback has it in its chunk, and that worker entered it once.
pub each_item_once :
    {num n : ℕ} {p : Pool} (job : ParallelJob) (result : PoolResult) (s : SharedState) (x : ℕ)
    → n < 2 ^ 64
    → Reach num n p
    → p.caller ≡ awaits job
    → collect job.active_workers p.state ≡ some (result, s)
    → job.total_items + job.active_workers ≤ 2 ^ 64
    → x < job.total_items
    → (w : ℕ) × (p.calls w ≡ 1) × Takes job w x × ((u : ℕ) → 0 < p.calls u → Takes job u x → u ≡ w)
each_item_once {num} {p} job result s x small r waiting out room lt =
    let v = subst (λ c. Phase num c p.state p.workers p.calls) waiting (Reach-Inv small r).phase in
    let items =
      ap (λ (j : ParallelJob). j.total_items) v.made
      ∙ make_job-total_items num v.max_workers v.total in
    let splits = subst Splits (sym v.made) (
      make_job-Splits num v.max_workers v.total v.positive (
        subst (λ (j : ParallelJob). v.total + j.active_workers ≤ 2 ^ 64) v.made
          (subst (λ t. t + job.active_workers ≤ 2 ^ 64) items room))) in
    let (w, w_active, takes, only) = Splits-partitions job x splits lt in
    (
      w,
      its_calls-back job p.state.generation w (p.workers w) (p.calls w) (v.each w)
            (back v (collect-some job.active_workers p.state s out).0 w w_active)
          ∙ sym (
              calls_one job w (chunk job w).0 (chunk job w).1 1 w_active refl refl
                (omega (arith, takes.0, takes.1)) refl),
      takes,
      λ u called takes_too.
          only u
            (its_calls-active job p.state.generation u (p.workers u) (p.calls u) (v.each u) called)
            takes_too,
    )
