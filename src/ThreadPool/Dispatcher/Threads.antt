-- ===== src/ThreadPool/Dispatcher/Threads.antt =====
-- Threads that call `parallel_for`, of crates/backends/backend_common/src/thread_pool.rs, over one
-- `PriorityDispatcher`: any number of them, interleaved in any order at its mutex.
use herbert_rs.Prelude.{
  ℕ, suc, ◌≤◌, ◌<◌, ◌≡◌, subst, ◌∙◌, ◌⊎◌, inl, inr, ◌≢◌, true, none, some, map, All, ◌==◌, arith,
  Bool-cases,
}
use herbert_rs.Prelude.Counting.{put}
use herbert_rs.Prelude.Perms.{Distinct}
use herbert_rs.ThreadPool.Dispatcher.{
  DispatchState, dispatcher_new, Caller, outside, waits, holds, acquire, wake, release,
}

-- One thread takes the mutex once.
pub data Turn (d : DispatchState) : Caller → DispatchState → Caller → Type 0 where
  arrive : (priority : ℕ) → Turn d outside (acquire priority d).0 (acquire priority d).1
  wakes : {t : ℕ} → Turn d (waits t) (wake t d).0 (wake t d).1
  leave : {d' : DispatchState} → release d ≡ some d' → Turn d holds d' outside

pub record System : Type 0 where
  pub dispatcher : DispatchState
  pub threads : ℕ → Caller

-- The states after `n` turns.
pub data Reach : ℕ → System → Type 0 where
  start : Reach 0 (record { dispatcher = dispatcher_new; threads = λ i. outside })
  next :
      {n : ℕ} {s : System} {d : DispatchState} {c : Caller}
      → Reach n s
      → (i : ℕ) → Turn s.dispatcher (s.threads i) d c
      → Reach (suc n) (record { dispatcher = d; threads = put s.threads i c })

-- Not every thread is elsewhere.
abbrev pub Someone : (ℕ → Caller) → Caller → Type 0
Someone threads c = ¬ ((j : ℕ) → threads j ≢ c)

-- What holds of the dispatcher and the threads together.
pub record Inv (n : ℕ) (d : DispatchState) (threads : ℕ → Caller) : Type 0 where
  pub bound : d.next_ticket ≤ n
  pub fresh : (i t : ℕ) → threads i ≡ waits t → t < d.next_ticket
  pub one_each : (i j t : ℕ) → threads i ≡ waits t → threads j ≡ waits t → i ≡ j
  pub queued : (i t : ℕ) → threads i ≡ waits t → All (λ w. w.1 ≢ t) d.waiters → d.serving ≡ some t
  pub owned : All (λ w. Someone threads (waits w.1)) d.waiters
  pub called : (t : ℕ) → d.serving ≡ some t → Someone threads (waits t)
  pub tickets : Distinct (map (λ w. w.1) d.waiters)
  pub apart : (t : ℕ) → d.serving ≡ some t → All (λ w. w.1 ≢ t) d.waiters
  pub waits_busy : (i t : ℕ) → threads i ≡ waits t → d.active ≡ true
  pub serves_busy : (t : ℕ) → d.serving ≡ some t → d.active ≡ true
  pub holds_busy : (i : ℕ) → threads i ≡ holds → (d.active ≡ true) × (d.serving ≡ none)
  pub one_holder : (i j : ℕ) → threads i ≡ holds → threads j ≡ holds → i ≡ j
  pub baton : d.active ≡ true → d.serving ≡ none → Someone threads holds

-- Where thread `j` stands, at `x`, once thread `i` has moved to `c`: it is the one that moved, or it
-- stands where it stood.
abbrev pub Moved : (ℕ → Caller) → ℕ → Caller → ℕ → Caller → Type 0
Moved threads i c j x = ((j ≡ i) × (c ≡ x)) ⊎ ((j ≢ i) × (threads j ≡ x))

abbrev pub Keeps : (ℕ → Caller) → ℕ → Caller → Type 0
Keeps threads i c = (x : Caller) → threads i ≢ x → Someone threads x → Someone (put threads i c) x

module _ (threads : ℕ → Caller) (i : ℕ) (c : Caller) where
  pub put_self : put threads i c i ≡ c
  put_self = ground arith

  pub put-ne : (j : ℕ) → j ≢ i → put threads i c j ≡ threads j
  put-ne j h = ground arith

  pub put-cases : (j : ℕ) (x : Caller) → put threads i c j ≡ x → Moved threads i c j x
  put-cases j x h = elim (Bool-cases (j == i)) [
    | inl e ↦ inl (ground arith, ground arith)
    | inr e ↦ inr (ground arith, ground arith)
  ]

  pub Someone_else : Keeps threads i c
  Someone_else x ne someone nobody =
      someone λ j at. nobody j (put-ne j (λ e. ne (subst (λ k. threads k ≡ x) e at)) ∙ at)

  pub Someone-new : Someone (put threads i c) c
  Someone-new nobody = nobody i put_self
